-- ===== src/Index/Fts/Latest.antt =====
-- The file after any sequence of applies.
use mathlib.Core.Path.{subst}
use mathlib.Core.List.{Mem, mem-cons_self, mem-cons_of_mem, append-nil}
use session_flow.Base.{
  All, All-map, ◌≤◌, ℕ_discrete, ℕ, ◌≡◌, ◌≢◌, refl, sym, ap, ◌∙◌, String, true, false, not, Option,
  none, some, List, [], ◌∷◌, leb, keep, keep-append, ◌==◌, nat_eq, arith, Bool-cases, inl, inr,
}
use session_flow.Base.Dict
use session_flow.Base.Dict.{Dict, lookup-insert}
use session_flow.Memory.Record.{MemoryRow}
use session_flow.Memory.Select.{is_live}
use session_flow.Index.Fts.{
  FtsRow, Watermark, MemoryFts, no_fts, delete_rows, fts_row, view, is_marked, apply,
}

-- What the file holds of a record.
abbrev pub entries : ℕ → MemoryFts → List FtsRow
entries memory_id f = keep (λ (r : FtsRow). r.memory_id == memory_id) f.rows

pub entries-delete_self :
    (i : ℕ) (rows : List FtsRow) → keep (λ (r : FtsRow). r.memory_id == i) (delete_rows i rows) ≡ []
entries-delete_self i [] = refl
entries-delete_self i (r ∷ rows) = ground (arith, entries-delete_self i rows)

pub entries-delete_other :
    (i j : ℕ) (rows : List FtsRow)
    → i ≢ j
    → keep (λ (r : FtsRow). r.memory_id == i) (delete_rows j rows)
      ≡ keep (λ (r : FtsRow). r.memory_id == i) rows
entries-delete_other i j [] n = refl
entries-delete_other i j (r ∷ rows) n = ground (arith, entries-delete_other i j rows n)

module _ (field : String → String → Option String) where
  entries-view_self :
      (r : MemoryRow)
      → keep (λ (x : FtsRow). x.memory_id == r.memory_id) (view field r) ≡ view field r
  unfolding fts_row
  entries-view_self r = ground arith

  entries-view_other :
      (i : ℕ) (r : MemoryRow)
      → i ≢ r.memory_id
      → keep (λ (x : FtsRow). x.memory_id == i) (view field r) ≡ []
  unfolding fts_row
  entries-view_other i r n = ground arith

  abbrev pub mark_of : MemoryRow → Watermark
  mark_of r = record { version = r.version; deleted = not (is_live r) }

  pub entries-apply_self :
      (r : MemoryRow) (f : MemoryFts)
      → is_marked (Dict.lookup r.memory_id f.watermarks) r.version ≡ false
      → entries r.memory_id (apply field r f).1 ≡ view field r
  unfolding apply
  entries-apply_self r f fresh =
      rw (fresh, apply)
        (keep-append (λ (x : FtsRow). x.memory_id == r.memory_id) (delete_rows r.memory_id f.rows)
            (view field r)
          ∙ rw (entries-delete_self r.memory_id f.rows) (entries-view_self r))

  pub lookup-apply_self :
      (r : MemoryRow) (f : MemoryFts)
      → is_marked (Dict.lookup r.memory_id f.watermarks) r.version ≡ false
      → Dict.lookup r.memory_id (apply field r f).1.watermarks ≡ some (mark_of r)
  unfolding apply
  lookup-apply_self r f fresh =
      rw (fresh, apply)
        (ground (arith, lookup-insert r.memory_id r.memory_id (mark_of r) f.watermarks))

  pub apply_marked :
      (r : MemoryRow) (f : MemoryFts)
      → is_marked (Dict.lookup r.memory_id f.watermarks) r.version ≡ true
      → (apply field r f).1 ≡ f
  unfolding apply
  apply_marked r f old = rw (old, apply) refl

  pub entries-apply_other :
      (i : ℕ) (r : MemoryRow) (f : MemoryFts)
      → i ≢ r.memory_id
      → entries i (apply field r f).1 ≡ entries i f
  unfolding apply
  entries-apply_other i r f n =
      elim (Bool-cases (is_marked (Dict.lookup r.memory_id f.watermarks) r.version)) [
        | inl old ↦ rw (old, apply) refl
        | inr fresh ↦
            rw (fresh, apply)
              (keep-append (λ (x : FtsRow). x.memory_id == i) (delete_rows r.memory_id f.rows)
                  (view field r)
                ∙ rw (entries-delete_other i r.memory_id f.rows n, entries-view_other i r n)
                    (append-nil (entries i f)))
      ]

  pub lookup-apply_other :
      (i : ℕ) (r : MemoryRow) (f : MemoryFts)
      → i ≢ r.memory_id
      → Dict.lookup i (apply field r f).1.watermarks ≡ Dict.lookup i f.watermarks
  unfolding apply
  lookup-apply_other i r f n = ground (arith, lookup-insert i r.memory_id (mark_of r) f.watermarks)

  -- The file after a list of rows was applied, the last of the list first.
  unfoldable pub apply_all : List MemoryRow → MemoryFts
  apply_all [] = no_fts
  apply_all (r ∷ rows) = (apply field r (apply_all rows)).1

  -- What the file holds of a record when some rows were applied: nothing, when none was the record's;
  -- else the view of one of them that has the highest version.
  pub data HoldsNewest (i : ℕ) (rows : List MemoryRow) (f : MemoryFts) : Type 0 where
    absent :
        All (λ (r : MemoryRow). r.memory_id ≢ i) rows
        → entries i f ≡ []
        → Dict.lookup i f.watermarks ≡ none
        → HoldsNewest i rows f
    newest :
        (b : MemoryRow)
        → Mem b rows
        → b.memory_id ≡ i
        → All (λ (r : MemoryRow). r.memory_id ≡ i → r.version ≤ b.version) rows
        → entries i f ≡ view field b
        → Dict.lookup i f.watermarks ≡ some (mark_of b)
        → HoldsNewest i rows f

  apply-HoldsNewest_self :
      (r : MemoryRow) (rows : List MemoryRow) (f : MemoryFts)
      → HoldsNewest r.memory_id rows f
      → HoldsNewest r.memory_id (r ∷ rows) (apply field r f).1
  apply-HoldsNewest_self r rows f (absent none_of e l) =
      let fresh = ap (λ m. is_marked m r.version) l in
      newest r mem-cons_self refl
        ((λ _. omega arith), All-map (λ x n own. absurd (n own)) rows none_of)
        (entries-apply_self r f fresh) (lookup-apply_self r f fresh)
  apply-HoldsNewest_self r rows f (newest b m own top e l) =
      elim (Bool-cases (leb r.version b.version)) [
        | inl old ↦
            let same = apply_marked r f (ap (λ k. is_marked k r.version) l ∙ old) in
            newest b (mem-cons_of_mem r m) own ((λ _. ground arith), top)
              (ap (entries r.memory_id) same ∙ e)
              (ap (λ (g : MemoryFts). Dict.lookup r.memory_id g.watermarks) same ∙ l)
        | inr later ↦
            let fresh = ap (λ k. is_marked k r.version) l ∙ later in
            newest r mem-cons_self refl
              ((λ _. omega arith), All-map (λ x h same. ground (arith, h same)) rows top)
              (entries-apply_self r f fresh) (lookup-apply_self r f fresh)
      ]

  apply-HoldsNewest_other :
      (i : ℕ) (r : MemoryRow) (rows : List MemoryRow) (f : MemoryFts)
      → i ≢ r.memory_id
      → HoldsNewest i rows f
      → HoldsNewest i (r ∷ rows) (apply field r f).1
  apply-HoldsNewest_other i r rows f n (absent none_of e l) =
      absent ((λ own. n (sym own)), none_of) (entries-apply_other i r f n ∙ e)
        (lookup-apply_other i r f n ∙ l)
  apply-HoldsNewest_other i r rows f n (newest b m own top e l) =
      newest b (mem-cons_of_mem r m) own ((λ same. absurd (n (sym same))), top)
        (entries-apply_other i r f n ∙ e) (lookup-apply_other i r f n ∙ l)

  -- Whatever rows of the store were applied, in whatever order, delayed and repeated ones included, the
  -- file holds of each record nothing if no row of it was, and else exactly what one of them with the
  -- highest version has to show: its text and metadata, or nothing for a tombstone; and the
  -- watermark is that version.
  pub apply_all-HoldsNewest : (rows : List MemoryRow) (i : ℕ) → HoldsNewest i rows (apply_all rows)
  unfolding apply_all Dict.lookup
  apply_all-HoldsNewest [] i = absent tt refl refl
  apply_all-HoldsNewest (r ∷ rows) i = elim (ℕ_discrete i r.memory_id) [
    | yes e ↦
        subst (λ j. HoldsNewest j (r ∷ rows) (apply field r (apply_all rows)).1) (sym e)
          (apply-HoldsNewest_self r rows (apply_all rows) (apply_all-HoldsNewest rows r.memory_id))
    | no n ↦ apply-HoldsNewest_other i r rows (apply_all rows) n (apply_all-HoldsNewest rows i)
  ]
