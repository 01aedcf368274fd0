-- ===== src/Memory/Listing/Pages.antt =====
-- The pages of a listing, one after the other.
use mathlib.Core.Path.{subst}
use session_flow.Base.{
  ℕ, zero, suc, ◌≡◌, ◌≢◌, refl, sym, ap, ◌∙◌, true, false, some, List, [], ◌∷◌, keep, drop, take,
  All, All-map, ◌⊎◌, nat_eq, if◌then◌else◌, arith, Bool-cases, inl, inr,
}
use session_flow.Memory.Record.{MemoryRow}
use session_flow.Memory.Listing.{is_after, place, insert_newest, newest_first, last_row}

-- Every row of a list stands after the ones before it.
abbrev pub Falling : List MemoryRow → Type 0
Falling [] = Unit
Falling (r ∷ rows) = All (λ x. is_after (place r) x ≡ true) rows × Falling rows

keep-insert_newest :
    (c : ℕ × ℕ) (r : MemoryRow) (rows : List MemoryRow)
    → keep (is_after c) (insert_newest r rows)
      ≡ (if is_after c r then insert_newest r (keep (is_after c) rows) else keep (is_after c) rows)
unfolding insert_newest is_after
keep-insert_newest (t, i) r [] = ground arith
keep-insert_newest (t, i) r (x ∷ rows) = ground (arith, keep-insert_newest (t, i) r rows)

pub keep-newest_first :
    (c : ℕ × ℕ) (rows : List MemoryRow)
    → newest_first (keep (is_after c) rows) ≡ keep (is_after c) (newest_first rows)
unfolding newest_first
keep-newest_first c [] = refl
keep-newest_first c (r ∷ rows) =
    ground (arith, keep-newest_first c rows, keep-insert_newest c r (newest_first rows))

last_row-cases :
    (r : MemoryRow) (rows : List MemoryRow) (l : MemoryRow)
    → last_row (r ∷ rows) ≡ some l
    → ((rows ≡ []) × (r ≡ l)) ⊎ (last_row rows ≡ some l)
unfolding last_row
last_row-cases r [] l h = inl (refl, ground arith)
last_row-cases r (x ∷ rows) l h = ground arith

module _ (P : MemoryRow → Type 0) where
  All-insert_newest :
      (r : MemoryRow) (rows : List MemoryRow) → P r → All P rows → All P (insert_newest r rows)
  unfolding insert_newest
  All-insert_newest r [] p a = (p, tt)
  All-insert_newest r (x ∷ rows) p (q, a) = elim (Bool-cases (is_after (place x) r)) [
    | inl e ↦ rw (e, insert_newest) (q, All-insert_newest r rows p a)
    | inr e ↦ rw (e, insert_newest) (p, (q, a))
  ]

  pub All-newest_first : (rows : List MemoryRow) → All P rows → All P (newest_first rows)
  unfolding newest_first
  All-newest_first [] a = tt
  All-newest_first (r ∷ rows) (p, a) =
      All-insert_newest r (newest_first rows) p (All-newest_first rows a)

  pub last_row-All :
      (n : ℕ) (rows : List MemoryRow) (l : MemoryRow)
      → All P rows
      → last_row (take n rows) ≡ some l
      → P l
  unfolding last_row
  last_row-All zero rows l a h = absurd (ground arith)
  last_row-All (suc n) [] l a h = absurd (ground arith)
  last_row-All (suc n) (r ∷ rows) l (p, a) h = elim (last_row-cases r (take n rows) l h) [
    | inl (none_left, same) ↦ subst P same p
    | inr later ↦ last_row-All n rows l a later
  ]

abbrev pub DistinctIds : List MemoryRow → Type 0
DistinctIds [] = Unit
DistinctIds (r ∷ rows) = All (λ x. r.memory_id ≢ x.memory_id) rows × DistinctIds rows

pub is_after_trans :
    (c : ℕ × ℕ) (r x : MemoryRow)
    → is_after c r ≡ true
    → is_after (place r) x ≡ true
    → is_after c x ≡ true
unfolding is_after
is_after_trans (t, i) r x h k = ground arith

is_after_total :
    (r x : MemoryRow)
    → is_after (place x) r ≡ false
    → r.memory_id ≢ x.memory_id
    → is_after (place r) x ≡ true
unfolding is_after
is_after_total r x h n = ground arith

is_after_asymm : (r x : MemoryRow) → is_after (place r) x ≡ true → is_after (place x) r ≡ false
unfolding is_after
is_after_asymm r x h = ground arith

is_after_irrefl : (r : MemoryRow) → is_after (place r) r ≡ false
unfolding is_after
is_after_irrefl r = ground arith

insert_newest-Falling :
    (r : MemoryRow) (rows : List MemoryRow)
    → All (λ x. r.memory_id ≢ x.memory_id) rows
    → Falling rows
    → Falling (insert_newest r rows)
unfolding insert_newest
insert_newest-Falling r [] d f = (tt, tt)
insert_newest-Falling r (x ∷ rows) (n, d) (a, f) = elim (Bool-cases (is_after (place x) r)) [
  | inl e ↦
      rw (e, insert_newest)
        (
          All-insert_newest (λ y. is_after (place x) y ≡ true) r rows e a,
          insert_newest-Falling r rows d f,
        )
  | inr e ↦
      let q = is_after_total r x e n in
      rw (e, insert_newest) ((q, All-map (λ y h. is_after_trans (place r) x y q h) rows a), (a, f))
]

pub newest_first-Falling : (rows : List MemoryRow) → DistinctIds rows → Falling (newest_first rows)
unfolding newest_first
newest_first-Falling [] d = tt
newest_first-Falling (r ∷ rows) (n, d) =
    insert_newest-Falling r (newest_first rows)
      (All-newest_first (λ x. r.memory_id ≢ x.memory_id) rows n) (newest_first-Falling rows d)

keep-yes :
    (c : ℕ × ℕ) (r : MemoryRow) (rows : List MemoryRow)
    → is_after c r ≡ true
    → keep (is_after c) (r ∷ rows) ≡ r ∷ keep (is_after c) rows
keep-yes c r rows h = ground arith

keep-no :
    (c : ℕ × ℕ) (r : MemoryRow) (rows : List MemoryRow)
    → is_after c r ≡ false
    → keep (is_after c) (r ∷ rows) ≡ keep (is_after c) rows
keep-no c r rows h = ground arith

drop-of_take : (n : ℕ) (rows : List MemoryRow) → take n rows ≡ [] → drop n rows ≡ rows
drop-of_take zero rows h = refl
drop-of_take (suc n) [] h = refl
drop-of_take (suc n) (r ∷ rows) h = absurd (ground arith)

keep_each :
    (c : ℕ × ℕ) (rows : List MemoryRow)
    → All (λ x. is_after c x ≡ true) rows
    → keep (is_after c) rows ≡ rows
keep_each c [] a = refl
keep_each c (r ∷ rows) (p, a) = keep-yes c r rows p ∙ ap (λ l. r ∷ l) (keep_each c rows a)

-- The rows past the last one of a page are those that the page leaves.
pub keep-drop :
    (n : ℕ) (rows : List MemoryRow) (l : MemoryRow)
    → Falling rows
    → last_row (take n rows) ≡ some l
    → keep (is_after (place l)) rows ≡ drop n rows
keep-drop zero rows l f h = absurd (unfold last_row in ground arith)
keep-drop (suc n) [] l f h = refl
keep-drop (suc n) (r ∷ rows) l (a, f) h = elim (last_row-cases r (take n rows) l h) [
  | inl (none_left, same) ↦
      ap (λ (x : MemoryRow). keep (is_after (place x)) (r ∷ rows)) (sym same)
      ∙ keep-no (place r) r rows (is_after_irrefl r)
      ∙ keep_each (place r) rows a
      ∙ sym (drop-of_take n rows none_left)
  | inr later ↦
      let before = last_row-All (λ x. is_after (place r) x ≡ true) n rows l a later in
      keep-no (place l) r rows (is_after_asymm r l before) ∙ keep-drop n rows l f later
]
