-- ===== src/Memory/Listing/Next.antt =====
-- A page of `list`, and the page that its cursor asks for.
use session_flow.Base.{
  ℕ, ◌+◌, ◌≡◌, ◌≢◌, refl, sym, ap, ◌∙◌, String, Bool, true, Option, none, some, List, [], ◌∷◌, keep,
  drop, take, take-take, length, ltb, All, max, arith, Bool-cases, Option-cases, inl, inr, ◌⊎◌,
  string_eq,
}
use session_flow.Base.Dict
use session_flow.Memory.Record.{MemoryRow, MemoryTables}
use session_flow.Memory.Listing.{
  MemoryFilters, Cursor, CursorError, is_after, place, newest_first, last_row, cursor_place,
  next_cursor, matches, rows_past, page, list,
}
use session_flow.Memory.Listing.Pages.{
  DistinctIds, is_after_trans, newest_first-Falling, keep-newest_first, keep-drop, last_row-All,
  All-newest_first,
}

module _ (p : MemoryRow → Bool) where
  All-keep : (P : MemoryRow → Type 0) (rows : List MemoryRow) → All P rows → All P (keep p rows)
  All-keep P [] a = tt
  All-keep P (r ∷ rows) (q, a) = ground (arith, All-keep P rows a)

  keep-DistinctIds : (rows : List MemoryRow) → DistinctIds rows → DistinctIds (keep p rows)
  keep-DistinctIds [] d = tt
  keep-DistinctIds (r ∷ rows) (n, d) =
      ground (arith, keep-DistinctIds rows d, All-keep (λ x. r.memory_id ≢ x.memory_id) rows n)

keep-All :
    (c : ℕ × ℕ) (rows : List MemoryRow) → All (λ x. is_after c x ≡ true) (keep (is_after c) rows)
keep-All c [] = tt
keep-All c (r ∷ rows) = ground (arith, keep-All c rows)

keep-keep :
    (c : ℕ × ℕ) (l : MemoryRow) (rows : List MemoryRow)
    → is_after c l ≡ true
    → keep (is_after (place l)) (keep (is_after c) rows) ≡ keep (is_after (place l)) rows
keep-keep c l [] h = refl
keep-keep c l (r ∷ rows) h = ground (arith, keep-keep c l rows h, is_after_trans c l r h)

module _ (field : String → String → Option String) (day_start : ℕ → ℕ) where
  rows_past-next :
      (f : MemoryFilters) (from : Option (ℕ × ℕ)) (n : ℕ) (l : MemoryRow) (s : MemoryTables)
      → DistinctIds (Dict.values s.memories)
      → last_row (take n (rows_past field day_start f from s)) ≡ some l
      → rows_past field day_start f (some (place l)) s ≡ drop n (rows_past field day_start f from s)
  unfolding rows_past
  rows_past-next f none n l s d h =
      let rows = keep (matches field day_start f) (Dict.values s.memories) in
      let own = keep-DistinctIds (matches field day_start f) (Dict.values s.memories) d in
      keep-newest_first (place l) rows
      ∙ keep-drop n (newest_first rows) l (newest_first-Falling rows own) h
  rows_past-next f (some c) n l s d h =
      let rows = keep (matches field day_start f) (Dict.values s.memories) in
      let own = keep-DistinctIds (matches field day_start f) (Dict.values s.memories) d in
      let past = keep (is_after c) rows in
      let inside =
        last_row-All (λ x. is_after c x ≡ true) n (newest_first past) l
          (All-newest_first (λ x. is_after c x ≡ true) past (keep-All c rows)) h in
      ap newest_first (sym (keep-keep c l rows inside))
      ∙ keep-newest_first (place l) past
      ∙ keep-drop n (newest_first past) l
          (newest_first-Falling past (keep-DistinctIds (is_after c) rows own)) h

place-cases :
    (x : CursorError ⊎ Option (ℕ × ℕ))
    → ((e : CursorError) × (x ≡ inl e)) ⊎ ((from : Option (ℕ × ℕ)) × (x ≡ inr from))
place-cases (inl e) = inl (e, refl)
place-cases (inr from) = inr (from, refl)

abbrev cursor_of : String → MemoryRow → Cursor
cursor_of fingerprint r = record {
  created_at = r.created_at;
  memory_id = r.memory_id;
  fingerprint = fingerprint;
}

cursor_place-own :
    (fingerprint : String) (l : MemoryRow)
    → cursor_place fingerprint (some (cursor_of fingerprint l)) ≡ inr (some (place l))
unfolding cursor_place
cursor_place-own fingerprint l = ground arith

abbrev answer : List MemoryRow × Option Cursor → CursorError ⊎ (List MemoryRow × Option Cursor)
answer x = inr x

inr_injective : (x y : List MemoryRow × Option Cursor) → answer x ≡ answer y → x ≡ y
inr_injective x y h = ground arith

page-cursor :
    (fingerprint : String) (n : ℕ) (rows kept : List MemoryRow) (c : Cursor)
    → page fingerprint n rows ≡ (kept, some c)
    → (kept ≡ take n rows)
      × (l : MemoryRow) × (last_row (take n rows) ≡ some l)
      × (c ≡ cursor_of fingerprint l)
unfolding page next_cursor
page-cursor fingerprint n rows kept c h = elim (Bool-cases (ltb n (length (take (n + 1) rows)))) [
  | inr short ↦ absurd (ground arith)
  | inl long ↦
      let same = take-take n (n + 1) rows (ground arith) in
      elim (Option-cases (last_row (take n (take (n + 1) rows)))) [
        | inl missing ↦ absurd (ground arith)
        | inr (l, e) ↦ (ground arith, l, ap last_row (sym same) ∙ e, ground arith)
      ]
]

module _ (field : String → String → Option String) (day_start : ℕ → ℕ) where
  list-page :
      (fingerprint : MemoryFilters → String) (f : MemoryFilters) (more : ℕ) (cursor : Option Cursor)
      (from : Option (ℕ × ℕ)) (s : MemoryTables)
      → cursor_place (fingerprint f) cursor ≡ inr from
      → list field day_start fingerprint f more cursor s
        ≡ inr (page (fingerprint f) (max 1 more) (rows_past field day_start f from s))
  unfolding list
  list-page fingerprint f more cursor from s good = rw (good, list) refl

  refused :
      (fingerprint : MemoryFilters → String) (f : MemoryFilters) (limit : ℕ)
      (cursor : Option Cursor) (s : MemoryTables) (rows : List MemoryRow) (c : Cursor)
      (e : CursorError)
      → cursor_place (fingerprint f) cursor ≡ inl e
      → list field day_start fingerprint f limit cursor s ≡ inr (rows, some c)
      → ⊥
  unfolding list
  refused fingerprint f limit cursor s rows c e bad h = ground arith

  -- Where no id comes twice, a page of a listing that has a next cursor has the first `limit` rows
  -- past a place, and the page that this cursor asks for, of any size, starts right after them.
  pub list-next :
      (fingerprint : MemoryFilters → String) (f : MemoryFilters) (limit more : ℕ)
      (cursor : Option Cursor) (s : MemoryTables) (rows : List MemoryRow) (c : Cursor)
      → DistinctIds (Dict.values s.memories)
      → list field day_start fingerprint f limit cursor s ≡ inr (rows, some c)
      → (from : Option (ℕ × ℕ)) × (rows ≡ take (max 1 limit) (rows_past field day_start f from s))
        × (list field day_start fingerprint f more (some c) s
            ≡ inr (
                page
                  (fingerprint f)
                  (max 1 more)
                  (drop (max 1 limit) (rows_past field day_start f from s))))
  list-next fingerprint f limit more cursor s rows c d h =
      elim (place-cases (cursor_place (fingerprint f) cursor)) [
        | inl (e, bad) ↦ absurd (refused fingerprint f limit cursor s rows c e bad h)
        | inr (from, good) ↦
            let past = rows_past field day_start f from s in
            let (kept, l, last, e) =
              page-cursor (fingerprint f) (max 1 limit) past rows c
                (inr_injective _ _ (sym (list-page fingerprint f limit cursor from s good) ∙ h)) in
            let next = rows_past-next field day_start f from (max 1 limit) l s d last in
            (
              from,
              kept,
              ap (λ c. list field day_start fingerprint f more (some c) s) e
                  ∙ list-page fingerprint f more (some (cursor_of (fingerprint f) l))
                      (some (place l)) s (cursor_place-own (fingerprint f) l)
                  ∙ ap (λ r. inr (page (fingerprint f) (max 1 more) r)) next,
            )
      ]
