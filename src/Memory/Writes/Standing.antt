-- ===== src/Memory/Writes/Standing.antt =====
-- The rows that `add` supersedes, by rising id.
use session_flow.Base.{
  ℕ, ◌+◌, ◌≡◌, ◌≤◌, ◌<◌, ◌∙◌, ap, inl, inr, String, true, false, not, none, some, List, [], ◌∷◌,
  ◌==◌, string_eq, nat_eq, option_eq, arith, Bool-cases, Option-cases, keep,
}
use session_flow.Base.Dict
use session_flow.Base.Dict.{Dict, NodupKeys, lookup-insert}
use session_flow.Memory.Record.{MemoryRow, Changes, MemoryTables, Outcome}
use session_flow.Memory.Sorted.{insert_id, sorted_ids}
use session_flow.Memory.Select.{live_in, target_rows}
use session_flow.Memory.Change.{no_effect, apply_change, changed_row, put_row, reset_row_acks}
use session_flow.Memory.Writes.Unique.{Rows, IsSound}

abbrev pub Increasing : ℕ → List ℕ → Type 0
Increasing low [] = Unit
Increasing low (x ∷ l) = (low ≤ x) × Increasing (x + 1) l

pub Increasing-weaken :
    (low low' : ℕ) (l : List ℕ) → low' ≤ low → Increasing low l → Increasing low' l
Increasing-weaken low low' [] h i = tt
Increasing-weaken low low' (x ∷ l) h (b, i) = (omega arith, i)

pub insert_id-Increasing :
    (low x : ℕ) (l : List ℕ) → low ≤ x → Increasing low l → Increasing low (insert_id x l)
unfolding insert_id
insert_id-Increasing low x [] h i = (h, tt)
insert_id-Increasing low x (y ∷ l) h (b, i) =
    ground (arith, insert_id-Increasing (y + 1) x l, Increasing-weaken (y + 1) (x + 1) l)

pub sorted_ids-Increasing : (l : List ℕ) → Increasing 0 (sorted_ids l)
unfolding sorted_ids
sorted_ids-Increasing [] = tt
sorted_ids-Increasing (x ∷ l) =
    insert_id-Increasing 0 x (sorted_ids l) (omega arith) (sorted_ids-Increasing l)

-- Rows of the table, by rising id.
abbrev pub Standing : ℕ → List MemoryRow → Rows → Type 0
Standing low [] rows = Unit
Standing low (r ∷ l) rows =
    (low ≤ r.memory_id)
    × (Dict.lookup r.memory_id rows ≡ some r)
    × Standing (r.memory_id + 1) l rows

pub Standing-weaken :
    (low low' : ℕ) (l : List MemoryRow) (rows : Rows)
    → low' ≤ low
    → Standing low l rows
    → Standing low' l rows
Standing-weaken low low' [] rows h i = tt
Standing-weaken low low' (x ∷ l) rows h (b, there, i) = (omega arith, there, i)

pub Standing-insert :
    (low k : ℕ) (new : MemoryRow) (l : List MemoryRow) (rows : Rows)
    → k < low
    → Standing low l rows
    → Standing low l (Dict.insert k new rows)
Standing-insert low k new [] rows h i = tt
Standing-insert low k new (r ∷ l) rows h (b, there, i) = (
  b,
  ground (arith, lookup-insert r.memory_id k new rows),
  Standing-insert (r.memory_id + 1) k new l rows (omega arith) i,
)

pub Standing-insert_fresh :
    (low k : ℕ) (new : MemoryRow) (l : List MemoryRow) (rows : Rows)
    → Dict.lookup k rows ≡ none
    → Standing low l rows
    → Standing low l (Dict.insert k new rows)
Standing-insert_fresh low k new [] rows h i = tt
Standing-insert_fresh low k new (r ∷ l) rows h (b, there, i) = (
  b,
  ground (arith, lookup-insert r.memory_id k new rows),
  Standing-insert_fresh (r.memory_id + 1) k new l rows h i,
)

abbrev pub without : ℕ → List MemoryRow → List MemoryRow
without k = keep (λ (r : MemoryRow). not (r.memory_id == k))

pub without-same :
    (k : ℕ) (r : MemoryRow) (l : List MemoryRow)
    → (r.memory_id == k) ≡ true
    → without k (r ∷ l) ≡ without k l
without-same k r l h = ground arith

pub without-other :
    (k : ℕ) (r : MemoryRow) (l : List MemoryRow)
    → (r.memory_id == k) ≡ false
    → without k (r ∷ l) ≡ r ∷ without k l
without-other k r l h = ground arith

pub Standing-without :
    (low k : ℕ) (l : List MemoryRow) (rows : Rows)
    → Standing low l rows
    → Standing low (without k l) rows
Standing-without low k [] rows i = tt
Standing-without low k (r ∷ l) rows (b, there, i) =
    let rest = Standing-without (r.memory_id + 1) k l rows i in
    elim (Bool-cases (r.memory_id == k)) [
      | inl same ↦
          rw (without-same k r l same)
            (Standing-weaken (r.memory_id + 1) low (without k l) rows (omega arith) rest)
      | inr other ↦ rw (without-other k r l other) (b, there, rest)
    ]

pub Standing-without-insert :
    (low k : ℕ) (new : MemoryRow) (l : List MemoryRow) (rows : Rows)
    → Standing low l rows
    → Standing low (without k l) (Dict.insert k new rows)
Standing-without-insert low k new [] rows i = tt
Standing-without-insert low k new (r ∷ l) rows (b, there, i) =
    let rest = Standing-without-insert (r.memory_id + 1) k new l rows i in
    elim (Bool-cases (r.memory_id == k)) [
      | inl same ↦ rw (without-same k r l same) (
          Standing-weaken (r.memory_id + 1) low (without k l) (Dict.insert k new rows) (omega arith)
            rest)
      | inr other ↦
          rw (without-other k r l other)
            (b, rw (lookup-insert r.memory_id k new rows, other) there, rest)
    ]

pub target_rows-Standing :
    (user project : String) (low : ℕ) (targets : List ℕ) (rows : Rows)
    → IsSound rows
    → Increasing low targets
    → Standing low (target_rows user project targets rows).0 rows
unfolding target_rows
target_rows-Standing user project low [] rows sound i = tt
target_rows-Standing user project low (t ∷ targets) rows sound (b, i) =
    let rest = target_rows-Standing user project (t + 1) targets rows sound i in
    let skipped =
      Standing-weaken (t + 1) low (target_rows user project targets rows).0 rows (omega arith)
        rest in
    elim (Option-cases (Dict.lookup t rows)) [
      | inl gone ↦ rw (gone, target_rows) skipped
      | inr (r, there) ↦ elim (Bool-cases (live_in user project r)) [
        | inr out ↦ rw (there, out, target_rows) skipped
        | inl inside ↦
            let e = sound.keyed t r there in
            rw (there, inside, target_rows)
              (
                omega arith,
                ap (λ i. Dict.lookup i rows) e ∙ there,
                Standing-weaken (t + 1) (r.memory_id + 1) (target_rows user project targets rows).0
                    rows (omega arith) rest,
              )
      ]
    ]

pub apply_change-Standing :
    (clock : ℕ → ℕ) (outcome : Outcome) (c : Changes) (r : MemoryRow) (l : List MemoryRow)
    (s : MemoryTables)
    → Standing (r.memory_id + 1) l s.memories
    → Standing (r.memory_id + 1) l (apply_change clock outcome c r s).1.memories
unfolding apply_change put_row reset_row_acks changed_row
apply_change-Standing clock outcome c r l s i = elim (Bool-cases (no_effect c r)) [
  | inl none_at_all ↦ rw (none_at_all, apply_change) i
  | inr some_effect ↦
      rw (some_effect, apply_change)
        (Standing-insert (r.memory_id + 1) r.memory_id (changed_row clock c r s) l s.memories
          (omega arith) i)
]

pub apply_change-without :
    (clock : ℕ → ℕ) (outcome : Outcome) (c : Changes) (r : MemoryRow) (l : List MemoryRow)
    (s : MemoryTables)
    → Standing 0 l s.memories
    → Standing 0 (without r.memory_id l) (apply_change clock outcome c r s).1.memories
unfolding apply_change put_row reset_row_acks changed_row
apply_change-without clock outcome c r l s i = elim (Bool-cases (no_effect c r)) [
  | inl none_at_all ↦ rw (none_at_all, apply_change) (Standing-without 0 r.memory_id l s.memories i)
  | inr some_effect ↦
      rw (some_effect, apply_change)
        (Standing-without-insert 0 r.memory_id (changed_row clock c r s) l s.memories i)
]
