-- ===== src/Memory/Select.antt =====
-- The rows that a transaction of memory_store.py picks: `_lock`, the scope of a record, the targets of
-- a supersede, and `_check_project`.
use session_flow.Base.{
  ℕ, String, Bool, true, false, not, ◌&&◌, Option, none, some, List, [], ◌∷◌, ltb, ◌==◌, string_eq,
  nat_eq, option_eq, if◌then◌else◌,
}
use mathlib.Core.Option
use session_flow.Base.Dict
use session_flow.Base.Dict.{Dict}
use session_flow.Memory.Record.{MemoryRow}

abbrev pub is_live : MemoryRow → Bool
is_live r = elim r.deleted_at [ none ↦ true | some _ ↦ false ]

abbrev pub live_in : String → String → MemoryRow → Bool
live_in user project r = is_live r && (r.user_id == user && r.project == project)

abbrev pub has_topic : Option String → MemoryRow → Bool
has_topic topic r = elim topic [ none ↦ false | some k ↦ r.topic_key == some k ]

-- The matching row of the least id, which `_lock` puts first.
unfoldable pub first_row : (MemoryRow → Bool) → Dict ℕ MemoryRow → Option MemoryRow
first_row p [] = none
first_row p ((_, r) ∷ rows) =
    let rest = first_row p rows in
    if p r
    then elim rest [
      | none ↦ some r
      | some other ↦ if ltb other.memory_id r.memory_id then some other else some r
    ]
    else rest

-- `_check_project`
unfoldable pub wrong_project : Option String → MemoryRow → Bool
wrong_project none r = false
wrong_project (some expected) r =
    not (expected == "") && (not (expected == "*") && not (r.project == expected))

abbrev pub has_hash : Option String → MemoryRow → Bool
has_hash none r = false
has_hash (some h) r = r.content_hash == h

-- The rows that `_lock` finds by a condition.
unfoldable pub rows_where : (MemoryRow → Bool) → Dict ℕ MemoryRow → List MemoryRow
rows_where p [] = []
rows_where p ((_, r) ∷ rows) = let rest = rows_where p rows in if p r then r ∷ rest else rest

-- `none` if a target is no UUID. A UUID is its number here, so in its canonical spelling: another one, which the
-- code looks up in vain and refuses, is outside the model.
unfoldable pub target_ids : List (Option ℕ) → Option (List ℕ)
target_ids [] = some []
target_ids (none ∷ targets) = none
target_ids (some t ∷ targets) = Option.map (λ ts. t ∷ ts) (target_ids targets)

-- The rows of the targets, and the targets that have no live row in the scope.
unfoldable pub target_rows : String → String → List ℕ → Dict ℕ MemoryRow → List MemoryRow × List ℕ
target_rows user project [] rows = ([], [])
target_rows user project (t ∷ targets) rows =
    let (good, bad) = target_rows user project targets rows in
    elim (Dict.lookup t rows) [
      | none ↦ (good, t ∷ bad)
      | some r ↦ if live_in user project r then (r ∷ good, bad) else (good, t ∷ bad)
    ]
