-- ===== src/Memory/Listing.antt =====
-- `list`, `count`, `_filter_sql`, the cursors and `versions` of memory_store.py. The columns of `extra`
-- that PostgreSQL reads by `->>` are the parameter `field`, and the instant at which a day starts in
-- America/Chicago is `day_start`. The filter on an issue is the id that `strip` and `upper` leave.
-- A cursor is bound to the filters' hash (`fingerprint`), a parameter.
pub mod Pages
pub mod Next
use session_flow.Base.{
  ℕ, ◌+◌, max, String, Bool, true, false, not, ◌&&◌, ◌||◌, Option, none, some, List, [], ◌∷◌, ltb,
  leb, contains, keep, length, take, ◌==◌, string_eq, nat_eq, option_eq, if◌then◌else◌, ◌⊎◌, inl,
  inr,
}
use session_flow.Base.Dict
use session_flow.Base.Dict.{Dict}
use session_flow.Memory.Record.{MemoryRow, MemoryTables}
use session_flow.Memory.Select.{is_live}

-- `issue_id` is stripped and in capitals, and `none` where the given one is empty.
pub record MemoryFilters : Type 0 where
  pub project : String
  pub user_id : String
  pub agent_id : Option String
  pub type : Option String
  pub status : Option String
  pub issue_id : Option String
  pub source : Option String
  pub category : Option String
  pub created_from : Option ℕ
  pub created_to : Option ℕ
  pub source_session_id : Option String

-- A clause that is there only for a value that is not empty.
abbrev pub if_given : Option String → (String → Bool) → Bool
if_given none test = true
if_given (some v) test = v == "" || test v

pub record Cursor : Type 0 where
  pub created_at : ℕ
  pub memory_id : ℕ
  pub fingerprint : String

-- `(created_at, memory_id) < (%s, %s)`
unfoldable pub is_after : ℕ × ℕ → MemoryRow → Bool
is_after (created_at, memory_id) r =
    ltb r.created_at created_at || (r.created_at == created_at && ltb r.memory_id memory_id)

abbrev pub place : MemoryRow → ℕ × ℕ
place r = (r.created_at, r.memory_id)

-- `ORDER BY created_at DESC, memory_id DESC`
unfoldable pub insert_newest : MemoryRow → List MemoryRow → List MemoryRow
unfolding is_after
insert_newest r [] = r ∷ []
insert_newest r (x ∷ rows) = if is_after (place x) r then x ∷ insert_newest r rows else r ∷ x ∷ rows

unfoldable pub newest_first : List MemoryRow → List MemoryRow
unfolding insert_newest
newest_first [] = []
newest_first (r ∷ rows) = insert_newest r (newest_first rows)

unfoldable pub last_row : List MemoryRow → Option MemoryRow
last_row [] = none
last_row (r ∷ rows) = elim (last_row rows) [ none ↦ some r | some l ↦ some l ]

pub data CursorError : Type 0 where
  invalid_cursor : CursorError

-- `_decode_cursor` of a text that decodes to a cursor, and an absent cursor.
unfoldable pub cursor_place : String → Option Cursor → CursorError ⊎ Option (ℕ × ℕ)
cursor_place fingerprint none = inr none
cursor_place fingerprint (some c) =
    if c.fingerprint == fingerprint
    then inr (some (c.created_at, c.memory_id))
    else inl invalid_cursor

unfoldable pub next_cursor : String → Option MemoryRow → Option Cursor
next_cursor fingerprint none = none
next_cursor fingerprint (some r) =
    some (record { created_at = r.created_at; memory_id = r.memory_id; fingerprint = fingerprint })

unfoldable pub page : String → ℕ → List MemoryRow → List MemoryRow × Option Cursor
page fingerprint limit rows =
    let fetched = take (limit + 1) rows in
    let kept = take limit fetched in
    if ltb limit (length fetched)
    then (kept, next_cursor fingerprint (last_row kept))
    else (fetched, none)

module _ (field : String → String → Option String) (day_start : ℕ → ℕ) where
  -- `_filter_sql`
  unfoldable pub matches : MemoryFilters → MemoryRow → Bool
  matches f r =
      is_live r
      && (r.user_id == f.user_id
          && ((f.project == "*" || r.project == f.project)
              && (elim f.status [ none ↦ true | some s ↦ r.status == s ]
                  && (if_given f.type (λ v. r.type == v)
                      && (if_given f.agent_id (λ v. r.agent_id == v)
                          && (elim f.issue_id [ none ↦ true | some v ↦ contains r.issue_ids v ]
                              && (if_given f.source (λ v. field r.extra "source" == some v)
                                  && (if_given f.category (λ v. field r.extra "category" == some v)
                                      && (if_given f.source_session_id
                                            (λ v. r.source_session_id == some v)
                                          && (elim f.created_from [
                                            | none ↦ true
                                            | some d ↦ leb (day_start d) r.created_at
                                          ]
                                              && elim f.created_to [
                                                | none ↦ true
                                                | some d ↦ ltb r.created_at (day_start (d + 1))
                                              ]))))))))))

  unfoldable pub count : MemoryFilters → MemoryTables → ℕ
  count f s = length (keep (matches f) (Dict.values s.memories))

  -- The rows past a place, newest first.
  unfoldable pub rows_past : MemoryFilters → Option (ℕ × ℕ) → MemoryTables → List MemoryRow
  rows_past f from s =
      let rows = keep (matches f) (Dict.values s.memories) in
      newest_first (elim from [ none ↦ rows | some c ↦ keep (is_after c) rows ])

  unfoldable pub list :
      (MemoryFilters → String)
      → MemoryFilters
      → ℕ
      → Option Cursor
      → MemoryTables
      → CursorError ⊎ (List MemoryRow × Option Cursor)
  unfolding page rows_past
  list fingerprint f limit cursor s = elim (cursor_place (fingerprint f) cursor) [
    | inl error ↦ inl error
    | inr from ↦ inr (page (fingerprint f) (max 1 limit) (rows_past f from s))
  ]
