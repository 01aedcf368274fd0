-- ===== src/Memory/Wrapped.antt =====
-- `wrapped_sessions` of memory_store.py: which sessions a live summary names as its source.
use session_flow.Base.{
  ◌≡◌, ◌∙◌, String, Bool, true, not, ◌&&◌, none, some, List, [], ◌∷◌, contains, keep, any, ◌==◌,
  string_eq, nat_eq, option_eq, if◌then◌else◌, arith, contains-keep_at, Option-cases, inl, inr,
}
use session_flow.Base.Dict
use session_flow.Memory.Record.{MemoryRow, MemoryTables}
use session_flow.Memory.Select.{is_live}

abbrev pub is_summary : String → MemoryRow → Bool
is_summary user r = is_live r && (r.user_id == user && r.type == "session-summary")

-- The sources, among some ids, of the summaries of a user.
unfoldable pub sources_among : String → List String → List MemoryRow → List String
sources_among user ids [] = []
sources_among user ids (r ∷ rows) =
    let rest = sources_among user ids rows in
    elim r.source_session_id [
      | none ↦ rest
      | some s ↦ if is_summary user r && contains ids s then s ∷ rest else rest
    ]

unfoldable pub wrapped_sessions : String → List String → MemoryTables → List String
unfolding sources_among
wrapped_sessions user session_ids s =
    sources_among user (keep (λ i. not (i == "")) session_ids) (Dict.values s.memories)

-- Whether a live summary of the user names a session.
abbrev pub is_wrapped : String → MemoryTables → String → Bool
is_wrapped user s session_id =
    not (session_id == "")
    && any (λ (r : MemoryRow). is_summary user r && r.source_session_id == some session_id)
        (Dict.values s.memories)

contains-sources_among :
    (user i : String) (ids : List String) (rows : List MemoryRow)
    → contains (sources_among user ids rows) i ≡ (
        contains ids i
        && any (λ (r : MemoryRow). is_summary user r && r.source_session_id == some i) rows)
unfolding sources_among option_eq
contains-sources_among user i ids [] = ground arith
contains-sources_among user i ids (r ∷ rows) = elim (Option-cases r.source_session_id) [
  | inl none_named ↦ ground (arith, contains-sources_among user i ids rows, none_named)
  | inr (x, named) ↦ elim (string_eq.dec x i) [
    | yes same ↦ ground (arith, contains-sources_among user i ids rows, named, same)
    | no n ↦ ground (arith, contains-sources_among user i ids rows, named, n)
  ]
]

-- Of the ids that are asked for, the answer has exactly those that a live summary of the user names.
pub contains-wrapped_sessions :
    (user i : String) (ids : List String) (s : MemoryTables)
    → contains ids i ≡ true
    → contains (wrapped_sessions user ids s) i ≡ is_wrapped user s i
unfolding wrapped_sessions
contains-wrapped_sessions user i ids s h =
    contains-sources_among user i (keep (λ j. not (j == "")) ids) (Dict.values s.memories)
    ∙ ground (arith, contains-keep_at (λ j. not (j == "")) i ids, h)
