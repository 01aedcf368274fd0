-- ===== src/Tests/Sessions.antt =====
-- A listing of three sessions over a store with one summary.
use session_flow.Base.{
  ℕ, ◌*◌, ◌≡◌, refl, String, true, false, none, some, List, [], ◌∷◌, inl, inr, map, take, keep,
  pair_eq, nat_eq, string_eq,
}
use session_flow.Base.Dict
use session_flow.Base.Dict.{Dict}
use session_flow.Base.Order.{nat_order}
use session_flow.Memory.Record.{MemoryTables}
use session_flow.Memory.Wrapped.{wrapped_sessions, is_wrapped, contains-wrapped_sessions}
use session_flow.Base.Texts.{codes}
use session_flow.Sessions.{
  Session, MemoryAnswers, wrapped_unavailable, shown_rows, flagged, finished, list_sessions,
}
use session_flow.Sessions.Filling.{AnswersBy}
use session_flow.Sessions.Laws.{page_by, list_sessions-page, list_sessions-IsSilent}
use session_flow.Sessions.Scan.{TurnRow, scan}
use session_flow.Sessions.Scan.Laws.{is_of_session, Described, scan-Described}
use session_flow.Tests.Listing.{memory}

abbrev session : String → Session
session id = record {
  session_id = id;
  provider = some "codex";
  first_doc_ids = some ("d" ∷ []);
  wrapped = none;
  title = none;
}

abbrev sessions : List Session
sessions = session "a" ∷ session "agent-b" ∷ session "c" ∷ []

abbrev store : MemoryTables
store = record {
  memories = (1, record (memory 1) { type = "session-summary"; source_session_id = some "c" }) ∷ [];
  memory_versions = [];
  memory_index_acks = [];
  generation = 1;
  next_change_seq = 2;
}

abbrev answers : MemoryAnswers
answers ids = some (wrapped_sessions "me" ids store)

answers-AnswersBy : AnswersBy (is_wrapped "me" store) answers
answers-AnswersBy ids = (
  wrapped_sessions "me" ids store,
  (refl, λ i among. contains-wrapped_sessions "me" i ids store among),
)

abbrev titles : List Session → Dict (String × String) String
titles page = (("c", "codex"), "A question") ∷ []

list_sessions-page_example :
    list_sessions titles (some answers) 20 (some true) false sessions
    ≡ inr (
      map
          (finished
            (titles (page_by (is_wrapped "me" store) 20 (some true) (shown_rows false sessions)))
            true)
          (page_by (is_wrapped "me" store) 20 (some true) (shown_rows false sessions)),
      true,
    )
list_sessions-page_example =
    list_sessions-page (is_wrapped "me" store) answers titles 20 (some true) false sessions
      answers-AnswersBy

list_sessions-IsSilent_example :
    (list_sessions titles none 2 (some true) true sessions ≡ inl wrapped_unavailable)
    × (list_sessions titles none 2 none true sessions
        ≡ inr (
          map
              (finished (titles (map (flagged none) (take 2 sessions))) false)
              (map (flagged none) (take 2 sessions)),
          false,
        ))
list_sessions-IsSilent_example =
    list_sessions-IsSilent none titles 1 true true sessions (session "agent-b" ∷ session "c" ∷ [])
      (session "a") tt refl

abbrev turn : String → ℕ → String → TurnRow ℕ
turn id index time = record {
  session_id = id;
  provider = "codex";
  project_root = "/work";
  git_branch = "main";
  timestamp = some (codes time);
  turn_index = index;
  doc_id = index * 10;
}

abbrev mixed_turns : List (TurnRow ℕ)
mixed_turns =
    turn "a" 2 "2026-02-01T00:00:00Z"
    ∷ turn "c" 1 "2026-01-15T00:00:00Z"
    ∷ turn "" 5 "2026"
    ∷ turn "a" 1 "2026-01-01T10:00:00+02:00"
    ∷ []

scan-Described_example :
    Described nat_order
      (keep (is_of_session ("a", "codex")) mixed_turns)
      (Dict.lookup ("a", "codex") (scan nat_order mixed_turns []))
scan-Described_example = scan-Described nat_order ("a", "codex") mixed_turns
