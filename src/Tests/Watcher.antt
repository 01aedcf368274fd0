-- ===== src/Tests/Watcher.antt =====
-- A change during a batch, and a batch of two files of which one does not parse.
use session_flow.Base.{
  ℕ, ◌≡◌, ◌≢◌, refl, String, true, Option, none, some, List, [], ◌∷◌, ◌⊎◌, ◌==◌, string_eq, nat_eq,
  if◌then◌else◌, length,
}
use session_flow.Watcher.{Watcher, started, counted, failed, change, finish, here, next, end_batch}
use session_flow.Watcher.Laws.{in_flight, Ends, Step-in_flight}
use session_flow.Watcher.Attended.{Batched, in_flight-Batched}
use session_flow.Watcher.Batch.{ParseResult, Processed, process_files}
use session_flow.Watcher.Batch.Laws.{Outcome, Unrooted, process_files-Outcome}

abbrev noticed : Watcher
noticed = record (started 0) { change_queue = "a.jsonl" ∷ [] }

in_flight-Batched_example : Batched 2000 "a.jsonl" noticed
unfolding string_eq
in_flight-Batched_example =
    in_flight-Batched 2000 "a.jsonl" 0 noticed (next here (change "a.jsonl")) refl refl

abbrev processing : Watcher
processing = record (started 0) { batch = some ("a.jsonl" ∷ []); pending_files = "b.jsonl" ∷ [] }

Step-in_flight_example :
    (in_flight "b.jsonl" (end_batch 2000 (counted 3 0) ("a.jsonl" ∷ []) processing) ≡ true)
    ⊎ Ends "b.jsonl" processing (end_batch 2000 (counted 3 0) ("a.jsonl" ∷ []) processing)
unfolding string_eq
Step-in_flight_example =
    Step-in_flight 2000 "b.jsonl" processing
      (end_batch 2000 (counted 3 0) ("a.jsonl" ∷ []) processing)
      (finish (counted 3 0) ("a.jsonl" ∷ []) refl) refl

abbrev parse_b : String → ℕ → Option (ParseResult String)
parse_b path offset =
    if path == "a.jsonl"
    then none
    else some (record { turns = "t" ∷ []; resume_offset = 90; consumed_offset = 100 })

abbrev add_all_turns : List String → ℕ → Option ℕ × ℕ
add_all_turns turns stored = (some (length turns), stored)

abbrev run_two : Processed ℕ
run_two =
    process_files (λ p. true) (λ p. some "/work") parse_b (λ root t. t) add_all_turns
      ("a.jsonl" ∷ "b.jsonl" ∷ []) [] true true 0

process_files-Outcome_example :
    (Outcome
        (λ p. true)
        (λ p. some "/work")
        parse_b
        (λ root t. t)
        add_all_turns
        "b.jsonl"
        []
        run_two.saved
      × (run_two.counts ≢ failed))
    ⊎ (Unrooted
          (λ p. true)
          (λ p. some "/work")
          parse_b
          (λ root t. t)
          add_all_turns
          ("a.jsonl" ∷ "b.jsonl" ∷ [])
        × (run_two.saved ≡ [])
        × (run_two.counts ≡ failed))
unfolding string_eq
process_files-Outcome_example =
    process_files-Outcome (λ p. true) (λ p. some "/work") parse_b (λ root t. t) add_all_turns
      "b.jsonl" ("a.jsonl" ∷ "b.jsonl" ∷ []) [] 0 (refl, (refl, tt)) refl

-- A file whose root cannot be looked up fails the batch, and no offset is saved.
aborted :
    process_files
      (λ p. true)
      (λ p. if p == "a.jsonl" then some "/work" else none)
      (λ p o. none)
      (λ root t. t)
      add_all_turns
      ("b.jsonl" ∷ "a.jsonl" ∷ [])
      []
      true
      true
      0
    ≡ record { saved = []; index = 0; counts = failed }
unfolding process_files string_eq
aborted = refl
