-- ===== src/Tests/Dump.antt =====
-- The nightly dump in a zone without a change of the clock.
use session_flow.Base.{
  ℕ, ◌+◌, ◌*◌, ◌≡◌, ◌≤◌, ◌<◌, refl, true, false, none, some, List, [], ◌∷◌, arith, string_eq,
}
use session_flow.Memory.Dump.{
  MaintenanceRun, evaluate_dump_status, latest_due_dump_slot, dump_grace, dump_ok, state_of,
}
use session_flow.Memory.Dump.Laws.{IsZone, latest_due_dump_slot_lem}

abbrev day_start : ℕ → ℕ
day_start d = d * 86400000000

abbrev slot : ℕ → ℕ
slot d = d * 86400000000 + 9000000000

plain-IsZone : IsZone day_start slot
plain-IsZone = record { long = λ d. omega arith; inside = λ d. omega arith }

latest_due_dump_slot_lem_example :
    (k : ℕ) × (latest_due_dump_slot slot 864005000000 10 ≡ some (slot k))
    × (slot k + dump_grace ≤ 864005000000)
    × ((j : ℕ) → k < j → j ≤ 10 → 864005000000 < slot j + dump_grace)
latest_due_dump_slot_lem_example =
    latest_due_dump_slot_lem day_start slot 864005000000 10 plain-IsZone (omega arith) (omega arith)

abbrev runs : List MaintenanceRun
runs =
    record { job = some "pg-dump"; phase = "result"; started_at = 40; ok = false }
    ∷ record { job = none; phase = "result"; started_at = 70; ok = true }
    ∷ record { job = some "vacuum"; phase = "attempt"; started_at = 80; ok = true }
    ∷ []

runs_ok : (evaluate_dump_status 60 runs).state ≡ dump_ok
unfolding evaluate_dump_status state_of string_eq
runs_ok = refl
