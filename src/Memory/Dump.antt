-- ===== src/Memory/Dump.antt =====
-- `latest_due_dump_slot` and `evaluate_dump_status` of memory_store.py. Days are numbered, times are
-- microseconds. The zone America/Chicago is a parameter: the instant at which a day starts, and that
-- at which the clock of a day shows 02:30.
pub mod Laws
use session_flow.Base.{
  ℕ, zero, suc, ◌+◌, ◌-◌, ◌*◌, max, String, Bool, true, false, ◌&&◌, Option, none, some, List, [],
  ◌∷◌, map, leb, keep, any, ◌==◌, string_eq, if◌then◌else◌,
}

abbrev pub dump_job : String
dump_job = "pg-dump"

-- 45 minutes
abbrev pub dump_grace : ℕ
dump_grace = 2700000000

-- The slots of so many days back from a day; `none` is the assertion at the end.
unfoldable pub latest_due : (ℕ → ℕ) → ℕ → ℕ → ℕ → Option ℕ
latest_due slot now zero day = none
latest_due slot now (suc back) day =
    let rest = latest_due slot now back (day - 1) in
    if leb (slot day + dump_grace) now then some (slot day) else rest

unfoldable pub latest_due_dump_slot : (ℕ → ℕ) → ℕ → ℕ → Option ℕ
unfolding latest_due
latest_due_dump_slot slot now local_day = latest_due slot now 3 local_day

-- A row of `maintenance_runs`; a missing job is the dump.
pub record MaintenanceRun : Type 0 where
  pub job : Option String
  pub phase : String
  pub started_at : ℕ
  pub ok : Bool

pub data DumpState : Type 0 where
  dump_ok dump_failed dump_missing : DumpState

pub record DumpStatus : Type 0 where
  pub state : DumpState
  pub scheduled_for : ℕ
  pub last_ok : Option ℕ
  pub last_run : Option ℕ

unfoldable pub latest : List ℕ → Option ℕ
latest [] = none
latest (t ∷ ts) = elim (latest ts) [ none ↦ some t | some u ↦ some (max t u) ]

abbrev pub is_dump : MaintenanceRun → Bool
is_dump r = elim r.job [ none ↦ true | some j ↦ j == dump_job ]

abbrev pub is_success : MaintenanceRun → Bool
is_success r = r.phase == "result" && r.ok

unfoldable pub state_of : List MaintenanceRun → DumpState
state_of since =
    if any is_success since
    then dump_ok
    else elim since [ [] ↦ dump_missing | r ∷ rs ↦ dump_failed ]

unfoldable pub evaluate_dump_status : ℕ → List MaintenanceRun → DumpStatus
unfolding latest state_of
evaluate_dump_status slot rows =
    let runs = keep is_dump rows in
    record {
      state = state_of (keep (λ (r : MaintenanceRun). leb slot r.started_at) runs);
      scheduled_for = slot;
      last_ok = latest (map (λ (r : MaintenanceRun). r.started_at) (keep is_success runs));
      last_run = latest (map (λ (r : MaintenanceRun). r.started_at) runs);
    }
