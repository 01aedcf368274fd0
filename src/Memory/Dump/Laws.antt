-- ===== src/Memory/Dump/Laws.antt =====
-- The slot of the nightly dump, and the rows that are read for its state.
use session_flow.Base.{
  ℕ, zero, suc, ◌+◌, ◌-◌, ◌≡◌, ◌≤◌, ◌<◌, refl, ap, inl, inr, some, List, [], ◌∷◌, leb, ltb, keep,
  arith, Bool-cases,
}
use session_flow.Memory.Dump.{
  dump_grace, latest_due, latest_due_dump_slot, MaintenanceRun, evaluate_dump_status, state_of,
  is_dump,
}

-- A zone whose days have at least 23 hours, with the slot of a day before the next one starts.
pub record IsZone (day_start slot : ℕ → ℕ) : Type 0 where
  pub long : (d : ℕ) → day_start d + 82800000000 ≤ day_start (d + 1)
  pub inside : (d : ℕ) → slot d < day_start (d + 1)

two_more : (d : ℕ) → d + 1 + 1 ≡ suc (suc d)
two_more d = omega arith

keep_recent :
    (slot since : ℕ) (rows : List MaintenanceRun)
    → since ≤ slot
    → keep
        (λ (r : MaintenanceRun). leb slot r.started_at)
        (keep is_dump (keep (λ (r : MaintenanceRun). leb since r.started_at) rows))
      ≡ keep (λ (r : MaintenanceRun). leb slot r.started_at) (keep is_dump rows)
keep_recent slot since [] h = refl
keep_recent slot since (r ∷ rows) h = ground (arith, keep_recent slot since rows h)

abbrev Later : (ℕ → ℕ) → ℕ → ℕ → ℕ → Type 0
Later slot now k day = (j : ℕ) → k < j → j ≤ day → now < slot j + dump_grace

-- One day more, whose slot is not due.
Later-day :
    (slot : ℕ → ℕ) (now k day : ℕ)
    → Later slot now k (day - 1)
    → now < slot day + dump_grace
    → Later slot now k day
Later-day slot now k day later early j above below = elim (Bool-cases (ltb j day)) [
  | inl before ↦ later j above (ground arith)
  | inr at ↦ let same : day ≡ j = ground arith in omega (arith, early, ap slot same)
]

latest_due-some :
    (slot : ℕ → ℕ) (now back day due : ℕ)
    → due ≤ day
    → day < due + back
    → slot due + dump_grace ≤ now
    → (k : ℕ) × (latest_due slot now back day ≡ some (slot k))
      × (slot k + dump_grace ≤ now)
      × Later slot now k day
unfolding latest_due
latest_due-some slot now zero day due below near h = absurd (omega arith)
latest_due-some slot now (suc back) day due below near h =
    elim (Bool-cases (leb (slot day + dump_grace) now)) [
      | inl ready ↦ (day, rw ready refl, ground arith, λ j above under. absurd (omega arith))
      | inr early ↦
          let late : now < slot day + dump_grace = ground arith in
          let apart : day ≡ due → ⊥ = λ same. absurd (omega (arith, ap slot same)) in
          let (k, e, ready, later) =
            latest_due-some slot now back (day - 1) due (ground (arith, apart))
              (ground (arith, apart)) h in
          (k, rw early e, ready, Later-day slot now k day later late)
    ]

-- In a zone whose days have at least 23 hours and whose slots lie before the end of their day, at a
-- time on or after the start of its local day, a slot of the last three days is due; the one that is
-- found is due, and none of a later day up to the local one is.
pub latest_due_dump_slot_lem :
    (day_start slot : ℕ → ℕ) (now day : ℕ)
    → IsZone day_start slot
    → 2 ≤ day
    → day_start day ≤ now
    → (k : ℕ) × (latest_due_dump_slot slot now day ≡ some (slot k))
      × (slot k + dump_grace ≤ now)
      × ((j : ℕ) → k < j → j ≤ day → now < slot j + dump_grace)
unfolding latest_due_dump_slot
latest_due_dump_slot_lem day_start slot now zero z two started = absurd (omega arith)
latest_due_dump_slot_lem day_start slot now (suc zero) z two started = absurd (omega arith)
latest_due_dump_slot_lem day_start slot now (suc (suc d)) z two started =
    latest_due-some slot now 3 (suc (suc d)) d (omega arith) (omega arith)
      (omega (arith, z.inside d, z.long (d + 1), ap day_start (two_more d)))

-- Leaving out the rows before a time that is not after the slot does not change the state.
evaluate_dump_status_recent :
    (slot since : ℕ) (rows : List MaintenanceRun)
    → since ≤ slot
    → (evaluate_dump_status slot (keep (λ (r : MaintenanceRun). leb since r.started_at) rows)).state
      ≡ (evaluate_dump_status slot rows).state
unfolding evaluate_dump_status
evaluate_dump_status_recent slot since rows h = ap state_of (keep_recent slot since rows h)
