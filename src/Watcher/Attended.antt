-- ===== src/Watcher/Attended.antt =====
-- Every changed file gets its batch.
use session_flow.Base.{
  ℕ, suc, ◌+◌, ◌-◌, ◌≡◌, refl, String, Bool, true, false, not, ◌||◌, Option, none, some, List, [],
  ◌∷◌, contains, ltb, string_eq, inl, inr, arith, Bool-cases, Option-cases,
}
use session_flow.Memory.Writes.Unique.{list_cases}
use session_flow.Watcher.{
  Watcher, started, BatchEnd, counted, stop, reset_debounce, drain, begin_batch, trigger_processing,
  end_batch, Step, tick, change, take_change, fire, trigger, finish, halt, Reach, here, next,
}
use session_flow.Watcher.Laws.{in_batch, in_flight, contains-add_path}

abbrev is_none {ℓ} : {A : Type ℓ} → Option A → Bool
is_none none = true
is_none (some a) = false

abbrev is_empty : List String → Bool
is_empty [] = true
is_empty (x ∷ l) = false

-- Somebody will look at the pending files: a timer, a task or the end of the running batch.
abbrev pub attended : Watcher → Bool
attended w =
    w.stopped
    || (is_empty w.pending_files
        || (ltb 0 w.triggered || (not (is_none w.timer) || not (is_none w.batch))))

record IsAttended (w : Watcher) : Type 0 where
  waited_for : attended w ≡ true
  drains : w.stopped ≡ false → w.draining ≡ true

module _ (debounce : ℕ) where
  trigger_processing-IsAttended :
      (w : Watcher)
      → (w.stopped ≡ false → w.draining ≡ true)
      → IsAttended (trigger_processing debounce w)
  unfolding trigger_processing begin_batch reset_debounce
  trigger_processing-IsAttended w drains = elim (Bool-cases w.stopped) [
    | inl halted ↦
        rw (halted, trigger_processing)
          (record { waited_for = ground arith; drains = λ p. absurd (ground (arith, p)) })
    | inr going ↦ elim (Option-cases w.batch) [
      | inr (files, e) ↦
          rw (going, e, trigger_processing)
            (record { waited_for = ground arith; drains = λ _. drains going })
      | inl idle ↦ elim (list_cases w.pending_files) [
        | inl p ↦
            rw (going, idle, p, trigger_processing, begin_batch)
              (record { waited_for = ground arith; drains = λ _. drains going })
        | inr (first, more, p) ↦
            rw (going, idle, p, trigger_processing, begin_batch)
              (record { waited_for = ground arith; drains = λ _. drains going })
      ]
    ]
  ]

  end_batch-IsAttended :
      (how : BatchEnd) (files : List String) (w : Watcher)
      → (w.stopped ≡ false → w.draining ≡ true)
      → IsAttended (end_batch debounce how files w)
  unfolding end_batch reset_debounce
  end_batch-IsAttended how files w drains = elim (list_cases w.pending_files) [
    | inl p ↦ rw (p, end_batch) (record { waited_for = ground arith; drains = drains })
    | inr (first, more, p) ↦
        rw (p, end_batch) (record { waited_for = ground arith; drains = drains })
  ]

  Step-IsAttended : (w v : Watcher) → Step debounce w v → IsAttended w → IsAttended v
  unfolding drain reset_debounce end_batch stop
  Step-IsAttended w _ (tick n) h = record { waited_for = h.waited_for; drains = h.drains }
  Step-IsAttended w _ (change other) h = record { waited_for = h.waited_for; drains = h.drains }
  Step-IsAttended w _ (take_change other rest d e) h = record {
    waited_for = ground arith;
    drains = h.drains;
  }
  Step-IsAttended w _ (fire due t le) h = record { waited_for = ground arith; drains = h.drains }
  Step-IsAttended w _ (trigger n e) h =
      trigger_processing-IsAttended (record w { triggered = n }) h.drains
  Step-IsAttended w _ (finish how files e) h = end_batch-IsAttended how files w h.drains
  Step-IsAttended w _ halt h = record {
    waited_for = refl;
    drains = λ going. absurd (ground (arith, going));
  }

  Reach-IsAttended : (w v : Watcher) → Reach debounce w v → IsAttended w → IsAttended v
  Reach-IsAttended w _ here h = h
  Reach-IsAttended w v (next {u} reach step) h =
      Step-IsAttended u v step (Reach-IsAttended w u reach h)

  started-IsAttended : (clock : ℕ) → IsAttended (started clock)
  started-IsAttended clock = record { waited_for = refl; drains = λ _. refl }

  -- The watcher's own steps, with the ends of its batches: no new change, and no stop.
  abbrev IsOwn : {w v : Watcher} → Step debounce w v → Type 0
  IsOwn (change path) = ⊥
  IsOwn halt = ⊥
  IsOwn _ = Unit

  pub data Follow : Watcher → Watcher → Type 0 where
    stay : {w : Watcher} → Follow w w
    move : {w u v : Watcher} (step : Step debounce w u) → IsOwn step → Follow u v → Follow w v

  -- The watcher's own steps lead to a batch with a file.
  abbrev pub Batched : String → Watcher → Type 0
  Batched path w = (v : Watcher) × (Follow w v × (in_batch v.batch path ≡ true))

  Batched-later :
      (path : String) (w v : Watcher) (step : Step debounce w v)
      → IsOwn step
      → Batched path v
      → Batched path w
  Batched-later path w v step own (u, (reach, among)) = (u, (move step own reach, among))

  triggered-Batched :
      (path : String) (n : ℕ) (w : Watcher)
      → w.stopped ≡ false
      → w.batch ≡ none
      → w.triggered ≡ suc n
      → contains w.pending_files path ≡ true
      → Batched path w
  unfolding trigger_processing begin_batch
  triggered-Batched path n w going idle e among = elim (list_cases w.pending_files) [
    | inl p ↦ absurd (ground (arith, rw p at among))
    | inr (first, more, p) ↦ (
      trigger_processing debounce (record w { triggered = n }),
      (
        move (trigger n e) tt stay,
        rw (going, idle, p, trigger_processing, begin_batch) (rw p at among),
      ),
    )
  ]

  timer-Batched :
      (path : String) (due : ℕ) (w : Watcher)
      → w.stopped ≡ false
      → w.batch ≡ none
      → w.timer ≡ some due
      → contains w.pending_files path ≡ true
      → Batched path w
  timer-Batched path due w going idle armed among =
      let u : Watcher = record w { clock = w.clock + due } in
      let v : Watcher = record u { timer = none; triggered = suc w.triggered } in
      Batched-later path w u (tick due) tt (
        Batched-later path u v (fire due armed (omega arith)) tt
          (triggered-Batched path w.triggered v going idle refl among))

  stopped-end_batch :
      (files : List String) (w : Watcher)
      → w.stopped ≡ false
      → (end_batch debounce (counted 0 0) files w).stopped ≡ false
  unfolding end_batch reset_debounce
  stopped-end_batch files w going = ground arith

  batch-end_batch :
      (files : List String) (w : Watcher) → (end_batch debounce (counted 0 0) files w).batch ≡ none
  unfolding end_batch reset_debounce
  batch-end_batch files w = ground arith

  timer-end_batch :
      (path : String) (files : List String) (w : Watcher)
      → contains w.pending_files path ≡ true
      → (end_batch debounce (counted 0 0) files w).timer ≡ some (w.clock + debounce)
  unfolding end_batch reset_debounce
  timer-end_batch path files w among = ground arith

  pending-end_batch :
      (path : String) (files : List String) (w : Watcher)
      → contains w.pending_files path ≡ true
      → contains (end_batch debounce (counted 0 0) files w).pending_files path ≡ true
  unfolding end_batch reset_debounce
  pending-end_batch path files w among = ground arith

  pending-Batched :
      (path : String) (w : Watcher)
      → w.stopped ≡ false
      → IsAttended w
      → contains w.pending_files path ≡ true
      → Batched path w
  unfolding end_batch reset_debounce
  pending-Batched path w going h among = elim (Option-cases w.batch) [
    | inr (files, e) ↦
        Batched-later path w (end_batch debounce (counted 0 0) files w)
          (finish (counted 0 0) files e) tt
          (timer-Batched path (w.clock + debounce) (end_batch debounce (counted 0 0) files w)
            (stopped-end_batch files w going) (batch-end_batch files w)
            (timer-end_batch path files w among) (pending-end_batch path files w among))
    | inl idle ↦ elim (Option-cases w.timer) [
      | inr (due, armed) ↦ timer-Batched path due w going idle armed among
      | inl unarmed ↦ elim (list_cases w.pending_files) [
        | inl p ↦ absurd (ground (arith, rw p at among))
        | inr (first, more, p) ↦
            triggered-Batched path (w.triggered - 1) w going idle
              (ground (arith, rw (going, p, idle, unarmed) at h.waited_for)) among
      ]
    ]
  ]

  queue-Batched :
      (path : String) (queue : List String) (w : Watcher)
      → w.change_queue ≡ queue
      → w.stopped ≡ false
      → IsAttended w
      → contains queue path ≡ true
      → Batched path w
  unfolding drain reset_debounce
  queue-Batched path [] w e going h among = absurd (ground (arith, among))
  queue-Batched path (x ∷ rest) w e going h among =
      let step = take_change x rest (h.drains going) e in
      let h' = Step-IsAttended w (drain debounce x rest w) step h in
      Batched-later path w (drain debounce x rest w) step tt (elim (string_eq.dec path x) [
        | yes same ↦
            pending-Batched path (drain debounce x rest w) going h'
              (ground (arith, contains-add_path path x w.pending_files, same))
        | no n ↦
            queue-Batched path rest (drain debounce x rest w) refl going h'
              (ground (arith, among, n))
      ])

  -- In any state of a watcher that was started and not stopped, a file whose change came in is in the running
  -- batch, or there are steps of the watcher's own, with no new change, after which it is in one.
  pub in_flight-Batched :
      (path : String) (clock : ℕ) (w : Watcher)
      → Reach debounce (started clock) w
      → w.stopped ≡ false
      → in_flight path w ≡ true
      → Batched path w
  in_flight-Batched path clock w reach going h =
      let attended_for = Reach-IsAttended (started clock) w reach (started-IsAttended clock) in
      elim (Bool-cases (contains w.change_queue path)) [
        | inl queued ↦ queue-Batched path w.change_queue w refl going attended_for queued
        | inr not_queued ↦ elim (Bool-cases (contains w.pending_files path)) [
          | inl among ↦ pending-Batched path w going attended_for among
          | inr not_pending ↦ (w, (stay, ground (arith, h)))
        ]
      ]
