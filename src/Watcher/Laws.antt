-- ===== src/Watcher/Laws.antt =====
-- No changed file is forgotten.
use session_flow.Base.{
  ℕ, ◌≡◌, String, Bool, true, false, ◌||◌, Option, none, some, List, [], ◌∷◌, contains,
  contains-append, ◌==◌, string_eq, ◌⊎◌, inl, inr, arith, Bool-cases, Option-cases,
}
use session_flow.Memory.Writes.Unique.{list_cases}
use session_flow.Watcher.{
  Watcher, add_path, BatchEnd, stop, reset_debounce, drain, begin_batch, trigger_processing,
  end_batch, Step, tick, change, take_change, fire, trigger, finish, halt,
}

abbrev pub in_batch : Option (List String) → String → Bool
in_batch none path = false
in_batch (some files) path = contains files path

-- A change of a file is on its way to a batch, or in one.
abbrev pub in_flight : String → Watcher → Bool
in_flight path w =
    contains w.change_queue path || (contains w.pending_files path || in_batch w.batch path)

-- The batch of a file ends.
abbrev pub Ends : String → Watcher → Watcher → Type 0
Ends path w v =
    (files : List String) × ((w.batch ≡ some files)
      × ((contains files path ≡ true) × (v.batch ≡ none)))

pub contains-add_path :
    (path other : String) (files : List String)
    → contains (add_path other files) path ≡ (contains files path || path == other)
contains-add_path path other files = elim (string_eq.dec path other) [
  | yes same ↦ rw same (ground (arith, contains-append files (other ∷ []) other))
  | no n ↦ ground (arith, contains-append files (other ∷ []) path)
]

module _ (debounce : ℕ) where
  begin_batch-in_flight :
      (path : String) (w : Watcher)
      → w.batch ≡ none
      → in_flight path w ≡ true
      → in_flight path (begin_batch debounce w) ≡ true
  unfolding begin_batch
  begin_batch-in_flight path w idle h = elim (list_cases w.pending_files) [
    | inl e ↦ rw (e, begin_batch) h
    | inr (first, more, e) ↦ rw (e, begin_batch) (ground (arith, rw (e, idle) at h))
  ]

  trigger_processing-in_flight :
      (path : String) (w : Watcher)
      → in_flight path w ≡ true
      → in_flight path (trigger_processing debounce w) ≡ true
  unfolding trigger_processing reset_debounce
  trigger_processing-in_flight path w h = elim (Bool-cases w.stopped) [
    | inl halted ↦ rw (halted, trigger_processing) h
    | inr going ↦ elim (Option-cases w.batch) [
      | inl idle ↦ rw (going, idle, trigger_processing) (begin_batch-in_flight path w idle h)
      | inr (files, e) ↦ rw (going, e, trigger_processing) h
    ]
  ]

  end_batch-in_flight :
      (path : String) (how : BatchEnd) (files : List String) (w : Watcher)
      → w.batch ≡ some files
      → in_flight path w ≡ true
      → (in_flight path (end_batch debounce how files w) ≡ true)
        ⊎ Ends path w (end_batch debounce how files w)
  unfolding end_batch reset_debounce
  end_batch-in_flight path how files w e h = elim (Bool-cases (contains files path)) [
    | inl among ↦ inr (files, (e, (among, ground arith)))
    | inr other ↦ inl (elim (list_cases w.pending_files) [
      | inl p ↦ rw (p, end_batch) (ground (arith, rw (e, p) at h, other))
      | inr (first, more, p) ↦ rw (p, end_batch) (ground (arith, rw (e, p) at h, other))
    ])
  ]

  -- Whatever happens, a change of a file that came in stays in the queue, among the pending files or in
  -- the running batch, until a batch that has the file ends.
  pub Step-in_flight :
      (path : String) (w v : Watcher)
      → Step debounce w v
      → in_flight path w ≡ true
      → (in_flight path v ≡ true) ⊎ Ends path w v
  unfolding drain reset_debounce trigger_processing begin_batch end_batch stop
  Step-in_flight path w _ (tick n) h = inl h
  Step-in_flight path w _ (change other) h =
      inl (ground (arith, contains-append w.change_queue (other ∷ []) path, h))
  Step-in_flight path w _ (take_change other rest d e) h =
      inl (ground (arith, contains-add_path path other w.pending_files, rw e at h))
  Step-in_flight path w _ (fire due t le) h = inl h
  Step-in_flight path w _ (trigger n e) h =
      inl (trigger_processing-in_flight path (record w { triggered = n }) h)
  Step-in_flight path w _ (finish how files e) h = end_batch-in_flight path how files w e h
  Step-in_flight path w _ halt h = inl h
