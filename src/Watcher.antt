-- ===== src/Watcher.antt =====
-- `GlobalTranscriptWatcher` of file_watcher.py on one event loop. What a handler does between two awaits is
-- one step. A timer that fired is gone: the code keeps its handle, and to cancel that does nothing.
pub mod Laws
pub mod Attended
pub mod Batch
use session_flow.Base.{
  ℕ, suc, ◌+◌, ◌≡◌, ◌≤◌, String, Bool, true, false, Option, none, some, List, [], ◌∷◌, ◌++◌,
  contains, length, ◌==◌, string_eq, if◌then◌else◌,
}

pub record Stats : Type 0 where
  pub turns_indexed : ℕ
  pub files_processed : ℕ
  pub batches_processed : ℕ
  pub errors : ℕ

-- The timer is due at a time. `triggered` counts the tasks of `_trigger_processing` that have not run yet.
-- `_processing` is true while there is a batch. The drain task reads the queue until `stop`.
pub record Watcher : Type 0 where
  pub clock : ℕ
  pub change_queue : List String
  pub draining : Bool
  pub pending_files : List String
  pub timer : Option ℕ
  pub triggered : ℕ
  pub batch : Option (List String)
  pub stopped : Bool
  pub stats : Stats

abbrev pub started : ℕ → Watcher
started clock = record {
  clock = clock;
  change_queue = [];
  draining = true;
  pending_files = [];
  timer = none;
  triggered = 0;
  batch = none;
  stopped = false;
  stats = record { turns_indexed = 0; files_processed = 0; batches_processed = 0; errors = 0 };
}

-- `self._pending_files.add(path)`
abbrev pub add_path : String → List String → List String
add_path path files = if contains files path then files else files ++ path ∷ []

-- How a batch ends: with its counts, or with an error outside the files' own.
pub data BatchEnd : Type 0 where
  counted : ℕ → ℕ → BatchEnd
  failed : BatchEnd

abbrev pub add_stats : BatchEnd → List String → Stats → Stats
add_stats (counted indexed errors) batch s = record {
  turns_indexed = s.turns_indexed + indexed;
  files_processed = s.files_processed + length batch;
  batches_processed = s.batches_processed + 1;
  errors = s.errors + errors;
}
add_stats failed batch s = record s { errors = s.errors + 1 }

-- `stop`, up to its first await.
unfoldable pub stop : Watcher → Watcher
stop w = record w { stopped = true; timer = none; draining = false }

module _ (debounce : ℕ) where
  unfoldable pub reset_debounce : Watcher → Watcher
  reset_debounce w = record w { timer = some (w.clock + debounce) }

  -- A round of `_drain_queue`.
  unfoldable pub drain : String → List String → Watcher → Watcher
  unfolding reset_debounce
  drain path rest w =
      reset_debounce
        (record w { change_queue = rest; pending_files = add_path path w.pending_files })

  -- `_process_batch`, up to its first await.
  unfoldable pub begin_batch : Watcher → Watcher
  begin_batch w = elim w.pending_files [
    | [] ↦ w
    | path ∷ more ↦ record w { batch = some (path ∷ more); pending_files = [] }
  ]

  unfoldable pub trigger_processing : Watcher → Watcher
  unfolding begin_batch reset_debounce
  trigger_processing w =
      if w.stopped then w else elim w.batch [ none ↦ begin_batch w | some _ ↦ reset_debounce w ]

  -- The rest of `_process_batch`, its `finally` included.
  unfoldable pub end_batch : BatchEnd → List String → Watcher → Watcher
  unfolding reset_debounce
  end_batch how files w =
      let w' : Watcher = record w { batch = none; stats = add_stats how files w.stats } in
      elim w.pending_files [ [] ↦ w' | _ ∷ _ ↦ reset_debounce w' ]

  pub data Step (w : Watcher) : Watcher → Type 0 where
    tick : (n : ℕ) → Step w (record w { clock = w.clock + n })
    change : (path : String) → Step w (record w { change_queue = w.change_queue ++ path ∷ [] })
    take_change :
        (path : String) (rest : List String)
        → w.draining ≡ true
        → w.change_queue ≡ path ∷ rest
        → Step w (drain path rest w)
    fire :
        (due : ℕ)
        → w.timer ≡ some due
        → due ≤ w.clock
        → Step w (record w { timer = none; triggered = suc w.triggered })
    trigger :
        (n : ℕ) → w.triggered ≡ suc n → Step w (trigger_processing (record w { triggered = n }))
    finish :
        (how : BatchEnd) (files : List String)
        → w.batch ≡ some files
        → Step w (end_batch how files w)
    halt : Step w (stop w)

  pub data Reach (w : Watcher) : Watcher → Type 0 where
    here : Reach w w
    next : {u v : Watcher} → Reach w u → Step u v → Reach w v
