-- ===== src/Tests/Ingest.antt =====
-- Two turns, the first with two passages, under a budget that lets the first batch through.
use native.Mathlib.Omega.{arith}
use session_flow.Base.{
  ℕ, ◌+◌, ◌*◌, nat_eq, ◌≤◌, ◌≡◌, refl, false, some, List, [], ◌∷◌, map, take, concat,
}
use session_flow.Embedding.Throttle.{EmbedThrottle, remaining, done}
use session_flow.Embedding.Budget.{EmbeddingBudget, before_batch, after_batch, recent}
use session_flow.Embedding.Batches.{split_batches}
use session_flow.Ingest.{Timing, embed_batches, embed_units, decide_batch, land_units}
use session_flow.Ingest.Laws.{embed_batches-le-cap, embed_units-whole}

abbrev capped : EmbeddingBudget
capped = record {
  batch_size = 2;
  cooldown_ms = 0;
  max_turns_per_run = 5;
  max_files_per_run = 5;
  recent_days = 7;
  mode = recent;
  paused = false;
  turns_processed = 0;
  batches_processed = 0;
  errors = 0;
  last_batch_finished_at = 0;
  last_batch_duration = 0;
  cap_warned = false;
}

abbrev rested : EmbedThrottle
rested = record { cooldown_ms = 200; last_done = 0 }

abbrev slow_clock : ℕ → Timing
slow_clock i = record {
  first = i * 1000000 + 1;
  slept = i * 1000000 + 2;
  finished = i * 1000000 + 3;
  duration = 1;
  fails = false;
}

abbrev units : List (List ℕ)
units = (1 ∷ 2 ∷ 3 ∷ []) ∷ (4 ∷ []) ∷ (5 ∷ 6 ∷ []) ∷ []

abbrev vector : ℕ → ℕ
vector x = x + 100

-- The third batch would pass the cap, so the last unit waits.
units_embedded :
    (embed_units (map vector) slow_clock capped rested units).0
    ≡ some (1 ∷ 2 ∷ 3 ∷ 4 ∷ [], 101 ∷ 102 ∷ 103 ∷ 104 ∷ [])
unfolding embed_units embed_batches decide_batch before_batch after_batch land_units split_batches
    remaining nat_eq done
units_embedded = refl

embed_units-whole_example :
    (j : ℕ) × (1 ∷ 2 ∷ 3 ∷ 4 ∷ [] ≡ concat (take j units))
    × (101 ∷ 102 ∷ 103 ∷ 104 ∷ [] ≡ map vector (1 ∷ 2 ∷ 3 ∷ 4 ∷ []))
embed_units-whole_example =
    embed_units-whole vector slow_clock capped rested units (1 ∷ 2 ∷ 3 ∷ 4 ∷ [])
      (101 ∷ 102 ∷ 103 ∷ 104 ∷ []) (omega arith) units_embedded

embed_batches-le-cap_example :
    (embed_batches (map vector) slow_clock 0 capped rested [] units).1.turns_processed ≤ 5
embed_batches-le-cap_example =
    embed_batches-le-cap vector slow_clock 0 capped rested [] units (omega arith)
