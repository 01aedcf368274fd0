-- ===== src/Ingest.antt =====
-- The part of `add_turns` of rag_engine.py between the redaction and the insert: the units of a
-- turn and its passages are embedded in batches under the budget, and what was embedded is cut
-- back to whole units. The model (`embed_texts`) is a parameter, with the times at which the
-- process clock is read and whether the model raises, for each batch in turn.
pub mod Laws
use session_flow.Base.{
  ℕ, zero, suc, ◌+◌, Bool, true, false, not, ◌&&◌, Option, none, some, List, [], ◌∷◌, ◌++◌, ltb,
  length, take, concat, if◌then◌else◌,
}
use session_flow.Embedding.Throttle.{EmbedThrottle}
use session_flow.Embedding.Budget.{EmbeddingBudget, EmbeddingDecision, before_batch, after_batch}
use session_flow.Embedding.Batches.{split_batches}

-- The clock at the first decision, after the sleep that a refusal asked for, and after the batch.
pub record Timing : Type 0 where
  pub first : ℕ
  pub slept : ℕ
  pub finished : ℕ
  pub duration : ℕ
  pub fails : Bool

-- A refused batch is tried once more after a sleep, if the refusal names a time.
unfoldable pub decide_batch :
    EmbeddingBudget → EmbedThrottle → Timing → ℕ → EmbeddingBudget × EmbeddingDecision
decide_batch b t at size =
    let (b', d) = before_batch b t at.first size in
    if not d.allowed && ltb 0 d.retry_after then before_batch b' t at.slept size else (b', d)

module _ {ℓ κ} {Item : Type ℓ} {Vec : Type κ} (embed : List Item → List Vec)
    (env : ℕ → Timing) where
  -- The vectors, or `none` for an exception of the model, which the source raises again.
  unfoldable pub embed_batches :
      ℕ
      → EmbeddingBudget
      → EmbedThrottle
      → List Vec
      → List (List Item)
      → Option (List Vec) × EmbeddingBudget × EmbedThrottle
  embed_batches i b t vecs [] = (some vecs, b, t)
  embed_batches i b t vecs (batch ∷ batches) =
      let (b', d) = decide_batch b t (env i) (length batch) in
      let (bf, tf) = after_batch b' t (env i).finished (env i).duration 0 true in
      let (bd, td) = after_batch b' t (env i).finished (env i).duration (length batch) false in
      let rest = embed_batches (suc i) bd td (vecs ++ embed batch) batches in
      if not d.allowed then (some vecs, b', t) else if (env i).fails then (none, bf, tf) else rest

-- The units that the vectors reach to the end of; the first that they do not stops the loop.
unfoldable pub land_units {ℓ} : {Item : Type ℓ} → ℕ → ℕ → List (List Item) → List (List Item)
land_units done available [] = []
land_units done available (unit ∷ units) =
    let rest = land_units (done + length unit) available units in
    if ltb available (done + length unit) then [] else unit ∷ rest

-- The rows to insert, each list with the vectors beside it.
unfoldable pub embed_units {ℓ κ} :
    {Item : Type ℓ} {Vec : Type κ} (embed : List Item → List Vec) (env : ℕ → Timing)
    → EmbeddingBudget
    → EmbedThrottle
    → List (List Item)
    → Option (List Item × List Vec) × EmbeddingBudget × EmbedThrottle
embed_units embed env b t units =
    let (vecs, b', t') =
      embed_batches embed env 0 b t [] (split_batches b.batch_size (concat units)) in
    (
      elim vecs [
        | none ↦ none
        | some vs ↦
            let landed = concat (land_units 0 (length vs) units) in
            some (landed, take (length landed) vs)
      ],
      b',
      t',
    )
