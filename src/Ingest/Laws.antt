-- ===== src/Ingest/Laws.antt =====
-- The rows and vectors that the embedding loop of `add_turns` leaves.
use mathlib.Core.List.{append-nil, append_assoc, map-append}
use session_flow.Base.{
  ℕ, suc, ◌+◌, ◌≤◌, ◌<◌, ◌≡◌, refl, ap, ◌∙◌, true, false, some, List, [], ◌∷◌, ◌++◌, map, arith,
  length, take, length-append, take-take, take-map, concat-take, length-map, take-length_add,
  concat, Bool-cases, Option-cases, ltb, inl, inr,
}
use session_flow.Embedding.Throttle.{EmbedThrottle}
use session_flow.Embedding.Budget.{EmbeddingBudget, before_batch, after_batch}
use session_flow.Embedding.Batches.{split_batches}
use session_flow.Embedding.Batches.Laws.{concat-split_batches}
use session_flow.Ingest.{Timing, decide_batch, embed_batches, land_units, embed_units}

-- No decision changes the counters or the limits.
max-decide_batch :
    (b : EmbeddingBudget) (t : EmbedThrottle) (at : Timing) (size : ℕ)
    → (decide_batch b t at size).0.max_turns_per_run ≡ b.max_turns_per_run
unfolding decide_batch before_batch
max-decide_batch b t at size = ground arith

decide_batch_room :
    (b : EmbeddingBudget) (t : EmbedThrottle) (at : Timing) (size : ℕ)
    → (decide_batch b t at size).1.allowed ≡ true
    → (decide_batch b t at size).0.turns_processed + size ≤ b.max_turns_per_run
unfolding decide_batch before_batch
decide_batch_room b t at size h = ground arith

turns-decide_batch :
    (b : EmbeddingBudget) (t : EmbedThrottle) (at : Timing) (size : ℕ)
    → (decide_batch b t at size).0.turns_processed ≡ b.turns_processed
unfolding decide_batch before_batch
turns-decide_batch b t at size = ground arith

-- The budget and the throttle after a batch that the model embedded.
abbrev after_embedding :
    EmbeddingBudget → EmbedThrottle → Timing → ℕ → EmbeddingBudget × EmbedThrottle
after_embedding b t at size =
    after_batch (decide_batch b t at size).0 t at.finished at.duration size false

module _ {ℓ κ} {Item : Type ℓ} {Vec : Type κ} (f : Item → Vec) (env : ℕ → Timing) where
  -- Whatever the model and the clock do, a run that starts under its cap ends under it.
  pub embed_batches-le-cap :
      (i : ℕ) (b : EmbeddingBudget) (t : EmbedThrottle) (vecs : List Vec)
      (batches : List (List Item))
      → b.turns_processed ≤ b.max_turns_per_run
      → (embed_batches (map f) env i b t vecs batches).1.turns_processed ≤ b.max_turns_per_run
  unfolding embed_batches after_batch
  embed_batches-le-cap i b t vecs [] h = h
  embed_batches-le-cap i b t vecs (batch ∷ batches) h =
      let (b', t') = after_embedding b t (env i) (length batch) in
      ground (
        arith,
        max-decide_batch b t (env i) (length batch),
        turns-decide_batch b t (env i) (length batch),
        decide_batch_room b t (env i) (length batch),
        embed_batches-le-cap (suc i) b' t' (vecs ++ map f batch) batches,
      )

  -- The vectors are those of the first so many items, in order.
  embed_batches-eq-take :
      (i : ℕ) (b : EmbeddingBudget) (t : EmbedThrottle) (vecs : List Vec)
      (batches : List (List Item)) (vs : List Vec)
      → (embed_batches (map f) env i b t vecs batches).0 ≡ some vs
      → (m : ℕ) × (vs ≡ vecs ++ map f (take m (concat batches)))
  unfolding embed_batches
  embed_batches-eq-take i b t vecs [] vs h = (0, rw append-nil (ground arith))
  embed_batches-eq-take i b t vecs (batch ∷ batches) vs h =
      elim (Bool-cases (decide_batch b t (env i) (length batch)).1.allowed) [
        | inr refused ↦ (0, rw append-nil (ground arith))
        | inl fine ↦ elim (Bool-cases (env i).fails) [
          | inl raised ↦ absurd (ground arith)
          | inr embedded ↦
              let (b', t') = after_embedding b t (env i) (length batch) in
              let (m, e) =
                embed_batches-eq-take (suc i) b' t' (vecs ++ map f batch) batches vs
                  (ground arith) in
              (length batch + m, rw (take-length_add, map-append, ← append_assoc) e)
        ]
      ]

land_units-take {ℓ} :
    {Item : Type ℓ} (done available : ℕ) (units : List (List Item))
    → done ≤ available
    → (j : ℕ) × (land_units done available units ≡ take j units)
      × (done + length (concat (take j units)) ≤ available)
unfolding land_units
land_units-take done available [] h = (0, refl, omega arith)
land_units-take done available (unit ∷ units) h =
    elim (Bool-cases (ltb available (done + length unit))) [
      | inl stop ↦ (0, rw stop, omega arith)
      | inr go ↦
          let (j, e, fits) = land_units-take (done + length unit) available units (ground arith) in
          (suc j, rw (go, e), omega (arith, length-append unit (concat (take j units))))
    ]

-- The vectors of whole units, cut from the vectors of all that was embedded.
take-map-units {ℓ κ} :
    {Item : Type ℓ} {Vec : Type κ} (f : Item → Vec) (m j : ℕ) (units : List (List Item))
    → length (concat (take j units)) ≤ length (take m (concat units))
    → take (length (concat (take j units))) (map f (take m (concat units)))
      ≡ map f (concat (take j units))
take-map-units f m j units fits =
    take-map f _ (take m (concat units))
    ∙ ap (map f) (take-take _ m (concat units) fits ∙ concat-take j units)

-- What is stored is a number of whole units from the front, so no turn lands without its passages,
-- and the vectors are those of exactly these rows, in order.
pub embed_units-whole {ℓ κ} :
    {Item : Type ℓ} {Vec : Type κ} (f : Item → Vec) (env : ℕ → Timing) (b : EmbeddingBudget)
    (t : EmbedThrottle) (units : List (List Item)) (rows : List Item) (vecs : List Vec)
    → 0 < b.batch_size
    → (embed_units (map f) env b t units).0 ≡ some (rows, vecs)
    → (j : ℕ) × (rows ≡ concat (take j units)) × (vecs ≡ map f rows)
unfolding embed_units
embed_units-whole f env b t units rows vecs sized h =
    let batches = split_batches b.batch_size (concat units) in
    elim (Option-cases (embed_batches (map f) env 0 b t [] batches).0) [
      | inl raised ↦ absurd (ground arith)
      | inr (vs, e) ↦
          let (m, p) = embed_batches-eq-take f env 0 b t [] batches vs e in
          let e' : vs ≡ map f (take m (concat units)) =
            p
            ∙ ap (λ l. map f (take m l)) (concat-split_batches b.batch_size (concat units) sized) in
          let (j, q, fits) = land_units-take 0 (length vs) units (omega arith) in
          let landed = ap (λ l. concat l) q in
          let cut =
            take-map-units f m j units
              (omega (arith, ap length e', length-map f (take m (concat units)))) in
          (j, ground arith, ground (arith, cut))
    ]
