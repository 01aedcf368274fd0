-- ===== src/Sessions/Filling.antt =====
-- The loop of `list_sessions` over the chunks.
use native.Mathlib.Nat.{zero-mul, suc-mul}
use mathlib.Core.List.{append-nil, append_assoc, map-append}
use session_flow.Base.{
  ℕ, zero, suc, ◌+◌, ◌*◌, ◌≡◌, ◌≤◌, refl, sym, ap, ◌∙◌, String, Bool, true, false, Option, none,
  some, List, [], ◌∷◌, ◌++◌, map, leb, max, length, take, drop, slice, contains, keep, string_eq,
  bool_eq, if◌then◌else◌, inl, inr, arith, Bool-cases, take-append-drop, drop-drop, take_all,
  length-take, take-map, keep-append, take-append_long, drop_all,
}
use session_flow.Sessions.{
  Session, wrapped_unavailable, MemoryAnswers, flagged, is_wanted, chunk_step, fill,
}
use session_flow.Embedding.Batches.{range_step}

-- A row with the flag that a test gives it.
abbrev pub flagged_by : (String → Bool) → Session → Session
flagged_by is_wrapped r = record r { wrapped = some (is_wrapped r.session_id) }

-- A memory that answers every query, and of the ids that it is asked for names just those that pass.
abbrev pub AnswersBy : (String → Bool) → MemoryAnswers → Type 0
AnswersBy is_wrapped answers =
    (ids : List String)
    → (found : List String) × ((answers ids ≡ some found)
        × ((i : String) → contains ids i ≡ true → contains found i ≡ is_wrapped i))

module _ (is_wrapped : String → Bool) (found : List String) where
  flagged-all :
      (chunk : List Session)
      → ((i : String)
          → contains (map (λ (r : Session). r.session_id) chunk) i ≡ true
          → contains found i ≡ is_wrapped i)
      → map (flagged (some found)) chunk ≡ map (flagged_by is_wrapped) chunk
  flagged-all [] named = refl
  flagged-all (r ∷ chunk) named =
      let h : contains found r.session_id ≡ is_wrapped r.session_id =
        named r.session_id (ground arith) in
      rw h (
        ap (λ t. flagged_by is_wrapped r ∷ t)
          (flagged-all chunk (λ i m. named i (ground (arith, m)))))

module _ (is_wrapped : String → Bool) (answers : MemoryAnswers) (w : Bool) (n : ℕ)
    (rows : List Session) where
  -- The rows past a place that the filter wants.
  abbrev wanted_past : ℕ → List Session
  wanted_past start = keep (is_wanted (some w)) (map (flagged_by is_wrapped) (drop start rows))

  abbrev step : ℕ
  step = chunk_step (some w) n

  wanted_past-slice :
      (start : ℕ)
      → wanted_past start
        ≡ keep (is_wanted (some w)) (map (flagged_by is_wrapped) (slice rows start step))
          ++ wanted_past (start + step)
  wanted_past-slice start =
      ap (λ l. keep (is_wanted (some w)) (map (flagged_by is_wrapped) l))
        (sym (take-append-drop step (drop start rows)))
      ∙ rw (map-append, keep-append, drop-drop) refl

  fill-round :
      (start : ℕ) (starts : List ℕ) (picked : List Session) (found : List String) (full : Bool)
      (answer : Option (List String))
      → full ≡ false
      → answer ≡ some found
      → (if full then inr (picked, true) else elim answer [
        | none ↦ inl wrapped_unavailable
        | some f ↦
            fill
              (some answers)
              (some w)
              n
              rows
              starts
              (picked ++ keep (is_wanted (some w)) (map (flagged (some f)) (slice rows start step)))
              true
      ])
        ≡ fill
            (some answers)
            (some w)
            n
            rows
            starts
            (picked
              ++ keep (is_wanted (some w)) (map (flagged (some found)) (slice rows start step)))
            true
  fill-round start starts picked found full answer short e = rw (short, e) refl

  fill-step :
      (start : ℕ) (starts : List ℕ) (picked : List Session) (found : List String)
      → leb n (length picked) ≡ false
      → answers (map (λ (r : Session). r.session_id) (slice rows start step)) ≡ some found
      → fill (some answers) (some w) n rows (start ∷ starts) picked true
        ≡ fill
            (some answers)
            (some w)
            n
            rows
            starts
            (picked
              ++ keep (is_wanted (some w)) (map (flagged (some found)) (slice rows start step)))
            true
  unfolding fill
  fill-step start starts picked found short e =
      fill-round start starts picked found (leb n (length picked))
        (answers (map (λ (r : Session). r.session_id) (slice rows start step))) short e

  pub fill-answered :
      AnswersBy is_wrapped answers
      → (count start : ℕ) (picked : List Session) → length rows ≤ start + count * step
      → (p : List Session) × ((fill
              (some answers)
              (some w)
              n
              rows
              (range_step count start step)
              picked
              true
            ≡ inr (p, true))
          × (take n p ≡ take n (picked ++ wanted_past start)))
  unfolding fill range_step
  fill-answered by zero start picked enough = (
    picked,
    (
      refl,
      sym (
          ap (λ l. take n (picked ++ keep (is_wanted (some w)) (map (flagged_by is_wrapped) l)))
            (drop_all start rows
              (let e : length rows ≤ start + 0 = rw zero-mul at enough in omega (arith, e)))
          ∙ ap (λ l. take n l) (append-nil picked)),
    ),
  )
  fill-answered by (suc count) start picked enough = elim (Bool-cases (leb n (length picked))) [
    | inl full ↦ (
      picked,
      (rw (full, fill) refl, sym (take-append_long n picked (wanted_past start) (ground arith))),
    )
    | inr short ↦
        let chunk = slice rows start step in
        let (found, (e, named)) = by (map (λ (r : Session). r.session_id) chunk) in
        let picked' = picked ++ keep (is_wanted (some w)) (map (flagged_by is_wrapped) chunk) in
        let more : suc count * step ≡ step + count * step = rw suc-mul (omega arith) in
        let (p, (run, same)) =
          fill-answered by count (start + step) picked' (omega (arith, enough, more)) in
        (
          p,
          (
            fill-step start (range_step count (start + step) step) picked found short e
                ∙ ap
                    (λ l.
                      fill (some answers) (some w) n rows (range_step count (start + step) step)
                        (picked ++ keep (is_wanted (some w)) l) true)
                    (flagged-all is_wrapped found chunk named)
                ∙ run,
            same
                ∙ ap (λ l. take n l)
                    (append_assoc picked
                        (keep (is_wanted (some w)) (map (flagged_by is_wrapped) chunk))
                        (wanted_past (start + step))
                      ∙ ap (λ l. picked ++ l) (sym (wanted_past-slice start))),
          ),
        )
  ]

pub keep-unfiltered : (xs : List Session) → keep (is_wanted none) xs ≡ xs
keep-unfiltered [] = refl
keep-unfiltered (x ∷ xs) = ap (λ t. x ∷ t) (keep-unfiltered xs)

module _ (is_wrapped : String → Bool) (answers : MemoryAnswers) (n : ℕ) (rows : List Session) where
  -- Without a filter one chunk fills the page.
  pub fill-unfiltered :
      AnswersBy is_wrapped answers
      → (count : ℕ) → length rows ≤ count * max n 1
      → (p : List Session) × ((fill
              (some answers)
              none
              n
              rows
              (range_step count 0 (max n 1))
              []
              true
            ≡ inr (p, true))
          × (take n p ≡ take n (map (flagged_by is_wrapped) rows)))
  unfolding fill range_step
  fill-unfiltered by zero enough = (
    [],
    (
      refl,
      ap (λ l. take n (map (flagged_by is_wrapped) l))
          (sym (drop_all 0 rows (rw zero-mul at enough))),
    ),
  )
  fill-unfiltered by (suc count) enough = elim (Bool-cases (leb n 0)) [
    | inl none_wanted ↦
        ([], (rw (none_wanted, fill) refl, let e : n ≡ 0 = ground arith in rw e refl))
    | inr wanted ↦
        let (found, (e, named)) = by (map (λ (r : Session). r.session_id) (take n rows)) in
        (
          map (flagged_by is_wrapped) (take n rows),
          (
            rw (wanted, fill, e, flagged-all is_wrapped found (take n rows) named, keep-unfiltered)
                refl,
            ap (λ l. take n l) (sym (take-map (flagged_by is_wrapped) n rows))
                ∙ take_all n (take n (map (flagged_by is_wrapped) rows))
                    (omega (arith, length-take n (map (flagged_by is_wrapped) rows))),
          ),
        )
  ]
