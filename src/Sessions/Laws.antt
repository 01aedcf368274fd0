-- ===== src/Sessions/Laws.antt =====
-- What `list_sessions` returns.
use native.Mathlib.Nat.{zero-add, zero-mul}
use session_flow.Base.{
  ℕ, zero, suc, ◌+◌, ◌*◌, ◌≡◌, ◌≤◌, ◌<◌, refl, sym, ap, ◌∙◌, String, Bool, true, false, Option,
  none, some, List, [], ◌∷◌, map, leb, max, length, take, take_all, length-map, length-take, keep,
  string_eq, bool_eq, if◌then◌else◌, inl, inr, arith,
}
use session_flow.Base.Dict.{Dict}
use session_flow.Embedding.Batches.{range_step, range_count}
use session_flow.Embedding.Batches.Laws.{range_count-le}
use session_flow.Sessions.{
  Session, wrapped_unavailable, MemoryAnswers, shown_rows, found_wrapped, flagged, is_wanted,
  wrapped_chunk, chunk_step, fill, has_memory, finished, list_sessions,
}
use session_flow.Sessions.Filling.{
  flagged_by, AnswersBy, fill-answered, fill-unfiltered, keep-unfiltered,
}

abbrev pub Titles : Type 0
Titles = List Session → Dict (String × String) String

-- The page: the first rows, in order, that the filter wants, flagged by a test.
abbrev pub page_by : (String → Bool) → ℕ → Option Bool → List Session → List Session
page_by is_wrapped n wrapped rows =
    take n (keep (is_wanted wrapped) (map (flagged_by is_wrapped) rows))

fill-page :
    (is_wrapped : String → Bool) (answers : MemoryAnswers) (n : ℕ) (wrapped : Option Bool)
    (rows : List Session)
    → AnswersBy is_wrapped answers
    → let step = max (chunk_step wrapped n) 1 in
      (p : List Session) × ((fill
            (some answers)
            wrapped
            n
            rows
            (range_step (range_count (length rows) step) 0 step)
            []
            true
          ≡ inr (p, true))
        × (take n p ≡ page_by is_wrapped n wrapped rows))
fill-page is_wrapped answers n none rows by =
    let (p, (run, same)) =
      fill-unfiltered is_wrapped answers n rows by (range_count (length rows) (max n 1))
        (range_count-le (length rows) (max n 1) (omega arith)) in
    (p, (run, same ∙ ap (λ l. take n l) (sym (keep-unfiltered (map (flagged_by is_wrapped) rows)))))
fill-page is_wrapped answers n (some w) rows by =
    let e : max (max n 50) 1 ≡ max n 50 = omega arith in
    rw e (
      fill-answered is_wrapped answers w n rows by (range_count (length rows) (max n 50)) 0 []
        (rw zero-add (range_count-le (length rows) (max n 50) (omega arith))))

-- Where the memory store answers every query, and of the sessions that it is asked for names those
-- that are wrapped, `list_sessions` returns the first `n` rows that it shows and the filter wants, in
-- order, each flagged right, with its title; whatever the sizes of the page and of the chunks are.
pub list_sessions-page :
    (is_wrapped : String → Bool) (answers : MemoryAnswers) (titles : Titles) (n : ℕ)
    (wrapped : Option Bool) (include_subagents : Bool) (rows : List Session)
    → AnswersBy is_wrapped answers
    → let page = page_by is_wrapped n wrapped (shown_rows include_subagents rows) in
      list_sessions titles (some answers) n wrapped include_subagents rows
      ≡ inr (map (finished (titles page) true) page, true)
unfolding list_sessions
list_sessions-page is_wrapped answers titles n wrapped include_subagents rows by =
    let (p, (run, same)) =
      fill-page is_wrapped answers n wrapped (shown_rows include_subagents rows) by in
    rw (list_sessions, run, same) refl

-- A memory object that is not there, or that raises on every query.
abbrev pub IsSilent : Option MemoryAnswers → Type 0
IsSilent none = Unit
IsSilent (some answers) = (ids : List String) → answers ids ≡ none

silent_found :
    (memory : Option MemoryAnswers) (chunk : List Session)
    → IsSilent memory
    → (if has_memory memory then found_wrapped memory chunk else none) ≡ none
silent_found none chunk silent = refl
silent_found (some answers) chunk silent = silent (map (λ (r : Session). r.session_id) chunk)

fill-silent :
    (memory : Option MemoryAnswers) (n : ℕ) (w : Bool) (rows : List Session) (starts : List ℕ)
    → IsSilent memory
    → (fill memory (some w) (suc n) rows (0 ∷ starts) [] (has_memory memory)
        ≡ inl wrapped_unavailable)
      × (fill memory none (suc n) rows (0 ∷ starts) [] (has_memory memory)
          ≡ inr (keep (is_wanted none) (map (flagged none) (take (suc n) rows)), false))
unfolding fill
fill-silent memory n w rows starts silent =
    let page_open : leb (suc n) 0 ≡ false = ground arith in
    (
      rw (silent_found memory (take (max (suc n) wrapped_chunk) rows) silent, page_open) refl,
      rw (silent_found memory (take (suc n) rows) silent, page_open) refl,
    )

-- A listing with a row to show has a chunk.
range_step-first :
    (k b : ℕ) → 0 < b → 0 < k → (starts : List ℕ) × (range_step (range_count k b) 0 b ≡ 0 ∷ starts)
unfolding range_step
range_step-first k b h g = first_start (range_count k b) (range_count-le k b h)
  where
    first_start :
        (count : ℕ) → k ≤ count * b → (starts : List ℕ) × (range_step count 0 b ≡ 0 ∷ starts)
    first_start zero le = let e : k ≤ 0 = rw zero-mul at le in absurd (omega (arith, e))
    first_start (suc count) le = (range_step count (0 + b) b, refl)

-- The loop over a listing with a row to show.
fill-chunks_silent :
    (memory : Option MemoryAnswers) (n : ℕ) (w : Bool) (rows more : List Session) (first : Session)
    → IsSilent memory
    → rows ≡ first ∷ more
    → let chunks = λ (step : ℕ). range_step (range_count (length rows) step) 0 step in
      (fill memory
          (some w)
          (suc n)
          rows
          (chunks (max (max (suc n) wrapped_chunk) 1))
          []
          (has_memory memory)
        ≡ inl wrapped_unavailable)
      × (fill memory none (suc n) rows (chunks (max (suc n) 1)) [] (has_memory memory)
          ≡ inr (keep (is_wanted none) (map (flagged none) (take (suc n) rows)), false))
fill-chunks_silent memory n w rows more first silent shown =
    let some_row : 0 < length rows = rw shown (omega arith) in
    let (starts, e) =
      range_step-first (length rows) (max (max (suc n) wrapped_chunk) 1) (omega arith) some_row in
    let (starts', e') = range_step-first (length rows) (max (suc n) 1) (omega arith) some_row in
    (
      ap (λ s. fill memory (some w) (suc n) rows s [] (has_memory memory)) e
          ∙ (fill-silent memory n w rows starts silent).0,
      ap (λ s. fill memory none (suc n) rows s [] (has_memory memory)) e'
          ∙ (fill-silent memory n w rows starts' silent).1,
    )

take-unflagged :
    (n : ℕ) (rows : List Session)
    → take n (keep (is_wanted none) (map (flagged none) (take n rows)))
      ≡ map (flagged none) (take n rows)
take-unflagged n rows =
    ap (λ k. take n k) (keep-unfiltered (map (flagged none) (take n rows)))
    ∙ take_all n (map (flagged none) (take n rows))
        (omega (arith, length-map (flagged none) (take n rows), length-take n rows))

-- Where the memory store is not there or raises on every query, and there is a row to show and a page to
-- fill, a listing with the filter raises `WrappedUnavailable`, and one without returns the first `n`
-- rows, with no flag on any of them and `wrapped_known` false.
pub list_sessions-IsSilent :
    (memory : Option MemoryAnswers) (titles : Titles) (n : ℕ) (w : Bool) (include_subagents : Bool)
    (rows more : List Session) (first : Session)
    → IsSilent memory
    → shown_rows include_subagents rows ≡ first ∷ more
    → let page = map (flagged none) (take (suc n) (shown_rows include_subagents rows)) in
      (list_sessions titles memory (suc n) (some w) include_subagents rows
        ≡ inl wrapped_unavailable)
      × (list_sessions titles memory (suc n) none include_subagents rows
          ≡ inr (map (finished (titles page) false) page, false))
unfolding list_sessions
list_sessions-IsSilent memory titles n w include_subagents rows more first silent shown =
    let rows' = shown_rows include_subagents rows in
    let (raised, filled) = fill-chunks_silent memory n w rows' more first silent shown in
    (rw (list_sessions, raised) refl, rw (list_sessions, filled, take-unflagged (suc n) rows') refl)
