-- ===== src/Sessions.antt =====
-- `list_sessions` of session_listing.py. The rows come from `list_sessions` of rag_engine.py, newest first,
-- and the titles from its `session_titles`. The memory store answers for a list of ids, or raises.
pub mod Filling
pub mod Laws
pub mod Scan
use text.Mathlib.Text.{starts_with}
use session_flow.Base.{
  ℕ, zero, suc, String, Bool, true, false, not, ◌&&◌, Option, none, some, List, [], ◌∷◌, ◌++◌, map,
  leb, max, length, take, slice, contains, keep, ◌==◌, Eq, string_eq, bool_eq, pair_eq,
  if◌then◌else◌, ◌⊎◌, inl, inr,
}
use session_flow.Base.Dict
use session_flow.Base.Dict.{Dict}
use session_flow.Embedding.Batches.{range_step, range_count}

pub record Session : Type 0 where
  pub session_id : String
  pub provider : Option String
  pub first_doc_ids : Option (List String)
  pub wrapped : Option Bool
  pub title : Option String

abbrev pub wrapped_chunk : ℕ
wrapped_chunk = 50

pub data ListingError : Type 0 where
  wrapped_unavailable : ListingError

-- The answers of the memory object to `wrapped_sessions`: `none` where it raises.
abbrev pub MemoryAnswers : Type 0
MemoryAnswers = List String → Option (List String)

unfoldable pub is_subagent_session : String → Bool
is_subagent_session session_id = not (session_id == "") && starts_with session_id "agent-"

abbrev pub shown_rows : Bool → List Session → List Session
shown_rows include_subagents rows =
    if include_subagents
    then rows
    else keep (λ (r : Session). not (is_subagent_session r.session_id)) rows

-- `_wrapped`
abbrev pub found_wrapped : Option MemoryAnswers → List Session → Option (List String)
found_wrapped none chunk = none
found_wrapped (some answers) chunk = answers (map (λ (r : Session). r.session_id) chunk)

-- `row["wrapped"] = None if found is None else row["session_id"] in found`
abbrev pub flagged : Option (List String) → Session → Session
flagged none r = record r { wrapped = none }
flagged (some found) r = record r { wrapped = some (contains found r.session_id) }

-- `wrapped is None or row["wrapped"] is wrapped`
abbrev pub is_wanted : Option Bool → Session → Bool
is_wanted none r = true
is_wanted (some wrapped) r = elim r.wrapped [ none ↦ false | some w ↦ w == wrapped ]

abbrev pub chunk_step : Option Bool → ℕ → ℕ
chunk_step none n = n
chunk_step (some wrapped) n = max n wrapped_chunk

module _ (memory : Option MemoryAnswers) (wrapped : Option Bool) (n : ℕ) (rows : List Session) where
  -- The loop over the starts of the chunks, from what was picked and whether the flags are known.
  unfoldable pub fill : List ℕ → List Session → Bool → ListingError ⊎ (List Session × Bool)
  fill [] picked known = inr (picked, known)
  fill (start ∷ starts) picked known =
      let chunk = slice rows start (chunk_step wrapped n) in
      let picked_with = λ (found : Option (List String)).
        picked ++ keep (is_wanted wrapped) (map (flagged found) chunk) in
      if leb n (length picked)
      then inr (picked, known)
      else elim (if known then found_wrapped memory chunk else none) [
        | none ↦ elim wrapped [
          | none ↦ inr (picked_with none, false)
          | some _ ↦ inl wrapped_unavailable
        ]
        | some found ↦ elim wrapped [
          | none ↦ inr (picked_with (some found), known)
          | some _ ↦ fill starts (picked_with (some found)) known
        ]
      ]

abbrev pub has_memory : Option MemoryAnswers → Bool
has_memory none = false
has_memory (some _) = true

abbrev pub or_empty : Option String → String
or_empty none = ""
or_empty (some v) = v

-- The row with its title, and with no flag where the flags are not known.
abbrev pub finished : Dict (String × String) String → Bool → Session → Session
finished titles known r = record r {
  title = some (Dict.get_or (r.session_id, or_empty r.provider) "" titles);
  first_doc_ids = none;
  wrapped = if known then r.wrapped else none;
}

unfoldable pub list_sessions :
    (List Session → Dict (String × String) String)
    → Option MemoryAnswers
    → ℕ
    → Option Bool
    → Bool
    → List Session
    → ListingError ⊎ (List Session × Bool)
unfolding fill
list_sessions titles memory n wrapped include_subagents rows =
    let rows' = shown_rows include_subagents rows in
    let step = max (chunk_step wrapped n) 1 in
    let starts = range_step (range_count (length rows') step) 0 step in
    elim (fill memory wrapped n rows' starts [] (has_memory memory)) [
      | inl error ↦ inl error
      | inr (picked, known) ↦
          let page = take n picked in inr (map (finished (titles page) known) page, known)
    ]
