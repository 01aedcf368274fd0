-- ===== src/Watcher/Batch.antt =====
-- The files of a batch of `_process_batch`, and their offsets in the index state (transcript_parser.py). The
-- file system, the parser and the index are parameters; the index may raise, and changes as it is used.
pub mod Laws
use session_flow.Base.{
  ℕ, suc, ◌+◌, String, Bool, true, false, not, ◌&&◌, Option, none, some, List, [], ◌∷◌, map, ◌==◌,
  string_eq, if◌then◌else◌,
}
use session_flow.Base.Dict
use session_flow.Base.Dict.{Dict}
use session_flow.Watcher.{BatchEnd, counted, failed}

-- An entry of `state["transcripts"]`.
pub record TranscriptEntry : Type 0 where
  pub last_byte_offset : ℕ
  pub consumed_offset : Option ℕ
  pub project_root : Option String

abbrev pub IndexState : Type 0
IndexState = Dict String TranscriptEntry

unfoldable pub get_transcript_offset : IndexState → String → ℕ
get_transcript_offset state path = elim (Dict.lookup path state) [
  | none ↦ 0
  | some e ↦ e.last_byte_offset
]

unfoldable pub get_consumed_offset : IndexState → String → ℕ
get_consumed_offset state path = elim (Dict.lookup path state) [
  | none ↦ 0
  | some e ↦ elim e.consumed_offset [ none ↦ e.last_byte_offset | some offset ↦ offset ]
]

abbrev pub old_root : Option TranscriptEntry → Option String
old_root none = none
old_root (some e) = e.project_root

unfoldable pub set_transcript_offset : String → ℕ → String → Option ℕ → IndexState → IndexState
set_transcript_offset path offset project_root consumed_offset state =
    Dict.insert path
      (record {
        last_byte_offset = offset;
        consumed_offset = elim consumed_offset [
          | none ↦ some offset
          | some consumed ↦ some consumed
        ];
        project_root =
            if project_root == "" then old_root (Dict.lookup path state) else some project_root;
      })
      state

pub record ParseResult (T : Type 0) : Type 0 where
  pub turns : List T
  pub resume_offset : ℕ
  pub consumed_offset : ℕ

-- Where a batch stands.
pub record Run (X : Type 0) : Type 0 where
  pub index : X
  pub state : IndexState
  pub total_indexed : ℕ
  pub errors : ℕ

-- How a batch ends: its state was saved, or an error outside the files' own left the saved state as it was.
pub record Processed (X : Type 0) : Type 0 where
  pub saved : IndexState
  pub index : X
  pub counts : BatchEnd

-- `project_of` is `none` where the lookup of a file's root raises, as `detect_project_root` may.
module _ {T X : Type 0} (file_exists : String → Bool) (project_of : String → Option String)
    (parse : String → ℕ → Option (ParseResult T)) (with_root : String → T → T)
    (add_turns : List T → X → Option ℕ × X) where
  abbrev pub keep_offset : String → String → ParseResult T → Run X → Run X
  keep_offset path root parsed r = record r {
    state =
        set_transcript_offset path parsed.resume_offset root (some parsed.consumed_offset) r.state;
  }

  abbrev pub count_error : Run X → Run X
  count_error r = record r { errors = r.errors + 1 }

  -- What the parse of a file leads to.
  unfoldable pub index_parsed : String → String → ParseResult T → List T → Run X → Run X
  unfolding set_transcript_offset
  index_parsed path root parsed [] r = keep_offset path root parsed r
  index_parsed path root parsed (t ∷ turns) r =
      let (answer, index) = add_turns (map (with_root root) (t ∷ turns)) r.index in
      elim answer [
        | none ↦ count_error (record r { index = index })
        | some count ↦
            keep_offset path root parsed
              (record r { index = index; total_indexed = r.total_indexed + count })
      ]

  -- A file whose root is known.
  unfoldable pub index_found : String → String → Run X → Run X
  unfolding index_parsed get_transcript_offset
  index_found path root r = elim (parse path (get_transcript_offset r.state path)) [
    | none ↦ count_error r
    | some parsed ↦ index_parsed path root parsed parsed.turns r
  ]

  -- Whether the batch goes on after a file, and how it stands then.
  unfoldable pub index_file : String → Run X → Bool × Run X
  unfolding index_found
  index_file path r =
      if file_exists path
      then elim (project_of path) [
        | none ↦ (false, r)
        | some root ↦ (true, index_found path root r)
      ]
      else (true, r)

  -- Whether all files of a batch were seen.
  unfoldable pub index_batch : List String → Run X → Bool × Run X
  unfolding index_file
  index_batch [] r = (true, r)
  index_batch (path ∷ files) r =
      let (goes_on, r') = index_file path r in
      let rest = index_batch files r' in if goes_on then rest else (false, r')

  -- `_process_batch` between its snapshot and its `finally`, with the saved state, whether it can be read,
  -- and whether the new one can be written.
  unfoldable pub process_files : List String → IndexState → Bool → Bool → X → Processed X
  unfolding index_batch
  process_files files saved loads saves index =
      let start : Run X = record { index = index; state = saved; total_indexed = 0; errors = 0 } in
      let (all_seen, r) = index_batch files start in
      if not loads
      then record { saved = saved; index = index; counts = failed }
      else if all_seen && saves
      then record { saved = r.state; index = r.index; counts = counted r.total_indexed r.errors }
      else record { saved = saved; index = r.index; counts = failed }
