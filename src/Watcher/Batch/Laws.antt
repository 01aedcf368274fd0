-- ===== src/Watcher/Batch/Laws.antt =====
-- What a batch makes of the offset of a file.
use mathlib.Core.Bool.{false≢true}
use mathlib.Core.Path.{subst}
use session_flow.Base.{
  ℕ, ◌≡◌, ◌≢◌, refl, sym, ap, ◌∙◌, String, Bool, true, false, Option, none, some, List, [], ◌∷◌,
  map, contains, string_eq, ◌⊎◌, inl, inr, arith, Bool-cases, Option-cases,
}
use session_flow.Base.Dict
use session_flow.Base.Dict.{Dict, lookup-insert_other, lookup-insert_self}
use session_flow.Watcher.{failed}
use session_flow.Watcher.Batch.{
  TranscriptEntry, IndexState, get_transcript_offset, set_transcript_offset, ParseResult, Run,
  index_parsed, index_found, index_file, index_batch, Processed, process_files,
}

abbrev pub Distinct : List String → Type 0
Distinct [] = Unit
Distinct (x ∷ files) = (contains files x ≡ false) × Distinct files

module _ {T X : Type 0} (file_exists : String → Bool) (project_of : String → Option String)
    (parse : String → ℕ → Option (ParseResult T)) (with_root : String → T → T)
    (add_turns : List T → X → Option ℕ × X) where
  -- What `add_turns` answers for some turns of a file, at some time.
  abbrev pub AddAnswers : String → List T → Option ℕ → Type 0
  AddAnswers path turns answer =
      (x : X) × (root : String) × (project_of path ≡ some root)
      × ((add_turns (map (with_root root) turns) x).0 ≡ answer)

  -- What became of a file: it is gone; its parse or its indexing raised, and its entry is as it was; or it was
  -- parsed from its offset, its turns were added, and its entry has the offsets of the parse.
  pub data Outcome (path : String) (before after : IndexState) : Type 0 where
    gone :
        file_exists path ≡ false
        → Dict.lookup path after ≡ Dict.lookup path before
        → Outcome path before after
    unreadable :
        parse path (get_transcript_offset before path) ≡ none
        → Dict.lookup path after ≡ Dict.lookup path before
        → Outcome path before after
    not_added :
        (parsed : ParseResult T)
        → parse path (get_transcript_offset before path) ≡ some parsed
        → AddAnswers path parsed.turns none
        → Dict.lookup path after ≡ Dict.lookup path before
        → Outcome path before after
    indexed :
        (parsed : ParseResult T) (e : TranscriptEntry)
        → parse path (get_transcript_offset before path) ≡ some parsed
        → (parsed.turns ≡ []) ⊎ ((count : ℕ) × AddAnswers path parsed.turns (some count))
        → Dict.lookup path after ≡ some e
        → e.last_byte_offset ≡ parsed.resume_offset
        → e.consumed_offset ≡ some parsed.consumed_offset
        → Outcome path before after

  abbrev run_file : String → Run X → Bool × Run X
  run_file = index_file file_exists project_of parse with_root add_turns

  lookup-index_parsed_other :
      (path other root : String) (parsed : ParseResult T) (turns : List T) (r : Run X)
      → path ≢ other
      → Dict.lookup path
          (index_parsed file_exists project_of parse with_root add_turns other root parsed turns
            r).state
        ≡ Dict.lookup path r.state
  unfolding index_parsed set_transcript_offset
  lookup-index_parsed_other path other root parsed [] r n =
      lookup-insert_other path other _ r.state n
  lookup-index_parsed_other path other root parsed (t ∷ turns) r n =
      elim (Option-cases (add_turns (map (with_root root) (t ∷ turns)) r.index).0) [
        | inl raised ↦ rw (raised, index_parsed) refl
        | inr (count, added) ↦ rw (added, index_parsed) (lookup-insert_other path other _ r.state n)
      ]

  lookup-index_file_other :
      (path other : String) (r : Run X)
      → path ≢ other
      → Dict.lookup path (run_file other r).1.state ≡ Dict.lookup path r.state
  unfolding index_file index_found
  lookup-index_file_other path other r n = elim (Bool-cases (file_exists other)) [
    | inr gone_now ↦ rw (gone_now, index_file) refl
    | inl there ↦ elim (Option-cases (project_of other)) [
      | inl lost ↦ rw (there, lost, index_file) refl
      | inr (root, found) ↦
          elim (Option-cases (parse other (get_transcript_offset r.state other))) [
            | inl raised ↦ rw (there, found, raised, index_file, index_found) refl
            | inr (parsed, read) ↦
                rw (there, found, read, index_file, index_found)
                  (lookup-index_parsed_other path other root parsed parsed.turns r n)
          ]
    ]
  ]

  index_parsed-Outcome :
      (path root : String) (parsed : ParseResult T) (turns : List T) (r : Run X)
      → project_of path ≡ some root
      → parse path (get_transcript_offset r.state path) ≡ some parsed
      → parsed.turns ≡ turns
      → Outcome path r.state
          (index_parsed file_exists project_of parse with_root add_turns path root parsed turns
            r).state
  unfolding index_parsed set_transcript_offset
  index_parsed-Outcome path root parsed [] r found read e =
      indexed parsed _ read (inl e) (lookup-insert_self path _ r.state) refl refl
  index_parsed-Outcome path root parsed (t ∷ turns) r found read e =
      let answers : (answer : Option ℕ)
          → (add_turns (map (with_root root) (t ∷ turns)) r.index).0 ≡ answer
          → AddAnswers path parsed.turns answer =
        λ answer h.
          (r.index, root, found, ap (λ l. (add_turns (map (with_root root) l) r.index).0) e ∙ h) in
      elim (Option-cases (add_turns (map (with_root root) (t ∷ turns)) r.index).0) [
        | inl raised ↦ rw (raised, index_parsed) (not_added parsed read (answers none raised) refl)
        | inr (count, added) ↦
            rw (added, index_parsed)
              (indexed parsed _ read (inr (count, answers (some count) added))
                (lookup-insert_self path _ r.state) refl refl)
      ]

  index_found-Outcome :
      (path root : String) (r : Run X)
      → project_of path ≡ some root
      → Outcome path r.state
          (index_found file_exists project_of parse with_root add_turns path root r).state
  unfolding index_found
  index_found-Outcome path root r found =
      elim (Option-cases (parse path (get_transcript_offset r.state path))) [
        | inl raised ↦ rw (raised, index_found) (unreadable raised refl)
        | inr (parsed, read) ↦
            rw (read, index_found)
              (index_parsed-Outcome path root parsed parsed.turns r found read refl)
      ]

  index_file-Outcome :
      (path : String) (r : Run X)
      → (run_file path r).0 ≡ true
      → Outcome path r.state (run_file path r).1.state
  unfolding index_file
  index_file-Outcome path r seen = elim (Bool-cases (file_exists path)) [
    | inr missing ↦ rw (missing, index_file) (gone missing refl)
    | inl there ↦ elim (Option-cases (project_of path)) [
      | inl lost ↦ absurd (false≢true (rw (there, lost, index_file) at seen))
      | inr (root, found) ↦ rw (there, found, index_file) (index_found-Outcome path root r found)
    ]
  ]

  -- An outcome looks at the entry of its file alone.
  Outcome-later :
      (path : String) (before after later : IndexState)
      → Dict.lookup path later ≡ Dict.lookup path after
      → Outcome path before after
      → Outcome path before later
  Outcome-later path before after later e (gone missing same) = gone missing (e ∙ same)
  Outcome-later path before after later e (unreadable raised same) = unreadable raised (e ∙ same)
  Outcome-later path before after later e (not_added parsed read raised same) =
      not_added parsed read raised (e ∙ same)
  Outcome-later path before after later e (indexed parsed entry read added there o c) =
      indexed parsed entry read added (e ∙ there) o c

  get_transcript_offset-same :
      (path : String) (s t : IndexState)
      → Dict.lookup path s ≡ Dict.lookup path t
      → get_transcript_offset s path ≡ get_transcript_offset t path
  unfolding get_transcript_offset
  get_transcript_offset-same path s t e = rw (e, get_transcript_offset) refl

  Outcome-earlier :
      (path : String) (before earlier after : IndexState)
      → Dict.lookup path before ≡ Dict.lookup path earlier
      → Outcome path before after
      → Outcome path earlier after
  Outcome-earlier path before earlier after e (gone missing same) = gone missing (same ∙ e)
  Outcome-earlier path before earlier after e (unreadable raised same) =
      unreadable (rw⁻¹ (get_transcript_offset-same path before earlier e) raised) (same ∙ e)
  Outcome-earlier path before earlier after e (not_added parsed read raised same) =
      not_added parsed (rw⁻¹ (get_transcript_offset-same path before earlier e) read) raised
        (same ∙ e)
  Outcome-earlier path before earlier after e (indexed parsed entry read added there o c) =
      indexed parsed entry (rw⁻¹ (get_transcript_offset-same path before earlier e) read) added
        there o c

  abbrev run_batch : List String → Run X → Bool × Run X
  run_batch = index_batch file_exists project_of parse with_root add_turns

  -- A file of a batch whose root could not be looked up.
  abbrev pub Unrooted : List String → Type 0
  Unrooted files =
      (path : String) × (contains files path ≡ true)
      × (file_exists path ≡ true)
      × (project_of path ≡ none)

  index_file-Unrooted :
      (path : String) (r : Run X)
      → (run_file path r).0 ≡ false
      → (file_exists path ≡ true) × (project_of path ≡ none)
  unfolding index_file
  index_file-Unrooted path r stopped = ground (arith, stopped)

  index_batch-Unrooted :
      (files : List String) (r : Run X) → (run_batch files r).0 ≡ false → Unrooted files
  unfolding index_batch
  index_batch-Unrooted [] r stopped = absurd (ground (arith, stopped))
  index_batch-Unrooted (x ∷ files) r stopped = elim (Bool-cases (run_file x r).0) [
    | inr here_stopped ↦ let h = index_file-Unrooted x r here_stopped in (x, ground arith, h.0, h.1)
    | inl goes_on ↦
        let h = index_batch-Unrooted files (run_file x r).1 (ground (arith, stopped, goes_on)) in
        (h.0, ground (arith, h.1), h.2, h.3)
  ]

  seen_first :
      (x : String) (files : List String) (r : Run X)
      → (run_batch (x ∷ files) r).0 ≡ true
      → (run_file x r).0 ≡ true
  unfolding index_batch
  seen_first x files r seen = ground (arith, seen)

  run_rest :
      (x : String) (files : List String) (r : Run X)
      → (run_batch (x ∷ files) r).0 ≡ true
      → run_batch (x ∷ files) r ≡ run_batch files (run_file x r).1
  unfolding index_batch
  run_rest x files r seen = rw (seen_first x files r seen) refl

  last_state : (r : Run X) → (run_batch [] r).1.state ≡ r.state
  unfolding index_batch
  last_state r = refl

  lookup-index_batch_other :
      (path : String) (files : List String) (r : Run X)
      → (run_batch files r).0 ≡ true
      → contains files path ≡ false
      → Dict.lookup path (run_batch files r).1.state ≡ Dict.lookup path r.state
  lookup-index_batch_other path [] r seen absent = ap (Dict.lookup path) (last_state r)
  lookup-index_batch_other path (x ∷ files) r seen absent =
      let rest = run_rest x files r seen in
      ap (λ p. Dict.lookup path p.1.state) rest
      ∙ lookup-index_batch_other path files (run_file x r).1 (sym (ap (λ p. p.0) rest) ∙ seen)
          (ground (arith, absent))
      ∙ lookup-index_file_other path x r (λ same. ground (arith, absent, same))

  index_batch-Outcome :
      (path : String) (files : List String) (r : Run X)
      → Distinct files
      → (run_batch files r).0 ≡ true
      → contains files path ≡ true
      → Outcome path r.state (run_batch files r).1.state
  index_batch-Outcome path [] r different seen among = absurd (ground (arith, among))
  index_batch-Outcome path (x ∷ files) r (fresh, different) seen among =
      let rest = run_rest x files r seen in
      let later_seen = sym (ap (λ p. p.0) rest) ∙ seen in
      let end = (run_batch files (run_file x r).1).1.state in
      subst (λ p. Outcome path r.state p.1.state) (sym rest)
        (elim (string_eq.dec path x) [
          | yes same ↦
              subst (λ y. Outcome y r.state end) (sym same)
                (Outcome-later x r.state (run_file x r).1.state end
                  (lookup-index_batch_other x files (run_file x r).1 later_seen fresh)
                  (index_file-Outcome x r (seen_first x files r seen)))
          | no n ↦
              Outcome-earlier path (run_file x r).1.state r.state end
                (lookup-index_file_other path x r n)
                (index_batch-Outcome path files (run_file x r).1 different later_seen
                  (ground (arith, among, n)))
        ])

  abbrev run_files : List String → IndexState → Bool → Bool → X → Processed X
  run_files = process_files file_exists project_of parse with_root add_turns

  -- A batch of different files that reads and writes its state either ends with its counts, and of each file: it
  -- is gone, or its parse or the indexing of its turns raised, and its saved entry is as it was, so the next change
  -- parses from the same offset; or it was parsed from its offset, its turns, if there are any, were added, and its
  -- entry has the offsets of the parse. Or the batch fails, a file that is there has a root whose lookup
  -- raised, and the whole saved state is as it was.
  pub process_files-Outcome :
      (path : String) (files : List String) (saved : IndexState) (index : X)
      → Distinct files
      → contains files path ≡ true
      → (Outcome path saved (run_files files saved true true index).saved
          × ((run_files files saved true true index).counts ≢ failed))
        ⊎ (Unrooted files
            × ((run_files files saved true true index).saved ≡ saved)
            × ((run_files files saved true true index).counts ≡ failed))
  unfolding process_files
  process_files-Outcome path files saved index different among =
      let r : Run X = record { index = index; state = saved; total_indexed = 0; errors = 0 } in
      elim (Bool-cases (run_batch files r).0) [
        | inl seen ↦
            inl (rw seen (index_batch-Outcome path files r different seen among, λ e. cc e))
        | inr stopped ↦ inr (index_batch-Unrooted files r stopped, rw stopped refl, rw stopped refl)
      ]
