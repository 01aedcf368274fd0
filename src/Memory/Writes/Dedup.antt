-- ===== src/Memory/Writes/Dedup.antt =====
-- `add` for a record that is there already.
use session_flow.Base.{
  ℕ, ◌≡◌, refl, sym, ◌∙◌, ap, ◌⊎◌, inl, inr, String, Bool, true, ◌&&◌, Option, none, some, [], ◌==◌,
  string_eq, nat_eq, option_eq, arith, Option-cases,
}
use session_flow.Base.Dict
use session_flow.Base.Dict.{Dict}
use session_flow.Memory.Record.{MemoryRow, NewMemory, MemoryTables, deduplicated}
use session_flow.Memory.Sorted.{sorted_ids}
use session_flow.Memory.Select.{live_in, has_topic, first_row, target_ids, target_rows}
use session_flow.Memory.Change.{result_of}
use session_flow.Memory.Writes.{non_empty, resolve, already_there, add_resolved, add}
use session_flow.Memory.Writes.Unique.{Rows, IsSound, clashes, first_row-none, first_row-lookup}

-- In a sound table the first match is the one row that every match would clash with.
first_row-only :
    (p : MemoryRow → Bool) (rows : Rows) (b : MemoryRow)
    → IsSound rows
    → Dict.lookup b.memory_id rows ≡ some b
    → p b ≡ true
    → ((r : MemoryRow) → p r ≡ true → clashes b r ≡ true)
    → first_row p rows ≡ some b
first_row-only p rows b sound there good alone = elim (Option-cases (first_row p rows)) [
  | inl missing ↦ absurd (ground (arith, first_row-none p rows b.memory_id b missing there))
  | inr (r, found) ↦
      let (fits, i, at) = first_row-lookup p rows r sound.nodup found in
      let same : b.memory_id ≡ i = sound.unique b.memory_id i b r there at (alone r fits) in
      found ∙ sym at ∙ sym (ap (λ k. Dict.lookup k rows) same) ∙ there
]

abbrev pub SameTopic : Option String → MemoryRow → Type 0
SameTopic none b = Unit
SameTopic (some k) b = b.topic_key ≡ some k

abbrev by_topic : NewMemory → Option String → MemoryRow → Bool
by_topic rec topic r = live_in rec.user_id rec.project r && has_topic topic r

abbrev by_hash : NewMemory → MemoryRow → Bool
by_hash rec r = live_in rec.user_id rec.project r && r.content_hash == rec.content_hash

topic_match :
    (rec : NewMemory) (topic : Option String) (rows : Rows) (b : MemoryRow)
    → IsSound rows
    → Dict.lookup b.memory_id rows ≡ some b
    → live_in rec.user_id rec.project b ≡ true
    → SameTopic topic b
    → (first_row (by_topic rec topic) rows ≡ none) ⊎ (first_row (by_topic rec topic) rows ≡ some b)
topic_match rec none rows b sound there live same =
    elim (Option-cases (first_row (by_topic rec none) rows)) [
      | inl missing ↦ inl missing
      | inr (r, found) ↦
          let (fits, i, at) = first_row-lookup (by_topic rec none) rows r sound.nodup found in
          absurd (ground arith)
    ]
topic_match rec (some k) rows b sound there live same = inr (
    first_row-only (by_topic rec (some k)) rows b sound there (ground arith)
      (λ r fits. ground arith))

resolve-already_there :
    (rec : NewMemory) (b : MemoryRow) (topic_row : Option MemoryRow)
    → b.content_hash ≡ rec.content_hash
    → (topic_row ≡ none) ⊎ (topic_row ≡ some b)
    → resolve rec topic_row (some b) ≡ already_there b
unfolding resolve
resolve-already_there rec b none hash match = refl
resolve-already_there rec b (some t) hash (inl e) = absurd (ground arith)
resolve-already_there rec b (some t) hash (inr e) = ground arith

-- In a table in which no two live memories of one scope share a hash or a topic key, adding a record
-- that supersedes nothing, whose hash a live memory of its user and project has, and whose topic key
-- is that memory's or none, changes nothing and returns that memory as a duplicate.
pub add-deduplicated :
    (clock : ℕ → ℕ) (memory_id : ℕ) (rec : NewMemory) (s : MemoryTables) (b : MemoryRow)
    → IsSound s.memories
    → Dict.lookup b.memory_id s.memories ≡ some b
    → live_in rec.user_id rec.project b ≡ true
    → b.content_hash ≡ rec.content_hash
    → SameTopic (non_empty rec.topic_key) b
    → rec.supersedes ≡ []
    → add clock memory_id rec s ≡ inr (result_of deduplicated b, s)
unfolding add add_resolved target_ids target_rows sorted_ids
add-deduplicated clock memory_id rec s b sound there live hash topic alone =
    let hash_row =
      first_row-only (by_hash rec) s.memories b sound there (ground arith)
        (λ r fits. ground arith) in
    let topic_row = topic_match rec (non_empty rec.topic_key) s.memories b sound there live topic in
    let resolved =
      ap (λ h. resolve rec (first_row (by_topic rec (non_empty rec.topic_key)) s.memories) h)
        hash_row
      ∙ resolve-already_there rec b _ hash topic_row in
    rw (alone, resolved, add) refl
