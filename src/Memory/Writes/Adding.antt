-- ===== src/Memory/Writes/Adding.antt =====
-- The unique indexes on content hashes and topic keys, under `add`.
use session_flow.Base.{
  ℕ, ◌+◌, ◌≡◌, ◌≢◌, refl, ◌∙◌, ap, inl, inr, String, Bool, true, false, ◌&&◌, Option, none, some,
  List, [], ◌∷◌, ◌==◌, string_eq, nat_eq, option_eq, arith, Bool-cases, Option-cases,
}
use session_flow.Base.Dict
use session_flow.Base.Dict.{Dict, NodupKeys, lookup-insert}
use session_flow.Memory.Record.{MemoryRow, NewMemory, MemoryTables, superseded, replaced}
use session_flow.Memory.Sorted.{sorted_ids}
use session_flow.Memory.Select.{live_in, has_topic, first_row, target_ids, target_rows}
use session_flow.Memory.Change.{apply_change, put_row, supersede, no_changes}
use session_flow.Memory.Writes.{
  rival, resolve, Resolution, two_rows, already_there, topic_moves, nothing_there, committed,
  non_empty, replacement, new_row, add_resolved, add,
}
use session_flow.Memory.Writes.Unique.{
  Rows, IsSound, insert-IsSound, first_row-none, first_row-lookup, apply_change-IsSound, list_cases,
}
use session_flow.Memory.Writes.Standing.{
  sorted_ids-Increasing, Standing, Standing-insert_fresh, target_rows-Standing,
  apply_change-Standing, apply_change-without,
}

no_rival :
    (status : String) (r b : MemoryRow)
    → rival (record no_changes { status = some status }) r b ≡ false
unfolding rival
no_rival status r b = ground arith

supersede-IsSound :
    (clock : ℕ → ℕ) (low : ℕ) (l : List MemoryRow) (s : MemoryTables)
    → IsSound s.memories
    → Standing low l s.memories
    → IsSound (supersede clock l s).memories
unfolding supersede
supersede-IsSound clock low [] s sound i = sound
supersede-IsSound clock low (r ∷ l) s sound (b, there, i) =
    elim (Bool-cases (r.status == "superseded")) [
      | inl already ↦
          rw (already, supersede) (supersede-IsSound clock (r.memory_id + 1) l s sound i)
      | inr not_yet ↦
          let c = record no_changes { status = some "superseded" } in
          rw (not_yet, supersede)
            (supersede-IsSound clock (r.memory_id + 1) l (apply_change clock superseded c r s).1
              (apply_change-IsSound clock superseded c r s sound there
                (λ j b h. no_rival "superseded" r b))
              (apply_change-Standing clock superseded c r l s i))
    ]

-- What the two matches are when a topic's record is replaced.
resolve-topic_moves :
    (rec : NewMemory) (t : MemoryRow) (topic_row hash_row : Option MemoryRow)
    → resolve rec topic_row hash_row ≡ topic_moves t
    → (topic_row ≡ some t)
      × (t.content_hash ≢ rec.content_hash)
      × ((h : MemoryRow) → hash_row ≡ some h → t.memory_id ≡ h.memory_id)
unfolding resolve
resolve-topic_moves rec t none none h = absurd (ground arith)
resolve-topic_moves rec t none (some k) h = absurd (ground arith)
resolve-topic_moves rec t (some a) none h =
    (ground arith, ground arith, λ k e. absurd (ground arith))
resolve-topic_moves rec t (some a) (some b) h = (ground arith, ground arith, λ k e. ground arith)

resolve-nothing_there :
    (rec : NewMemory) (topic_row hash_row : Option MemoryRow)
    → resolve rec topic_row hash_row ≡ nothing_there
    → (topic_row ≡ none) × (hash_row ≡ none)
unfolding resolve
resolve-nothing_there rec none none h = (refl, refl)
resolve-nothing_there rec none (some k) h = absurd (ground arith)
resolve-nothing_there rec (some a) none h = absurd (ground arith)
resolve-nothing_there rec (some a) (some b) h = absurd (ground arith)

-- The two matches that `add` looks for.
abbrev by_topic : NewMemory → Option String → MemoryRow → Bool
by_topic rec topic r = live_in rec.user_id rec.project r && has_topic topic r

abbrev by_hash : NewMemory → MemoryRow → Bool
by_hash rec r = live_in rec.user_id rec.project r && r.content_hash == rec.content_hash

own_row :
    (rows : Rows) (i : ℕ) (r : MemoryRow)
    → IsSound rows
    → Dict.lookup i rows ≡ some r
    → Dict.lookup r.memory_id rows ≡ some r
own_row rows i r sound there = ap (λ k. Dict.lookup k rows) (sound.keyed i r there) ∙ there

hash_is_free :
    (rec : NewMemory) (topic : Option String) (targets : List ℕ) (t : MemoryRow) (rows : Rows)
    → IsSound rows
    → by_topic rec topic t ≡ true
    → ((h : MemoryRow) → first_row (by_hash rec) rows ≡ some h → t.memory_id ≡ h.memory_id)
    → (j : ℕ) (b : MemoryRow) → Dict.lookup j rows ≡ some b
    → rival (replacement rec targets) t b ≡ false
unfolding rival
hash_is_free rec topic targets t rows sound mine one j b there =
    elim (Option-cases (first_row (by_hash rec) rows)) [
      | inl free ↦ ground (arith, first_row-none (by_hash rec) rows j b free there)
      | inr (h, found) ↦
          let (good, i, at) = first_row-lookup (by_hash rec) rows h sound.nodup found in
          ground (
            arith,
            one h found,
            sound.unique j i b h there at,
            sound.keyed j b there,
            sound.keyed i h at,
          )
    ]

add_resolved-IsSound :
    (clock : ℕ → ℕ) (memory_id : ℕ) (rec : NewMemory) (topic : Option String) (targets : List ℕ)
    (l : List MemoryRow) (s : MemoryTables) (found : Resolution)
    → IsSound s.memories
    → Standing 0 l s.memories
    → Dict.lookup memory_id s.memories ≡ none
    → resolve rec (first_row (by_topic rec topic) s.memories) (first_row (by_hash rec) s.memories)
      ≡ found
    → IsSound (committed s (add_resolved clock memory_id rec topic targets l found s)).memories
unfolding add_resolved put_row new_row
add_resolved-IsSound clock memory_id rec topic targets l s (two_rows t h) sound i new e = sound
add_resolved-IsSound clock memory_id rec topic targets l s (already_there r) sound i new e = sound
add_resolved-IsSound clock memory_id rec topic targets l s (topic_moves t) sound i new e =
    let (mine, differs, one) = resolve-topic_moves rec t _ _ e in
    let (good, k, there) = first_row-lookup (by_topic rec topic) s.memories t sound.nodup mine in
    supersede-IsSound clock 0 _ _
      (apply_change-IsSound clock replaced (replacement rec targets) t s sound
        (own_row s.memories k t sound there)
        (hash_is_free rec topic targets t s.memories sound good one))
      (apply_change-without clock replaced (replacement rec targets) t l s i)
add_resolved-IsSound clock memory_id rec topic targets l s nothing_there sound i new e =
    let (no_topic, no_hash) = resolve-nothing_there rec _ _ e in
    let r = new_row clock memory_id rec topic targets s in
    supersede-IsSound clock 0 l (put_row r s)
      (insert-IsSound r s.memories sound (λ j b there clash. absurd (
        ground (
          arith,
          first_row-none (by_topic rec topic) s.memories j b no_topic there,
          first_row-none (by_hash rec) s.memories j b no_hash there,
        ))))
      (Standing-insert_fresh 0 memory_id r l s.memories new i)

-- Adding a record under an id that no record has, whether it is refused, found there already, put
-- in the place of its topic's record, or inserted, and whatever it supersedes, keeps every memory
-- under its own id, and no two live memories of one user and project with the same content hash or
-- topic key.
pub add-IsSound :
    (clock : ℕ → ℕ) (memory_id : ℕ) (rec : NewMemory) (s : MemoryTables)
    → IsSound s.memories
    → Dict.lookup memory_id s.memories ≡ none
    → IsSound (committed s (add clock memory_id rec s)).memories
unfolding add
add-IsSound clock memory_id rec s sound new = elim (Option-cases (target_ids rec.supersedes)) [
  | inl bad ↦ rw (bad, add) sound
  | inr (ids, good) ↦
      let (l, bad) = target_rows rec.user_id rec.project (sorted_ids ids) s.memories in
      elim (list_cases bad) [
        | inr (t, ts, some_bad) ↦ rw (good, some_bad, add) sound
        | inl no_bad ↦
            rw (good, no_bad, add)
              (add_resolved-IsSound clock memory_id rec (non_empty rec.topic_key) (sorted_ids ids) l
                s _ sound
                (target_rows-Standing rec.user_id rec.project 0 (sorted_ids ids) s.memories sound
                  (sorted_ids-Increasing ids))
                new refl)
      ]
]
