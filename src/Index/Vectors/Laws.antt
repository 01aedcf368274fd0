-- ===== src/Index/Vectors/Laws.antt =====
-- What a pass leaves in the collection, and what it acks.
use mathlib.Core.List.{Mem, mem-cons_self, mem-cons_of_mem}
use session_flow.Base.{
  ℕ, ◌≡◌, refl, ap, ◌∙◌, String, Bool, true, false, Option, none, some, List, [], ◌∷◌, ◌==◌,
  string_eq, nat_eq, if◌then◌else◌, ◌⊎◌, inl, inr, arith, Bool-cases, Option-cases,
}
use session_flow.Base.Dict
use session_flow.Memory.Record.{MemoryRow, MemoryTables}
use session_flow.Memory.Select.{is_live}
use session_flow.Memory.Acks.{canonical, is_acked}
use session_flow.Index.Vectors.{
  Collection, vector_row, milvus_write, milvus_consumer, Round, PassEnd, not_done, already_done,
  written, vector_of, apply_milvus,
}

module _ {V : Type 0} (pk : ℕ → ℕ) (cut : String → ℕ → String) (issue_id_max : ℕ)
    (field : String → String → Option String) where
  -- A write of the row under the lock: nothing; the row of a tombstone taken out; or the row of a live record
  -- put in, with a vector that was made for its hash.
  abbrev Wrote :
      ℕ
      → String
      → Option V
      → Bool
      → MemoryTables
      → Collection V
      → Option (MemoryRow × ℕ)
      → Collection V
      → Type 0
  Wrote i hash vector blocks locked c none c' = c' ≡ c
  Wrote i hash vector blocks locked c (some (w, g)) c' =
      (canonical (some i) locked ≡ some (w, g))
      × (((is_live w ≡ false) × (c' ≡ Dict.erase (pk i) c))
          ⊎ ((v : V) × ((vector ≡ some v)
                × ((is_live w ≡ true)
                    × ((w.content_hash ≡ hash)
                        × ((blocks ≡ false)
                            × (c'
                                ≡ Dict.insert (pk i) (vector_row pk cut issue_id_max field w g v)
                                    c)))))))

  milvus_write-Wrote :
      (i : ℕ) (hash : String) (vector : Option V) (blocks : Bool) (locked : MemoryTables)
      (c : Collection V)
      → let result = milvus_write pk cut issue_id_max field i hash vector blocks locked c in
        Wrote i hash vector blocks locked c result.0 result.1
  unfolding milvus_write
  milvus_write-Wrote i hash vector blocks locked c =
      elim (Option-cases (canonical (some i) locked)) [
        | inl missing ↦ rw (missing, milvus_write) refl
        | inr ((r, g), there) ↦ elim (Bool-cases (is_live r)) [
          | inr dead ↦ rw (there, dead, milvus_write) (there, inl (dead, refl))
          | inl live ↦ elim (Option-cases vector) [
            | inl unmade ↦ rw (there, live, unmade, milvus_write) refl
            | inr (v, made) ↦ elim (Bool-cases (r.content_hash == hash)) [
              | inr differs ↦ rw (there, live, made, differs, milvus_write) refl
              | inl same ↦ elim (Bool-cases blocks) [
                | inl refused ↦ rw (there, live, made, same, refused, milvus_write) refl
                | inr allowed ↦
                    rw (there, live, made, same, allowed, milvus_write)
                      (there, inr (v, (refl, (live, (ground arith, (refl, refl))))))
              ]
            ]
          ]
        ]
      ]

module _ {V : Type 0} (pk : ℕ → ℕ) (cut : String → ℕ → String) (issue_id_max : ℕ)
    (field : String → String → Option String) (embed : String → V) where
  -- How a pass leaves the collection: as it was; or, in a round in which the machine was not blocked, with the
  -- row that was locked there: without a tombstone, or with the fields, version and generation of a live
  -- record and the vector of a text that has the record's hash, when the record's model was this machine's.
  pub data Ended (i : ℕ) (rounds : List Round) (c : Collection V)
      : PassEnd → Collection V → Type 0 where
    left : (c' : Collection V) → c' ≡ c → Ended i rounds c not_done c'
    left_to_another : (c' : Collection V) → c' ≡ c → Ended i rounds c already_done c'
    removed :
        (t : Round) (w : MemoryRow) (g : ℕ) (c' : Collection V)
        → Mem t rounds
        → t.blocked ≡ false
        → canonical (some i) t.locked ≡ some (w, g)
        → is_live w ≡ false
        → c' ≡ Dict.erase (pk i) c
        → Ended i rounds c (written w g) c'
    put :
        (t : Round) (w s : MemoryRow) (g h : ℕ) (c' : Collection V)
        → Mem t rounds
        → t.blocked ≡ false
        → t.blocks ≡ false
        → canonical (some i) t.locked ≡ some (w, g)
        → canonical (some i) t.seen ≡ some (s, h)
        → is_live w ≡ true
        → w.content_hash ≡ s.content_hash
        → c' ≡ Dict.insert (pk i) (vector_row pk cut issue_id_max field w g (embed s.text)) c
        → Ended i rounds c (written w g) c'

  abbrev pass : ℕ → List Round → Collection V → PassEnd × Collection V
  pass = apply_milvus pk cut issue_id_max field embed

  Ended-more :
      (i : ℕ) (t : Round) (rounds : List Round) (c c1 : Collection V) (e : PassEnd)
      (c' : Collection V)
      → c1 ≡ c
      → Ended i rounds c1 e c'
      → Ended i (t ∷ rounds) c e c'
  Ended-more i t rounds c c1 _ _ same (left c' k) = left c' (k ∙ same)
  Ended-more i t rounds c c1 _ _ same (left_to_another c' k) = left_to_another c' (k ∙ same)
  Ended-more i t rounds c c1 _ _ same (removed u w g c' m b l d k) =
      removed u w g c' (mem-cons_of_mem t m) b l d (k ∙ ap (λ x. Dict.erase (pk i) x) same)
  Ended-more i t rounds c c1 _ _ same (put u w s g h c' m b bs l sn lv hh k) =
      put u w s g h c' (mem-cons_of_mem t m) b bs l sn lv hh (
        k
        ∙ ap (λ x. Dict.insert (pk i) (vector_row pk cut issue_id_max field w g (embed s.text)) x)
            same)

  made_of :
      (s : MemoryRow) (v : V)
      → vector_of pk cut issue_id_max field embed s ≡ some v
      → v ≡ embed s.text
  made_of s v made = ground (arith, made)

  -- The end of a round after its write.
  after_write :
      (i : ℕ) (t : Round) (rounds : List Round) (s : MemoryRow) (h : ℕ) (c : Collection V)
      (answer : Option (MemoryRow × ℕ)) (c1 : Collection V)
      → t.blocked ≡ false
      → canonical (some i) t.seen ≡ some (s, h)
      → Wrote pk cut issue_id_max field i s.content_hash
          (vector_of pk cut issue_id_max field embed s)
          t.blocks
          t.locked
          c
          answer
          c1
      → ((d : Collection V) → Ended i rounds d (pass i rounds d).0 (pass i rounds d).1)
      → let result : PassEnd × Collection V = elim answer [
        | none ↦ pass i rounds c1
        | some (w, g) ↦ (written w g, c1)
      ] in
        Ended i (t ∷ rounds) c result.0 result.1
  after_write i t rounds s h c none c1 b sn wrote rest =
      Ended-more i t rounds c c1 _ _ wrote (rest c1)
  after_write i t rounds s h c (some (w, g)) c1 b sn (there, inl (dead, k)) rest =
      removed t w g c1 mem-cons_self b there dead k
  after_write i t rounds s h c (some (w, g)) c1 b sn (there, inr (v, (made, (live, (hh, (bs, k))))))
        rest =
      put t w s g h c1 mem-cons_self b bs there sn live hh (
        k
        ∙ ap (λ x. Dict.insert (pk i) (vector_row pk cut issue_id_max field w g x) c)
            (made_of s v made))

  after_seen :
      (i : ℕ) (t : Round) (rounds : List Round) (s : MemoryRow) (h : ℕ) (c : Collection V)
      (done : Bool)
      → t.blocked ≡ false
      → canonical (some i) t.seen ≡ some (s, h)
      → ((d : Collection V) → Ended i rounds d (pass i rounds d).0 (pass i rounds d).1)
      → let wrote =
          milvus_write pk cut issue_id_max field i s.content_hash
            (vector_of pk cut issue_id_max field embed s)
            t.blocks
            t.locked
            c in
        let result : PassEnd × Collection V = if done then (already_done, c) else elim wrote.0 [
          | none ↦ pass i rounds wrote.1
          | some (w, g) ↦ (written w g, wrote.1)
        ] in
        Ended i (t ∷ rounds) c result.0 result.1
  after_seen i t rounds s h c true b sn rest = left_to_another c refl
  after_seen i t rounds s h c false b sn rest =
      after_write i t rounds s h c _ _ b sn
        (milvus_write-Wrote pk cut issue_id_max field i s.content_hash
          (vector_of pk cut issue_id_max field embed s) t.blocks t.locked c)
        rest

  in_round :
      (i : ℕ) (t : Round) (rounds : List Round) (c : Collection V) (blocked : Bool)
      (seen : Option (MemoryRow × ℕ))
      → t.blocked ≡ blocked
      → canonical (some i) t.seen ≡ seen
      → ((d : Collection V) → Ended i rounds d (pass i rounds d).0 (pass i rounds d).1)
      → let result : PassEnd × Collection V = if blocked then (not_done, c) else elim seen [
        | none ↦ (not_done, c)
        | some (s, h) ↦
            if is_acked milvus_consumer i s.version h t.acked
            then (already_done, c)
            else let wrote =
                milvus_write pk cut issue_id_max field i s.content_hash
                  (vector_of pk cut issue_id_max field embed s)
                  t.blocks
                  t.locked
                  c in
              elim wrote.0 [ none ↦ pass i rounds wrote.1 | some (w, g) ↦ (written w g, wrote.1) ]
      ] in
        Ended i (t ∷ rounds) c result.0 result.1
  in_round i t rounds c true seen b sn rest = left c refl
  in_round i t rounds c false none b sn rest = left c refl
  in_round i t rounds c false (some (s, h)) b sn rest =
      after_seen i t rounds s h c (is_acked milvus_consumer i s.version h t.acked) b sn rest

  -- A pass over the vectors of a memory, whatever the store does between its reads, leaves the collection
  -- as it was, or ends with a record and a generation that it read under the lock, and then the
  -- collection has that version of the record: no row for a tombstone, and else the fields of the record with
  -- the vector of a text that has the record's hash. It writes only where the machine is not blocked
  -- and the model of the locked record is its own.
  pub apply_milvus-Ended :
      (i : ℕ) (rounds : List Round) (c : Collection V)
      → Ended i rounds c
          (apply_milvus pk cut issue_id_max field embed i rounds c).0
          (apply_milvus pk cut issue_id_max field embed i rounds c).1
  unfolding apply_milvus
  apply_milvus-Ended i [] c = left c refl
  apply_milvus-Ended i (t ∷ rounds) c =
      in_round i t rounds c t.blocked (canonical (some i) t.seen) refl refl
        (apply_milvus-Ended i rounds)
