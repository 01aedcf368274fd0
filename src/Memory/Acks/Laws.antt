-- ===== src/Memory/Acks/Laws.antt =====
-- What a consumer holds after an ack, and after a write.
use session_flow.Base.{
  ℕ, ◌+◌, ◌≡◌, ◌≢◌, ◌⊎◌, ◌≤◌, ◌<◌, inl, inr, refl, sym, String, Bool, true, false, not, Option,
  none, some, List, [], ◌∷◌, ◌++◌, keep, ◌==◌, string_eq, nat_eq, arith, Option-cases,
}
use session_flow.Base.Dict
use session_flow.Base.Dict.{Dict, lookup-insert}
use session_flow.Memory.Record.{MemoryRow, IndexAck, MemoryTables, Changes, Outcome}
use session_flow.Memory.Change.{apply_change, changed_row, put_row, reset_row_acks, no_effect}
use session_flow.Memory.Acks.{is_older, find_ack, upsert_ack, ack, is_behind}

-- A consumer holds a version at a generation, or a later one.
abbrev pub NotOlder : IndexAck → IndexAck → Type 0
NotOlder a b = (a.version < b.version) ⊎ ((a.version ≡ b.version) × (a.generation ≤ b.generation))

abbrev pub Advanced : Option IndexAck → Option IndexAck → Type 0
Advanced none after = Unit
Advanced (some a) none = ⊥
Advanced (some a) (some b) = NotOlder a b

upsert_ack-Advanced :
    (new : IndexAck) (consumer : String) (memory_id : ℕ) (acks : List IndexAck)
    → Advanced
        (find_ack consumer memory_id acks)
        (find_ack consumer memory_id (upsert_ack new acks).1)
unfolding upsert_ack find_ack is_older
upsert_ack-Advanced new consumer memory_id [] = tt
upsert_ack-Advanced new consumer memory_id (a ∷ acks) =
    ground (arith, upsert_ack-Advanced new consumer memory_id acks)

pub Advanced-refl : (o : Option IndexAck) → Advanced o o
Advanced-refl none = tt
Advanced-refl (some a) = inr (refl, omega arith)

-- No ack takes back what a consumer holds of a memory: after any ack, of the same consumer and
-- memory or of others, it still holds it, at the same version and generation or at later ones.
pub ack-Advanced :
    (new : IndexAck) (consumer : String) (memory_id : ℕ) (s : MemoryTables)
    → Advanced
        (find_ack consumer memory_id s.memory_index_acks)
        (find_ack consumer memory_id (ack new s).1.memory_index_acks)
unfolding ack
ack-Advanced new consumer memory_id s = elim (Option-cases (Dict.lookup new.memory_id s.memories)) [
  | inl gone ↦ rw (gone, ack) (Advanced-refl (find_ack consumer memory_id s.memory_index_acks))
  | inr (r, there) ↦
      rw (there, ack) (upsert_ack-Advanced new consumer memory_id s.memory_index_acks)
]

abbrev HeldAtLeast : IndexAck → Option IndexAck → Type 0
HeldAtLeast new none = ⊥
HeldAtLeast new (some b) = NotOlder new b

find-upsert_ack :
    (new : IndexAck) (acks : List IndexAck)
    → HeldAtLeast new (find_ack new.consumer new.memory_id (upsert_ack new acks).1)
unfolding upsert_ack find_ack is_older
find-upsert_ack new [] = ground arith
find-upsert_ack new (a ∷ acks) = ground (arith, find-upsert_ack new acks)

-- A consumer holds no version above a number.
abbrev pub HeldAtMost : ℕ → Option IndexAck → Type 0
HeldAtMost version none = Unit
HeldAtMost version (some a) = a.version ≤ version

upsert_ack-HeldAtMost :
    (new : IndexAck) (acks : List IndexAck)
    → HeldAtMost new.version (find_ack new.consumer new.memory_id acks)
    → HeldAtMost new.version (find_ack new.consumer new.memory_id (upsert_ack new acks).1)
unfolding upsert_ack find_ack is_older
upsert_ack-HeldAtMost new [] h = ground arith
upsert_ack-HeldAtMost new (a ∷ acks) h = ground (arith, upsert_ack-HeldAtMost new acks)

ack-HeldAtLeast :
    (new : IndexAck) (r : MemoryRow) (s : MemoryTables)
    → Dict.lookup new.memory_id s.memories ≡ some r
    → HeldAtLeast new (find_ack new.consumer new.memory_id (ack new s).1.memory_index_acks)
unfolding ack
ack-HeldAtLeast new r s there = rw (there, ack) (find-upsert_ack new s.memory_index_acks)

ack-HeldAtMost :
    (new : IndexAck) (r : MemoryRow) (s : MemoryTables)
    → Dict.lookup new.memory_id s.memories ≡ some r
    → HeldAtMost new.version (find_ack new.consumer new.memory_id s.memory_index_acks)
    → HeldAtMost new.version (find_ack new.consumer new.memory_id (ack new s).1.memory_index_acks)
unfolding ack
ack-HeldAtMost new r s there h = rw (there, ack) (upsert_ack-HeldAtMost new s.memory_index_acks h)

generation-ack : (new : IndexAck) (s : MemoryTables) → (ack new s).1.generation ≡ s.generation
unfolding ack
generation-ack new s = ground arith

pub is_behind_of_held :
    (new : IndexAck) (consumer : String) (r : MemoryRow) (s : MemoryTables)
    → HeldAtLeast new (find_ack consumer r.memory_id s.memory_index_acks)
    → HeldAtMost new.version (find_ack consumer r.memory_id s.memory_index_acks)
    → new.version ≡ r.version
    → new.generation ≡ s.generation
    → is_behind consumer s r ≡ false
unfolding is_behind
is_behind_of_held new consumer r s held most v g =
    elim (Option-cases (find_ack consumer r.memory_id s.memory_index_acks)) [
      | inl missing ↦ absurd (rw missing at held)
      | inr (b, e) ↦
          let q : NotOlder new b = rw e at held in
          let top : b.version ≤ new.version = rw e at most in ground arith
    ]

pub is_behind_of_none :
    (consumer : String) (r : MemoryRow) (s : MemoryTables)
    → find_ack consumer r.memory_id s.memory_index_acks ≡ none
    → is_behind consumer s r ≡ true
unfolding is_behind
is_behind_of_none consumer r s h = ground arith

abbrev pub ack_of : String → MemoryRow → Bool → MemoryTables → IndexAck
ack_of consumer r deleted s = record {
  consumer = consumer;
  memory_id = r.memory_id;
  version = r.version;
  generation = s.generation;
  deleted = deleted;
}

-- A consumer that holds no later version than that of a row of the store, and acks that version at
-- the current generation, is then not behind on the row.
pub ack-not_behind :
    (consumer : String) (r : MemoryRow) (deleted : Bool) (s : MemoryTables)
    → Dict.lookup r.memory_id s.memories ≡ some r
    → HeldAtMost r.version (find_ack consumer r.memory_id s.memory_index_acks)
    → is_behind consumer (ack (ack_of consumer r deleted s) s).1 r ≡ false
ack-not_behind consumer r deleted s there most =
    let new = ack_of consumer r deleted s in
    is_behind_of_held new consumer r (ack new s).1 (ack-HeldAtLeast new r s there)
      (ack-HeldAtMost new r s there most) refl (sym (generation-ack new s))

pub find-reset :
    (consumer : String) (memory_id : ℕ) (acks : List IndexAck)
    → find_ack consumer memory_id (keep (λ (a : IndexAck). not (a.memory_id == memory_id)) acks)
      ≡ none
unfolding find_ack
find-reset consumer memory_id [] = refl
find-reset consumer memory_id (a ∷ acks) = ground (arith, find-reset consumer memory_id acks)

pub find-reset_other :
    (consumer : String) (memory_id other : ℕ) (acks : List IndexAck)
    → other ≢ memory_id
    → find_ack consumer other (keep (λ (a : IndexAck). not (a.memory_id == memory_id)) acks)
      ≡ find_ack consumer other acks
unfolding find_ack
find-reset_other consumer memory_id other [] n = refl
find-reset_other consumer memory_id other (a ∷ acks) n =
    ground (arith, find-reset_other consumer memory_id other acks n)

-- A change that has an effect takes the row to the next version, gives it a snapshot, and leaves
-- every consumer behind on it; what the consumers hold of other memories stays.
pub apply_change-is_behind :
    (clock : ℕ → ℕ) (outcome : Outcome) (c : Changes) (r : MemoryRow) (s : MemoryTables)
    → no_effect c r ≡ false
    → let s' = (apply_change clock outcome c r s).1 in
      let r' = changed_row clock c r s in
      (Dict.lookup r.memory_id s'.memories ≡ some r')
      × (r'.version ≡ r.version + 1)
      × (s'.memory_versions ≡ s.memory_versions ++ r' ∷ [])
      × ((consumer : String) → is_behind consumer s' r' ≡ true)
      × ((consumer : String) (other : ℕ)
          → other ≢ r.memory_id
          → find_ack consumer other s'.memory_index_acks
            ≡ find_ack consumer other s.memory_index_acks)
unfolding apply_change changed_row put_row reset_row_acks
apply_change-is_behind clock outcome c r s effect = rw effect (
  rw lookup-insert (ground arith),
  refl,
  refl,
  λ consumer. is_behind_of_none consumer _ _ (find-reset consumer r.memory_id s.memory_index_acks),
  λ consumer other n. find-reset_other consumer r.memory_id other s.memory_index_acks n,
)
