-- ===== src/Timeline/Collector.antt =====
-- `_NewestN` and `_OldestN` of rag_engine.py: the newest, or the oldest, `limit` rows of a stream.
-- Both keep a heap whose first item is the next to be evicted. `heapq` is modelled by a list in
-- the heap's order, so its first item is the smallest. The source writes the class twice, with the
-- order turned round; here the order is a parameter.
pub mod Laws
pub mod Steps
pub mod Newest
use mathlib.Core.List.{reverse}
use session_flow.Base.{
  ℕ, Bool, true, false, Option, none, some, List, [], ◌∷◌, map, ltb, length, contains, Eq, ◌==◌,
  if◌then◌else◌,
}
use session_flow.Base.Order.{Order, flip, pair_order, nat_order}

-- `parsed or datetime.min`, with the time in microseconds after `datetime.min`, and the doc_id.
abbrev pub Key {ℓ} : Type ℓ → Type ℓ
Key D = ℕ × D

abbrev pub stamp_or_min : Option ℕ → ℕ
stamp_or_min none = 0
stamp_or_min (some t) = t

pub record Row {ℓ κ} (D : Type ℓ) (R : Type κ) : Type (ℓ ⊔ κ) where
  pub doc_id : D
  -- what `_parse_timestamp_utc` makes of the row's timestamp
  pub timestamp : Option ℕ
  pub fields : R

module _ {ℓ κ} {D : Type ℓ} {R : Type κ} where
  abbrev pub key_of : Row D R → Key D
  key_of r = (stamp_or_min r.timestamp, r.doc_id)

pub record Collector {ℓ κ} (D : Type ℓ) (R : Type κ) : Type (ℓ ⊔ κ) where
  pub limit : ℕ
  pub heap : List (Key D × Row D R)
  pub ids : List D

module _ {ℓ κ} {D : Type ℓ} {R : Type κ} where
  abbrev pub empty : ℕ → Collector D R
  empty limit = record { limit = limit; heap = []; ids = [] }

-- `self._ids.discard(doc_id)`
unfoldable pub discard {ℓ} : {D : Type ℓ} ⦃e : Eq D⦄ → D → List D → List D
discard d [] = []
discard d (x ∷ xs) = let rest = discard d xs in if d == x then rest else x ∷ rest

-- The order of the heap of `_NewestN`, and that of `_ReverseKey`.
abbrev pub newest_order {ℓ} : {D : Type ℓ} → Order D → Order (Key D)
newest_order ids = pair_order nat_order ids

abbrev pub oldest_order {ℓ} : {D : Type ℓ} → Order D → Order (Key D)
oldest_order ids = flip (newest_order ids)

module _ {ℓ κ} {D : Type ℓ} {R : Type κ} ⦃e : Eq D⦄ (o : Order (Key D)) where
  -- `heapq.heappush`
  unfoldable pub heap_push : Key D × Row D R → List (Key D × Row D R) → List (Key D × Row D R)
  heap_push x [] = x ∷ []
  heap_push x (y ∷ l) = if o.lt x.0 y.0 then x ∷ y ∷ l else y ∷ heap_push x l

  -- A full heap gives up its first item for a row that comes after it.
  unfoldable pub evict : Collector D R → Key D → Row D R → List (Key D × Row D R) → Collector D R
  evict c key row [] = c
  evict c key row (first ∷ others) =
      if o.lt first.0 key
      then record c {
        heap = heap_push (key, row) others;
        ids = row.doc_id ∷ discard first.1.doc_id c.ids;
      }
      else c

  unfoldable pub add : Collector D R → Row D R → Collector D R
  unfolding heap_push discard evict
  add c row =
      let key = key_of row in
      if contains c.ids row.doc_id
      then c
      else if ltb (length c.heap) c.limit
      then record c { heap = heap_push (key, row) c.heap; ids = row.doc_id ∷ c.ids }
      else evict c key row c.heap

  unfoldable pub add_all : Collector D R → List (Row D R) → Collector D R
  unfolding add
  add_all c [] = c
  add_all c (row ∷ rows) = add_all (add c row) rows

  -- The rows from the last in the heap's order to the first.
  unfoldable pub result : Collector D R → List (Row D R)
  result c = map (λ (_, row). row) (reverse c.heap)
