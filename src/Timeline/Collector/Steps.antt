-- ===== src/Timeline/Collector/Steps.antt =====
-- One call of `add`: what is held and what has been let go stay the rows that were offered.
use mathlib.Core.Path.{subst}
use mathlib.Core.List.{append-nil, append_assoc}
use mathlib.Core.Bool.{false≢true}
use session_flow.Base.{
  ℕ, suc, ◌≤◌, ◌<◌, ◌≡◌, ◌≢◌, refl, sym, ap, ◌∙◌, true, false, List, [], ◌∷◌, ◌++◌, ltb, length,
  contains, Eq, ◌==◌, arith, All, All-map, All-append, ◌⊎◌, inl, inr, Bool-cases, All-append_right,
  lt→ltb, ◌||◌,
}
use session_flow.Base.Order.{Order}
use session_flow.Timeline.Collector.{
  Key, Row, Collector, empty, key_of, stamp_or_min, heap_push, add,
}
use session_flow.Timeline.Collector.Laws.{
  Item, docs, contains-discard, Before, Sorted, enter, heap_push-eq-enter, enter-after,
  enter-Before, Has, Has-append, Before-of_Has, enter_present, All-enter, enter-Sorted,
  Before-append_middle, Sorted-append_right,
}

module _ {κ} {D : Type 0} {R : Type κ} ⦃e : Eq D⦄ (o : Order (Key D)) (stamp : D → ℕ) where
  -- The row's time is the one that goes with its doc_id.
  abbrev pub IsStamped : Row D R → Type 0
  IsStamped r = stamp_or_min r.timestamp ≡ stamp r.doc_id

  abbrev pub IsKeyed : Item D R → Type 0
  IsKeyed x = x.0 ≡ (stamp x.1.doc_id, x.1.doc_id)

  -- What the collector holds, beside what it has let go: together all that it was offered.
  pub record Holds (c : Collector D R) (dropped : List (Item D R)) : Type κ where
    pub full : (dropped ≡ []) ⊎ (length c.heap ≡ c.limit)
    pub bounded : length c.heap ≤ c.limit
    pub sorted : Sorted o (dropped ++ c.heap)
    pub keyed : All IsKeyed (dropped ++ c.heap)
    pub ids : (d : D) → contains c.ids d ≡ contains (docs c.heap) d

  pub Holds-empty : (limit : ℕ) → Holds (empty limit) []
  Holds-empty limit = record {
    full = inl refl;
    bounded = omega arith;
    sorted = tt;
    keyed = tt;
    ids = λ d. refl;
  }

  Has-of-contains :
      (x : Item D R) (l : List (Item D R))
      → IsKeyed x
      → All IsKeyed l
      → contains (docs l) x.1.doc_id ≡ true
      → Has o x l
  Has-of-contains x [] kx k h = cc
  Has-of-contains x (y ∷ l) kx (ky, k) h = elim (Bool-cases (x.1.doc_id == y.1.doc_id)) [
    | inl same ↦ inl (ground arith)
    | inr other ↦ inr (Has-of-contains x l kx k (ground arith))
  ]

  -- The items before an item have other doc_ids.
  not_again :
      (m : Item D R) (l : List (Item D R))
      → IsKeyed m
      → All IsKeyed l
      → All (λ y. Before o m y) l
      → contains (docs l) m.1.doc_id ≡ false
  not_again m l km k b = elim (Bool-cases (contains (docs l) m.1.doc_id)) [
    | inl again ↦
        let before = Before-of_Has o m m l b (Has-of-contains m l km k again) in
        absurd (false≢true (sym (o.lt_irrefl m.0) ∙ before))
    | inr other ↦ other
  ]

  ne_of-contains :
      (r : Row D R) (l : List (Item D R))
      → All IsKeyed l
      → contains (docs l) r.doc_id ≡ false
      → All (λ y. key_of r ≢ y.0) l
  ne_of-contains r [] k h = tt
  ne_of-contains r (y ∷ l) (ky, k) h = (λ same. (ground arith), ne_of-contains r l k (ground arith))

  contains-docs-enter :
      (x : Item D R) (l : List (Item D R)) (d : D)
      → contains (docs (heap_push o x l)) d ≡ (d == x.1.doc_id || contains (docs l) d)
  unfolding heap_push
  contains-docs-enter x [] d = refl
  contains-docs-enter x (y ∷ l) d = ground (arith, contains-docs-enter x l d)

  length-heap_push :
      (x : Item D R) (l : List (Item D R)) → length (heap_push o x l) ≡ suc (length l)
  unfolding heap_push
  length-heap_push x [] = refl
  length-heap_push x (y ∷ l) = ground (arith, length-heap_push x l)

  -- One row: the collector afterwards, beside what it has then let go.
  abbrev pub After : Row D R → List (Item D R) → Collector D R → Type κ
  After r all c =
      (dropped : List (Item D R)) × (enter o (key_of r, r) all ≡ dropped ++ c.heap)
      × Holds c dropped

  module _ (r : Row D R) (limit : ℕ) (ids : List D) (stamped : IsStamped r) where
    abbrev with_heap : List (Item D R) → Collector D R
    with_heap heap = record { limit = limit; heap = heap; ids = ids }

    IsKeyed-item : IsKeyed (key_of r, r)
    IsKeyed-item = ground arith

    module _ (heap dropped : List (Item D R)) (h : Holds (with_heap heap) dropped) where
      IsKeyed-heap : All IsKeyed heap
      IsKeyed-heap = All-append_right IsKeyed dropped heap h.keyed

      add_known :
          contains ids r.doc_id ≡ true → After r (dropped ++ heap) (add o (with_heap heap) r)
      unfolding add
      add_known known =
          let has =
            Has-of-contains (key_of r, r) heap IsKeyed-item IsKeyed-heap
              (sym (h.ids r.doc_id) ∙ known) in
          rw known (
            dropped,
            enter_present o (key_of r, r) (dropped ++ heap)
                (Has-append o (key_of r, r) dropped heap has) h.sorted,
            h,
          )

      fresh_keys : contains ids r.doc_id ≡ false → All (λ y. key_of r ≢ y.0) heap
      fresh_keys fresh = ne_of-contains r heap IsKeyed-heap (sym (h.ids r.doc_id) ∙ fresh)

      add_room :
          contains ids r.doc_id ≡ false
          → length heap < limit
          → After r (dropped ++ heap) (add o (with_heap heap) r)
      unfolding add
      add_room fresh room =
          let pushed = heap_push-eq-enter o (key_of r, r) heap (fresh_keys fresh) in
          let none_dropped : dropped ≡ [] = elim h.full [
            | inl e ↦ e
            | inr k ↦ absurd (omega arith)
          ] in
          rw (fresh, lt→ltb _ _ room)
            (
              [],
              ap (λ l. enter o (key_of r, r) (l ++ heap)) none_dropped ∙ sym pushed,
              record {
                full = inl refl;
                bounded = omega (arith, length-heap_push (key_of r, r) heap);
                sorted = rw pushed (
                    enter-Sorted o (key_of r, r) heap
                      (Sorted-append_right o dropped heap h.sorted));
                keyed =
                    rw pushed (All-enter o IsKeyed (key_of r, r) heap IsKeyed-item IsKeyed-heap);
                ids = λ d. ground (arith, h.ids d, contains-docs-enter (key_of r, r) heap d);
              },
            )

    -- A full heap with a first item, and a new row.
    module _ (m : Item D R) (t dropped : List (Item D R)) (h : Holds (with_heap (m ∷ t)) dropped)
        (fresh : contains ids r.doc_id ≡ false) (full : length (m ∷ t) ≡ limit) where
      whole : List (Item D R)
      whole = dropped ++ m ∷ t

      full_test : ltb (length (m ∷ t)) limit ≡ false
      full_test = ground arith

      rejected : o.lt m.0 (key_of r) ≡ false → o.lt (key_of r) m.0 ≡ true
      rejected low = elim (Bool-cases (o.lt (key_of r) m.0)) [
        | inl before ↦ before
        | inr same ↦
            absurd ((fresh_keys (m ∷ t) dropped h fresh).0 (o.lt_total (key_of r) m.0 same low))
      ]

      add_low :
          o.lt m.0 (key_of r) ≡ false → After r (dropped ++ m ∷ t) (add o (with_heap (m ∷ t)) r)
      unfolding add
      add_low low =
          let into = enter-Before o (key_of r, r) m dropped t (rejected low) in
          rw (fresh, full_test, low)
            (
              enter o (key_of r, r) dropped,
              into,
              record {
                full = inr full;
                bounded = omega arith;
                sorted = subst (Sorted o) into (enter-Sorted o (key_of r, r) _ h.sorted);
                keyed =
                    subst (All IsKeyed) into
                      (All-enter o IsKeyed (key_of r, r) _ IsKeyed-item h.keyed);
                ids = h.ids;
              },
            )

      add_high :
          o.lt m.0 (key_of r) ≡ true → After r (dropped ++ m ∷ t) (add o (with_heap (m ∷ t)) r)
      unfolding add
      add_high high =
          let below = Before-append_middle o dropped m t h.sorted in
          let into : enter o (key_of r, r) (dropped ++ m ∷ t)
              ≡ (dropped ++ m ∷ []) ++ heap_push o (key_of r, r) t =
            ap (enter o (key_of r, r)) (sym (append_assoc dropped (m ∷ []) t))
            ∙ enter-after o (key_of r, r) (dropped ++ m ∷ []) t
                (All-append _ dropped (m ∷ [])
                  (All-map (λ y b. o.lt_trans y.0 m.0 (key_of r) b high) dropped below) (high, tt))
            ∙ ap (λ l. (dropped ++ m ∷ []) ++ l)
                (sym
                  (heap_push-eq-enter o (key_of r, r) t (fresh_keys (m ∷ t) dropped h fresh).1)) in
          let keyed = IsKeyed-heap (m ∷ t) dropped h in
          let again =
            not_again m t keyed.0 keyed.1 (Sorted-append_right o dropped (m ∷ t) h.sorted).0 in
          rw (fresh, full_test, high)
            (
              dropped ++ m ∷ [],
              into,
              record {
                full = inr (omega (arith, length-heap_push (key_of r, r) t));
                bounded = omega (arith, length-heap_push (key_of r, r) t);
                sorted = subst (Sorted o) into (enter-Sorted o (key_of r, r) _ h.sorted);
                keyed =
                    subst (All IsKeyed) into
                      (All-enter o IsKeyed (key_of r, r) _ IsKeyed-item h.keyed);
                ids = λ d. ground (
                  arith,
                  h.ids d,
                  contains-docs-enter (key_of r, r) t d,
                  contains-discard m.1.doc_id d ids,
                  again,
                );
              },
            )

      add_full : After r (dropped ++ m ∷ t) (add o (with_heap (m ∷ t)) r)
      add_full = elim (Bool-cases (o.lt m.0 (key_of r))) [
        | inl high ↦ add_high high
        | inr low ↦ add_low low
      ]

    -- A collector of no rows keeps none.
    add_none :
        (dropped : List (Item D R))
        → Holds (with_heap []) dropped
        → contains ids r.doc_id ≡ false
        → 0 ≡ limit
        → After r (dropped ++ []) (add o (with_heap []) r)
    unfolding add
    add_none dropped h fresh full =
        let test : ltb 0 limit ≡ false = ground arith in
        rw (fresh, test)
          (
            enter o (key_of r, r) (dropped ++ []),
            sym (append-nil _),
            record {
              full = inr full;
              bounded = h.bounded;
              sorted =
                  subst (Sorted o) (sym (append-nil _)) (enter-Sorted o (key_of r, r) _ h.sorted);
              keyed =
                  subst (All IsKeyed) (sym (append-nil _))
                    (All-enter o IsKeyed (key_of r, r) _ IsKeyed-item h.keyed);
              ids = h.ids;
            },
          )

    add_fresh :
        (heap dropped : List (Item D R))
        → Holds (with_heap heap) dropped
        → contains ids r.doc_id ≡ false
        → After r (dropped ++ heap) (add o (with_heap heap) r)
    add_fresh [] dropped h fresh = elim (Bool-cases (ltb 0 limit)) [
      | inl room ↦ add_room [] dropped h fresh (ground arith)
      | inr full ↦ add_none dropped h fresh (ground arith)
    ]
    add_fresh (m ∷ t) dropped h fresh = elim (Bool-cases (ltb (length (m ∷ t)) limit)) [
      | inl room ↦ add_room (m ∷ t) dropped h fresh (ground arith)
      | inr full ↦ add_full m t dropped h fresh (ground arith)
    ]

  pub add-After :
      (r : Row D R) (c : Collector D R) (dropped : List (Item D R))
      → IsStamped r
      → Holds c dropped
      → After r (dropped ++ c.heap) (add o c r)
  add-After r c dropped s h = elim (Bool-cases (contains c.ids r.doc_id)) [
    | inl known ↦ add_known r c.limit c.ids s c.heap dropped h known
    | inr fresh ↦ add_fresh r c.limit c.ids s c.heap dropped h fresh
  ]

  pub limit-add : (r : Row D R) (c : Collector D R) → (add o c r).limit ≡ c.limit
  unfolding add
  limit-add r c = ground arith
