-- ===== src/Timeline/Collector/Newest.antt =====
-- The rows that a collector returns.
use mathlib.Core.List.{reverse, reverse-append, map-append, append-nil}
use session_flow.Base.{
  ℕ, ◌≡◌, refl, sym, ap, ◌∙◌, List, [], ◌∷◌, ◌++◌, map, length, take, Eq, arith, All, inl, inr,
  length-append, length-map, take_all, take-append_exact,
}
use session_flow.Base.Order.{Order}
use session_flow.Timeline.Collector.{Key, Row, Collector, empty, key_of, add, add_all, result}
use session_flow.Timeline.Collector.Laws.{Item, enter}
use session_flow.Timeline.Collector.Steps.{IsStamped, Holds, Holds-empty, add-After, limit-add}

length-reverse {ℓ} : {A : Type ℓ} (l : List A) → length (reverse l) ≡ length l
length-reverse [] = refl
length-reverse (x ∷ l) =
    ap length (reverse-append (x ∷ []) l)
    ∙ omega (arith, length-append (reverse l) (x ∷ []), length-reverse l)

abbrev pub rows_of {ℓ κ} : {D : Type ℓ} {R : Type κ} → List (Item D R) → List (Row D R)
rows_of = map (λ (_, row). row)

module _ {κ} {D : Type 0} {R : Type κ} ⦃e : Eq D⦄ (o : Order (Key D)) where
  -- The distinct rows of a stream in the heap's order; of two with one doc_id the first is kept.
  unfoldable pub ranked_onto : List (Item D R) → List (Row D R) → List (Item D R)
  ranked_onto l [] = l
  ranked_onto l (r ∷ rows) = ranked_onto (enter o (key_of r, r) l) rows

  module _ (stamp : D → ℕ) where
    add_all-Holds :
        (c : Collector D R) (dropped : List (Item D R)) (rows : List (Row D R))
        → All (IsStamped o stamp) rows
        → Holds o stamp c dropped
        → (left : List (Item D R)) × (ranked_onto (dropped ++ c.heap) rows
            ≡ left ++ (add_all o c rows).heap)
          × Holds o stamp (add_all o c rows) left
          × ((add_all o c rows).limit ≡ c.limit)
    unfolding add_all ranked_onto
    add_all-Holds c dropped [] s h = (dropped, refl, h, refl)
    add_all-Holds c dropped (r ∷ rows) (sr, s) h =
        let (once, e, h') = add-After o stamp r c dropped sr h in
        let (left, e', h'', k) = add_all-Holds (add o c r) once rows s h' in
        (left, ap (λ l. ranked_onto l rows) e ∙ e', h'', k ∙ limit-add o stamp r c)

    -- Where the rows of one doc_id have one time, the result is the first `limit` of all the
    -- distinct rows of the stream, from the last in the heap's order down.
    pub result-add_all :
        (limit : ℕ) (rows : List (Row D R))
        → All (IsStamped o stamp) rows
        → result o (add_all o (empty limit) rows)
          ≡ take limit (rows_of (reverse (ranked_onto [] rows)))
    unfolding result
    result-add_all limit rows s =
        let (left, e, h, k) = add_all-Holds (empty limit) [] rows s (Holds-empty o stamp limit) in
        let heap = (add_all o (empty limit) rows).heap in
        let kept = rows_of (reverse heap) in
        let count : length kept ≡ length heap =
          length-map (λ (x : Item D R). x.1) (reverse heap) ∙ length-reverse heap in
        let split : rows_of (reverse (ranked_onto [] rows)) ≡ kept ++ rows_of (reverse left) =
          ap (λ l. rows_of (reverse l)) e
          ∙ ap rows_of (reverse-append left heap)
          ∙ map-append _ (reverse heap) (reverse left) in
        elim h.full [
          | inl nothing ↦ sym (
              ap (take limit)
                (split ∙ ap (λ l. kept ++ rows_of (reverse l)) nothing ∙ append-nil kept)
              ∙ take_all limit kept (omega (arith, h.bounded)))
          | inr full ↦ sym (
              ap (take limit) split
              ∙ take-append_exact limit kept (rows_of (reverse left)) (omega arith))
        ]
