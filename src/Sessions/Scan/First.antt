-- ===== src/Sessions/Scan/First.antt =====
-- The bounded heap of the earliest turns.
use session_flow.Base.{
  ℕ, zero, suc, ◌≡◌, ◌≤◌, ◌<◌, refl, sym, ap, ◌∙◌, true, false, List, [], ◌∷◌, ltb, length, take,
  take_all, arith, Bool-cases, inl, inr, All, All-map, length-take, take-nil,
}
use session_flow.Base.Order.{Order}
use session_flow.Sessions.Scan.{heap_push, heap_first, add_first}

module _ {ℓ} {A : Type ℓ} (o : Order A) where
  -- A list in falling order.
  abbrev pub Falling : List A → Type 0
  Falling [] = Unit
  Falling (x ∷ l) = All (λ y. o.lt x y ≡ false) l × Falling l

  take-take_longer : (n : ℕ) (l : List A) → take n (take (suc n) l) ≡ take n l
  take-take_longer zero l = refl
  take-take_longer (suc n) [] = refl
  take-take_longer (suc n) (x ∷ l) = ap (λ t. x ∷ t) (take-take_longer n l)

  take_over_cut : (n : ℕ) (x : A) (l : List A) → take n (x ∷ take n l) ≡ take n (x ∷ l)
  take_over_cut zero x l = refl
  take_over_cut (suc n) x l = ap (λ t. x ∷ t) (take-take_longer n l)

  -- A push past a cut does not change the cut.
  take-heap_push :
      (n : ℕ) (e : A) (l : List A) → take n (heap_push o e (take n l)) ≡ take n (heap_push o e l)
  unfolding heap_push
  take-heap_push zero e l = refl
  take-heap_push (suc n) e [] = refl
  take-heap_push (suc n) e (x ∷ l) = elim (Bool-cases (o.lt x e)) [
    | inl over ↦ rw over (ap (λ t. e ∷ t) (take_over_cut n x l))
    | inr under ↦ rw under (ap (λ t. x ∷ t) (take-heap_push n e l))
  ]

  -- All but the heap's first item.
  heap_first-take : (x : A) (l : List A) → (heap_first o x l).1 ≡ take (length l) (x ∷ l)
  unfolding heap_first
  heap_first-take x [] = refl
  heap_first-take x (y ∷ l) = ap (λ t. x ∷ t) (heap_first-take y l)

  -- The item that a full heap gives up is the one that a push moves past the cut.
  replace_first :
      (e x : A) (l : List A)
      → o.lt (heap_first o x l).0 e ≡ true
      → heap_push o e (heap_first o x l).1 ≡ take (length (x ∷ l)) (heap_push o e (x ∷ l))
  unfolding heap_push heap_first
  replace_first e x [] h = ground (arith, h)
  replace_first e x (y ∷ l) h = elim (Bool-cases (o.lt x e)) [
    | inl over ↦ rw over (ap (λ t. e ∷ x ∷ t) (heap_first-take y l))
    | inr under ↦ rw under (ap (λ t. x ∷ t) (replace_first e y l h))
  ]

  All-heap_first : (P : A → Type 0) (x : A) (l : List A) → P x → All P l → P (heap_first o x l).0
  unfolding heap_first
  All-heap_first P x [] px pl = px
  All-heap_first P x (y ∷ l) px (py, pl) = All-heap_first P y l py pl

  keep_first :
      (e x : A) (l : List A)
      → Falling (x ∷ l)
      → o.lt (heap_first o x l).0 e ≡ false
      → take (length (x ∷ l)) (heap_push o e (x ∷ l)) ≡ x ∷ l
  unfolding heap_push heap_first
  keep_first e x [] f h = ground (arith, h)
  keep_first e x (y ∷ l) (top, f) h =
      let last = (heap_first o y l).0 in
      let over_last : o.lt x last ≡ false =
        All-heap_first (λ z. o.lt x z ≡ false) y l top.0 top.1 in
      let under : o.lt x e ≡ false =
        ground (arith, o.lt_trans x e last, o.lt_total last e, h, over_last) in
      rw under (ap (λ t. x ∷ t) (keep_first e y l f h))

  length-heap_push : (e : A) (l : List A) → length (heap_push o e l) ≡ suc (length l)
  unfolding heap_push
  length-heap_push e [] = refl
  length-heap_push e (x ∷ l) = ground (arith, length-heap_push e l)

  add_first-take :
      (n : ℕ) (e : A) (l : List A)
      → 0 < n
      → length l ≤ n
      → Falling l
      → add_first o n e l ≡ take n (heap_push o e l)
  unfolding add_first heap_push
  add_first-take zero e [] some_room fits f = elim some_room [ ]
  add_first-take (suc n) e [] some_room fits f = ap (λ t. e ∷ t) (sym (take-nil n))
  add_first-take n e (x ∷ l) some_room fits f = elim (Bool-cases (ltb (length (x ∷ l)) n)) [
    | inl room ↦
        rw (room, add_first)
          (sym
            (take_all n (heap_push o e (x ∷ l)) (ground (arith, length-heap_push e (x ∷ l), room))))
    | inr full ↦
        let cut : length (x ∷ l) ≡ n = ground (arith, full, fits) in
        elim (Bool-cases (o.lt (heap_first o x l).0 e)) [
          | inl over ↦
              rw (full, over, add_first)
                (replace_first e x l over ∙ ap (λ k. take k (heap_push o e (x ∷ l))) cut)
          | inr under ↦
              rw (full, under, add_first)
                (sym (keep_first e x l f under) ∙ ap (λ k. take k (heap_push o e (x ∷ l))) cut)
        ]
  ]

  All-heap_push : (P : A → Type 0) (e : A) (l : List A) → P e → All P l → All P (heap_push o e l)
  unfolding heap_push
  All-heap_push P e [] pe pl = (pe, tt)
  All-heap_push P e (x ∷ l) pe (px, pl) = elim (Bool-cases (o.lt x e)) [
    | inl over ↦ rw over (pe, (px, pl))
    | inr under ↦ rw under (px, All-heap_push P e l pe pl)
  ]

  heap_push-Falling : (e : A) (l : List A) → Falling l → Falling (heap_push o e l)
  unfolding heap_push
  heap_push-Falling e [] f = (tt, tt)
  heap_push-Falling e (x ∷ l) (top, f) = elim (Bool-cases (o.lt x e)) [
    | inl over ↦ rw over (
      (
        ground (arith, o.lt_trans e x e, over, o.lt_irrefl e),
        All-map (λ y h. ground (arith, o.lt_trans x e y, over, h)) l top,
      ),
      (top, f),
    )
    | inr under ↦
        rw under (All-heap_push (λ y. o.lt x y ≡ false) e l under top, heap_push-Falling e l f)
  ]

  take-All : (P : A → Type 0) (n : ℕ) (l : List A) → All P l → All P (take n l)
  take-All P zero l h = tt
  take-All P (suc n) [] h = tt
  take-All P (suc n) (x ∷ l) (px, h) = (px, take-All P n l h)

  take-Falling : (n : ℕ) (l : List A) → Falling l → Falling (take n l)
  take-Falling zero l f = tt
  take-Falling (suc n) [] f = tt
  take-Falling (suc n) (x ∷ l) (top, f) =
      (take-All (λ y. o.lt x y ≡ false) n l top, take-Falling n l f)

  -- All the items in falling order, and what a bounded heap keeps of them.
  unfoldable pub sorted_onto : List A → List A → List A
  sorted_onto l [] = l
  sorted_onto l (e ∷ items) = sorted_onto (heap_push o e l) items

  unfoldable pub add_all_first : ℕ → List A → List A → List A
  add_all_first n l [] = l
  add_all_first n l (e ∷ items) = add_all_first n (add_first o n e l) items

  pub add_all_first-take :
      (n : ℕ) (l items : List A)
      → 0 < n
      → Falling l
      → add_all_first n (take n l) items ≡ take n (sorted_onto l items)
  unfolding add_all_first sorted_onto
  add_all_first-take n l [] some_room f = refl
  add_all_first-take n l (e ∷ items) some_room f =
      ap (λ k. add_all_first n k items)
        (add_first-take n e (take n l) some_room (omega (arith, length-take n l))
            (take-Falling n l f)
          ∙ take-heap_push n e l)
      ∙ add_all_first-take n (heap_push o e l) items some_room (heap_push-Falling e l f)
