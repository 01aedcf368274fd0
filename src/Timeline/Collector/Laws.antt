-- ===== src/Timeline/Collector/Laws.antt =====
-- The order of the heap, and one insertion into a list in that order.
use session_flow.Base.{
  ◌≡◌, ◌≢◌, refl, ap, ◌∙◌, true, false, List, [], ◌∷◌, ◌++◌, map, contains, Eq, ◌==◌, if◌then◌else◌,
  arith, All, All-map, ◌⊎◌, inl, inr, Bool-cases,
}
use session_flow.Base.Order.{Order, lt_asymm}
use session_flow.Timeline.Collector.{Key, Row, heap_push, discard}

abbrev pub Item {ℓ κ} : Type ℓ → Type κ → Type (ℓ ⊔ κ)
Item D R = Key D × Row D R

abbrev pub docs {ℓ κ} : {D : Type ℓ} {R : Type κ} → List (Item D R) → List D
docs = map (λ x. x.1.doc_id)

pub contains-discard {ℓ} :
    {D : Type ℓ} ⦃e : Eq D⦄ (a d : D) (l : List D)
    → contains (discard a l) d ≡ (if d == a then false else contains l d)
unfolding discard
contains-discard a d [] = ground arith
contains-discard a d (x ∷ l) = ground (arith, contains-discard a d l)

module _ {κ} {D : Type 0} {R : Type κ} ⦃e : Eq D⦄ (o : Order (Key D)) where
  abbrev pub Before : Item D R → Item D R → Type 0
  Before x y = o.lt x.0 y.0 ≡ true

  abbrev pub Sorted : List (Item D R) → Type 0
  Sorted [] = Unit
  Sorted (x ∷ l) = All (λ y. Before x y) l × Sorted l

  -- The item at its place in the order; an item with its key is kept.
  unfoldable pub enter : Item D R → List (Item D R) → List (Item D R)
  enter x [] = x ∷ []
  enter x (y ∷ l) =
      let rest = enter x l in
      if o.lt x.0 y.0 then x ∷ y ∷ l else if o.lt y.0 x.0 then y ∷ rest else y ∷ l

  pub heap_push-eq-enter :
      (x : Item D R) (l : List (Item D R)) → All (λ y. x.0 ≢ y.0) l → heap_push o x l ≡ enter x l
  unfolding heap_push enter
  heap_push-eq-enter x [] h = refl
  heap_push-eq-enter x (y ∷ l) (ne, h) =
      ground (arith, heap_push-eq-enter x l h, o.lt_total x.0 y.0)

  pub enter-after :
      (x : Item D R) (a l : List (Item D R))
      → All (λ y. Before y x) a
      → enter x (a ++ l) ≡ a ++ enter x l
  unfolding enter
  enter-after x [] l h = refl
  enter-after x (y ∷ a) l (b, h) =
      rw (lt_asymm ⦃o = o⦄ y.0 x.0 b, b) (ap (λ t. y ∷ t) (enter-after x a l h))

  pub enter-Before :
      (x m : Item D R) (a l : List (Item D R))
      → Before x m
      → enter x (a ++ m ∷ l) ≡ enter x a ++ m ∷ l
  unfolding enter
  enter-Before x m [] l h = rw h
  enter-Before x m (y ∷ a) l h = ground (arith, enter-Before x m a l h)

  -- An item of the list has the key.
  abbrev pub Has : Item D R → List (Item D R) → Type 0
  Has x [] = ⊥
  Has x (y ∷ l) = (x.0 ≡ y.0) ⊎ Has x l

  pub Has-append : (x : Item D R) (a l : List (Item D R)) → Has x l → Has x (a ++ l)
  Has-append x [] l h = h
  Has-append x (y ∷ a) l h = inr (Has-append x a l h)

  pub Before-of_Has :
      (y x : Item D R) (l : List (Item D R)) → All (λ z. Before y z) l → Has x l → Before y x
  Before-of_Has y x [] b h = elim h [ ]
  Before-of_Has y x (z ∷ l) (b, bs) (inl same) = ap (o.lt y.0) same ∙ b
  Before-of_Has y x (z ∷ l) (b, bs) (inr h) = Before-of_Has y x l bs h

  pub enter_present : (x : Item D R) (l : List (Item D R)) → Has x l → Sorted l → enter x l ≡ l
  unfolding enter
  enter_present x [] h s = elim h [ ]
  enter_present x (y ∷ l) (inl same) (b, s) = ground (arith, o.lt_irrefl x.0)
  enter_present x (y ∷ l) (inr h) (b, s) =
      let below = Before-of_Has y x l b h in
      rw (lt_asymm ⦃o = o⦄ y.0 x.0 below, below) (ap (λ t. y ∷ t) (enter_present x l h s))

  pub All-enter :
      (P : Item D R → Type 0) (x : Item D R) (l : List (Item D R))
      → P x
      → All P l
      → All P (enter x l)
  unfolding enter
  All-enter P x [] p h = (p, tt)
  All-enter P x (y ∷ l) p (q, h) = elim (Bool-cases (o.lt x.0 y.0)) [
    | inl lower ↦ rw lower (p, (q, h))
    | inr not_lower ↦ elim (Bool-cases (o.lt y.0 x.0)) [
      | inl upper ↦ rw (not_lower, upper) (q, All-enter P x l p h)
      | inr same ↦ rw (not_lower, same) (q, h)
    ]
  ]

  pub enter-Sorted : (x : Item D R) (l : List (Item D R)) → Sorted l → Sorted (enter x l)
  unfolding enter
  enter-Sorted x [] s = (tt, tt)
  enter-Sorted x (y ∷ l) (b, s) = elim (Bool-cases (o.lt x.0 y.0)) [
    | inl lower ↦ rw lower ((lower, All-map (λ z. o.lt_trans x.0 y.0 z.0 lower) l b), (b, s))
    | inr not_lower ↦ elim (Bool-cases (o.lt y.0 x.0)) [
      | inl upper ↦
          rw (not_lower, upper) (All-enter (λ z. Before y z) x l upper b, enter-Sorted x l s)
      | inr same ↦ rw (not_lower, same) (b, s)
    ]
  ]

  pub Before-append_middle :
      (a : List (Item D R)) (m : Item D R) (l : List (Item D R))
      → Sorted (a ++ m ∷ l)
      → All (λ y. Before y m) a
  Before-append_middle [] m l s = tt
  Before-append_middle (y ∷ a) m l (b, s) = (
    Before-of_Has y m (a ++ m ∷ l) b (Has-append m a (m ∷ l) (inl refl)),
    Before-append_middle a m l s,
  )

  pub Sorted-append_right : (a l : List (Item D R)) → Sorted (a ++ l) → Sorted l
  Sorted-append_right [] l s = s
  Sorted-append_right (y ∷ a) l (b, s) = Sorted-append_right a l s
