-- ===== src/Base/Order.antt =====
-- Strict total orders as an interface, and those of numbers and of pairs.
use mathlib.Core.Logic.{dite}
use session_flow.Base.{ℕ, ◌≡◌, refl, ap, Bool, true, false, ltb, arith, Eq, nat_eq, if◌then◌else◌}

pub record Order {ℓ} (A : Type ℓ) : Type ℓ where
  pub equal : Eq A
  pub lt : A → A → Bool
  pub lt_irrefl : (a : A) → lt a a ≡ false
  pub lt_trans : (a b c : A) → lt a b ≡ true → lt b c ≡ true → lt a c ≡ true
  pub lt_total : (a b : A) → lt a b ≡ false → lt b a ≡ false → a ≡ b

module _ {ℓ} {A : Type ℓ} ⦃o : Order A⦄ where
  pub lt_asymm : (a b : A) → o.lt a b ≡ true → o.lt b a ≡ false
  lt_asymm a b h = ground (arith, o.lt_trans a b a h, o.lt_irrefl a)

pub nat_lt_trans : (a b c : ℕ) → ltb a b ≡ true → ltb b c ≡ true → ltb a c ≡ true
nat_lt_trans a b c h k = ground arith

pub nat_lt_total : (a b : ℕ) → ltb a b ≡ false → ltb b a ≡ false → a ≡ b
nat_lt_total a b h k = ground arith

pub nat_lt_irrefl : (a : ℕ) → ltb a a ≡ false
nat_lt_irrefl a = ground arith

instance abbrev pub nat_order : Order ℕ
nat_order = record {
  equal = nat_eq;
  lt = ltb;
  lt_irrefl = nat_lt_irrefl;
  lt_trans = nat_lt_trans;
  lt_total = nat_lt_total;
}

-- The order turned round.
abbrev pub flip {ℓ} : {A : Type ℓ} → Order A → Order A
flip o = record {
  equal = o.equal;
  lt = λ a b. o.lt b a;
  lt_irrefl = o.lt_irrefl;
  lt_trans = λ a b c h k. o.lt_trans c b a k h;
  lt_total = λ a b h k. o.lt_total a b k h;
}

-- Pairs, by their first components and then by their second, as Python compares tuples.
module _ {ℓ κ} {A : Type ℓ} {B : Type κ} (o : Order A) (p : Order B) where
  abbrev pair_lt : A × B → A × B → Bool
  pair_lt (a, b) (c, d) = if o.lt a c then true else if o.lt c a then false else p.lt b d

  pub pair_lt_irrefl : (x : A × B) → pair_lt x x ≡ false
  pair_lt_irrefl (a, b) = ground (arith, o.lt_irrefl a, p.lt_irrefl b)

  pub pair_lt_trans : (x y z : A × B) → pair_lt x y ≡ true → pair_lt y z ≡ true → pair_lt x z ≡ true
  pair_lt_trans (a, b) (c, d) (e, f) h k = ground (
    arith,
    o.lt_trans a c e,
    o.lt_trans c e a,
    o.lt_trans e a c,
    p.lt_trans b d f,
    o.lt_total a c,
    o.lt_total c e,
  )

  pub pair_lt_total : (x y : A × B) → pair_lt x y ≡ false → pair_lt y x ≡ false → x ≡ y
  pair_lt_total (a, b) (c, d) h k = ground (arith, o.lt_total a c, p.lt_total b d)

  pub pair_dec : Discrete (A × B)
  pair_dec (a, b) (c, d) =
      dite (o.equal.dec a c)
        (λ h.
          dite (p.equal.dec b d) (λ k. yes (rw (h, k) refl)) (λ n. no (λ r. n (ap (λ x. x.1) r))))
        (λ n. no (λ r. n (ap (λ x. x.0) r)))

  abbrev pub pair_order : Order (A × B)
  pair_order = record {
    equal = record { dec = pair_dec };
    lt = pair_lt;
    lt_irrefl = pair_lt_irrefl;
    lt_trans = pair_lt_trans;
    lt_total = pair_lt_total;
  }
