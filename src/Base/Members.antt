-- ===== src/Base/Members.antt =====
-- `x in xs`, and the lists that a test or a function makes, over lists that were cut or put together.
use mathlib.Core.Path.{◌≡◌, refl, ap}
use mathlib.Core.Logic.{inl, inr}
use mathlib.Core.Bool.{Bool, true, false, ◌&&◌, ◌||◌}
use mathlib.Core.List.{List, [], ◌∷◌, ◌++◌}
use Prim.Native.Nat.{ℕ, zero, suc, ◌≤◌}
use native.Mathlib.Omega.{arith}
use session_flow.Base.Tests.{Bool-cases}
use session_flow.Base.Equality.{Eq, contains}
use session_flow.Base.Lists.{keep, length, take, drop}

module _ {ℓ} {A : Type ℓ} ⦃e : Eq A⦄ where
  pub contains-append :
      (xs ys : List A) (a : A) → contains (xs ++ ys) a ≡ (contains xs a || contains ys a)
  contains-append [] ys a = refl
  contains-append (x ∷ xs) ys a = ground (arith, contains-append xs ys a)

  pub contains-keep_at :
      (p : A → Bool) (a : A) (xs : List A) → contains (keep p xs) a ≡ (p a && contains xs a)
  contains-keep_at p a [] = ground arith
  contains-keep_at p a (x ∷ xs) = elim (e.dec a x) [
    | yes same ↦ rw same (elim (Bool-cases (p x)) [
      | inl kept ↦ ground arith
      | inr dropped ↦ ground (arith, contains-keep_at p x xs)
    ])
    | no n ↦ ground (arith, contains-keep_at p a xs)
  ]

module _ {ℓ} {A : Type ℓ} where
  pub keep-append : (p : A → Bool) (xs ys : List A) → keep p (xs ++ ys) ≡ keep p xs ++ keep p ys
  keep-append p [] ys = refl
  keep-append p (x ∷ xs) ys = ground (arith, keep-append p xs ys)

  pub keep-cons_true :
      (p : A → Bool) (x : A) (xs : List A) → p x ≡ true → keep p (x ∷ xs) ≡ x ∷ keep p xs
  keep-cons_true p x xs h = ground (arith, h)

  pub keep-cons_false :
      (p : A → Bool) (x : A) (xs : List A) → p x ≡ false → keep p (x ∷ xs) ≡ keep p xs
  keep-cons_false p x xs h = ground (arith, h)

  -- A list that is long enough is cut alike whatever follows it.
  pub take-append_long : (n : ℕ) (xs ys : List A) → n ≤ length xs → take n (xs ++ ys) ≡ take n xs
  take-append_long zero xs ys h = refl
  take-append_long (suc n) [] ys h = absurd (omega arith)
  take-append_long (suc n) (x ∷ xs) ys h = ap (λ t. x ∷ t) (take-append_long n xs ys (omega arith))

  pub drop_all : (n : ℕ) (xs : List A) → length xs ≤ n → drop n xs ≡ []
  drop_all zero [] h = refl
  drop_all zero (x ∷ xs) h = absurd (omega arith)
  drop_all (suc n) [] h = refl
  drop_all (suc n) (x ∷ xs) h = drop_all n xs (omega arith)
