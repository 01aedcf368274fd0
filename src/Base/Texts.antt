-- ===== src/Base/Texts.antt =====
-- Texts as lists of code points, and what the components use of Python's `str`.
use session_flow.Base.{
  ℕ, suc, String, ◌≡◌, refl, Bool, true, false, ◌&&◌, ◌||◌, Option, none, some, List, [], ◌∷◌,
  contains, leb, ltb, arith, ◌==◌, Eq, nat_eq, if◌then◌else◌,
}
use Prim.Native.Char.{code}
use session_flow.Base.Order.{Order}
use mathlib.Core.Logic.{dite}
use mathlib.Core.Option

abbrev pub Text : Type 0
Text = List ℕ

texts_dec : Discrete Text
texts_dec [] [] = yes refl
texts_dec [] (d ∷ t) = no (cc)
texts_dec (c ∷ s) [] = no (cc)
texts_dec (c ∷ s) (d ∷ t) =
    dite (nat_eq.dec c d)
      (λ h. dite (texts_dec s t) (λ k. yes (cc (h, k))) (λ n. no (λ r. n (cc r))))
      (λ n. no (λ r. n (cc r)))

instance unfoldable pub text_eq : Eq Text
unfolding texts_dec
text_eq = record { dec = texts_dec }

-- `s.startswith(p)`
unfoldable pub starts_with : Text → Text → Bool
starts_with [] s = true
starts_with (c ∷ p) [] = false
starts_with (c ∷ p) (d ∷ s) = (c == d) && starts_with p s

-- `s.find(p)`
unfoldable pub find_text : Text → Text → Option ℕ
unfolding starts_with
find_text p [] = if starts_with p [] then some 0 else none
find_text p (c ∷ s) =
    let rest = Option.map suc (find_text p s) in if starts_with p (c ∷ s) then some 0 else rest

-- `s.find(c)` for one character.
unfoldable pub find_code : ℕ → Text → Option ℕ
find_code c [] = none
find_code c (d ∷ s) = let rest = Option.map suc (find_code c s) in if c == d then some 0 else rest

-- `str.isspace` of a character.
abbrev pub is_space : ℕ → Bool
is_space c =
    (leb 9 c && leb c 13)
    || ((leb 28 c && leb c 32)
        || ((leb 8192 c && leb c 8202)
            || contains (133 ∷ 160 ∷ 5760 ∷ 8232 ∷ 8233 ∷ 8239 ∷ 8287 ∷ 12288 ∷ []) c))

-- `s.lstrip(...)` and `s.strip(...)`
unfoldable pub strip_left : (ℕ → Bool) → Text → Text
strip_left p [] = []
strip_left p (c ∷ s) = if p c then strip_left p s else c ∷ s

unfoldable pub strip_right : (ℕ → Bool) → Text → Text
strip_right p [] = []
strip_right p (c ∷ s) =
    let rest = strip_right p s in elim rest [ [] ↦ if p c then [] else c ∷ [] | d ∷ t ↦ c ∷ d ∷ t ]

unfoldable pub strip : (ℕ → Bool) → Text → Text
unfolding strip_left strip_right
strip p s = strip_right p (strip_left p s)

-- The code points of a literal.
abbrev pub codes : String → Text
codes String.[] = []
codes (String.◌∷◌ c s) = code c ∷ codes s

-- `s.startswith`, `in` and the like compare code points, and so does `<`.
unfoldable pub text_lt : Text → Text → Bool
text_lt [] [] = false
text_lt [] (d ∷ t) = true
text_lt (c ∷ s) [] = false
text_lt (c ∷ s) (d ∷ t) = if ltb c d then true else if ltb d c then false else text_lt s t

pub text_lt_irrefl : (s : Text) → text_lt s s ≡ false
unfolding text_lt
text_lt_irrefl [] = refl
text_lt_irrefl (c ∷ s) = ground (arith, text_lt_irrefl s)

pub text_lt_trans : (s t u : Text) → text_lt s t ≡ true → text_lt t u ≡ true → text_lt s u ≡ true
unfolding text_lt
text_lt_trans [] [] u h k = cc
text_lt_trans [] (d ∷ t) [] h k = cc k
text_lt_trans [] (d ∷ t) (e ∷ u) h k = refl
text_lt_trans (c ∷ s) [] u h k = cc h
text_lt_trans (c ∷ s) (d ∷ t) [] h k = cc k
text_lt_trans (c ∷ s) (d ∷ t) (e ∷ u) h k = ground (arith, text_lt_trans s t u)

pub text_lt_total : (s t : Text) → text_lt s t ≡ false → text_lt t s ≡ false → s ≡ t
unfolding text_lt
text_lt_total [] [] h k = refl
text_lt_total [] (d ∷ t) h k = cc h
text_lt_total (c ∷ s) [] h k = cc k
text_lt_total (c ∷ s) (d ∷ t) h k = ground (arith, text_lt_total s t)

instance abbrev pub text_order : Order Text
text_order = record {
  equal = text_eq;
  lt = text_lt;
  lt_irrefl = text_lt_irrefl;
  lt_trans = text_lt_trans;
  lt_total = text_lt_total;
}
