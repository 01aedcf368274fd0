-- ===== src/Redaction/Masking/Cover.antt =====
-- Positions of a text as a pair: what stands before, from its end on, and what comes. A position is
-- covered if it lies in a placeholder.
use session_flow.Base.{
  ℕ, zero, suc, ◌≡◌, refl, Bool, true, false, not, ◌&&◌, ◌||◌, none, some, [], ◌∷◌, ◌++◌, length,
  drop, arith, ◌==◌, nat_eq, Option-cases,
}
use session_flow.Base.Texts.{Text, find_code, starts_with}
use session_flow.Redaction.Text.{tag}

-- Whether a closing bracket comes.
unfoldable pub has_close : Text → Bool
has_close [] = false
has_close (c ∷ s) = (c == b']') || has_close s

-- Whether a tag starts here, or before with no closing bracket since.
unfoldable pub is_tagged : Text → Text → Bool
unfolding starts_with
is_tagged [] s = starts_with tag s
is_tagged (c ∷ before) s = starts_with tag s || (not (c == b']') && is_tagged before (c ∷ s))

unfoldable pub is_covered : Text → Text → Bool
unfolding has_close is_tagged
is_covered before s = has_close s && is_tagged before s

-- No bracket in a text.
unfoldable pub is_plain : Text → Bool
is_plain [] = true
is_plain (c ∷ s) = (not (c == b'[') && not (c == b']')) && is_plain s

pub starts_with-cons :
    (c : ℕ) (p : Text) (d : ℕ) (s : Text)
    → starts_with (c ∷ p) (d ∷ s) ≡ true
    → (c ≡ d) × (starts_with p s ≡ true)
unfolding starts_with
starts_with-cons c p d s h = ground (arith, h)

-- What a value starts with a closing bracket, if anything, is not plain; a tag starts with an opening one.
pub tag-opens : (c : ℕ) (s : Text) → starts_with tag (c ∷ s) ≡ true → c ≡ b'['
unfolding starts_with
tag-opens c s h = ground (arith, h)

pub has_close-plain :
    (p s : Text)
    → is_plain p ≡ true
    → starts_with p s ≡ true
    → has_close s ≡ has_close (drop (length p) s)
unfolding is_plain starts_with has_close
has_close-plain [] s h k = refl
has_close-plain (c ∷ p) [] h k = refl
has_close-plain (c ∷ p) (d ∷ s) h k = ground (arith, has_close-plain p s)

pub find_code-none : (s : Text) → find_code b']' s ≡ none → has_close s ≡ false
unfolding find_code has_close
find_code-none [] h = refl
find_code-none (c ∷ s) h = ground (arith, find_code-none s, Option-cases (find_code b']' s))

pub find_code-some : (s : Text) (k : ℕ) → find_code b']' s ≡ some k → has_close s ≡ true
unfolding find_code has_close
find_code-some [] k h = cc
find_code-some (c ∷ s) zero h = ground (arith, find_code-some s, Option-cases (find_code b']' s))
find_code-some (c ∷ s) (suc k) h =
    ground (arith, find_code-some s k, Option-cases (find_code b']' s))

-- The next position is covered if a tag starts there, or if this one is and is no closing bracket.
pub is_covered-next :
    (before s : Text) (c : ℕ)
    → is_covered (c ∷ before) s
      ≡ (has_close s && starts_with tag s) || (not (c == b']') && is_covered before (c ∷ s))
unfolding is_covered has_close is_tagged
is_covered-next before s c = ground arith

pub has_close-append : (p s : Text) → has_close s ≡ true → has_close (p ++ s) ≡ true
unfolding has_close
has_close-append [] s h = h
has_close-append (c ∷ p) s h = ground (arith, has_close-append p s h)

pub starts_with-append : (p s : Text) → starts_with p (p ++ s) ≡ true
unfolding starts_with
starts_with-append [] s = refl
starts_with-append (c ∷ p) s = ground (arith, starts_with-append p s)
