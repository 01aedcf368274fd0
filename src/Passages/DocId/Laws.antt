-- ===== src/Passages/DocId/Laws.antt =====
-- Reading back the doc_id of a passage.
use mathlib.Core.Path.{subst}
use session_flow.Base.{
  ℕ, zero, suc, ◌+◌, ◌/◌, ◌%◌, ◌<◌, ◌≡◌, refl, ap, sym, ◌∙◌, true, none, some, [], ◌∷◌, ◌++◌, ltb,
  arith, nat_eq, Bool-cases, inl, inr, All,
}
use session_flow.Base.Texts.{Text}
use session_flow.Passages.DocId.{
  is_digit, decimal_loop, decimal, read_digits, digits_to_end, match_here, search_suffix,
  passage_doc_id, passage_parent, passage_index,
}

read-decimal_loop :
    (fuel n : ℕ) (rest : Text)
    → n < fuel
    → read_digits 0 (decimal_loop fuel n rest) ≡ read_digits n rest
unfolding decimal_loop read_digits
read-decimal_loop zero n rest h = elim h [ ]
read-decimal_loop (suc fuel) n rest h = elim (Bool-cases (ltb n 10)) [
  | inl small ↦ rw small (ap (λ k. read_digits k rest) (ground arith))
  | inr big ↦ rw big (
      read-decimal_loop fuel (n / 10) _ (ground arith) ∙ ap (λ k. read_digits k rest) (omega arith))
]

abbrev AllDigits : Text → Type 0
AllDigits = All (λ c. is_digit c ≡ true)

digit_of_mod : (n : ℕ) → is_digit (b'0' + n % 10) ≡ true
unfolding is_digit
digit_of_mod n = ground arith

decimal_loop-AllDigits :
    (fuel n : ℕ) (rest : Text) → AllDigits rest → AllDigits (decimal_loop fuel n rest)
unfolding decimal_loop
decimal_loop-AllDigits zero n rest h = h
decimal_loop-AllDigits (suc fuel) n rest h =
    let d : is_digit (b'0' + n % 10) ≡ true = digit_of_mod n in
    elim (Bool-cases (ltb n 10)) [
      | inl small ↦ rw small (d, h)
      | inr big ↦ rw big (decimal_loop-AllDigits fuel (n / 10) _ (d, h))
    ]

digits_to_end_all : (s : Text) → AllDigits s → digits_to_end s ≡ some s
unfolding digits_to_end
digits_to_end_all [] h = refl
digits_to_end_all (c ∷ []) h = rw (h.0)
digits_to_end_all (c ∷ d ∷ s) h = rw (h.0, digits_to_end_all (d ∷ s) h.1)

-- A colon that is not the last character stops the run of digits.
digits_to_end_colon : (s t : Text) (c : ℕ) → digits_to_end (s ++ (b':' ∷ c ∷ t)) ≡ none
unfolding digits_to_end
digits_to_end_colon [] t c = refl
digits_to_end_colon (a ∷ []) t c = ground (arith, digits_to_end_colon [] t c)
digits_to_end_colon (a ∷ b ∷ s) t c = ground (arith, digits_to_end_colon (b ∷ s) t c)

-- The suffix of a passage is not matched from inside its parent.
match_here-none : (c : ℕ) (s t : Text) → match_here (c ∷ (s ++ (b':' ∷ b':' ∷ b'p' ∷ t))) ≡ none
unfolding match_here nat_eq
match_here-none c [] [] = ground arith
match_here-none c [] (d ∷ t) = ground arith
match_here-none c (x ∷ []) t = ground arith
match_here-none c (x ∷ y ∷ []) t = ground arith
match_here-none c (x ∷ y ∷ z ∷ s) t = ground (arith, digits_to_end_colon (z ∷ s) (b'p' ∷ t) b':')

match_here-suffix :
    (d : ℕ) (t : Text) → AllDigits (d ∷ t) → match_here (b':' ∷ b':' ∷ b'p' ∷ d ∷ t) ≡ some (d ∷ t)
unfolding match_here nat_eq
match_here-suffix d t h = rw h.0 (digits_to_end_all (d ∷ t) h)

search_suffix-suffix :
    (s : Text) (d : ℕ) (t : Text)
    → AllDigits (d ∷ t)
    → search_suffix (s ++ (b':' ∷ b':' ∷ b'p' ∷ d ∷ t)) ≡ some (s, d ∷ t)
unfolding search_suffix
search_suffix-suffix [] d t h = rw (match_here-suffix d t h, search_suffix)
search_suffix-suffix (c ∷ s) d t h =
    ground (arith, match_here-none c s (d ∷ t), search_suffix-suffix s d t h)

decimal_loop-cons :
    (fuel n c : ℕ) (rest : Text) → (d : ℕ) × (t : Text) × (decimal_loop fuel n (c ∷ rest) ≡ d ∷ t)
unfolding decimal_loop
decimal_loop-cons zero n c rest = (c, rest, refl)
decimal_loop-cons (suc fuel) n c rest = elim (Bool-cases (ltb n 10)) [
  | inl small ↦ (b'0' + n % 10, c ∷ rest, rw small)
  | inr big ↦
      let (d, t, e) = decimal_loop-cons fuel (n / 10) (b'0' + n % 10) (c ∷ rest) in
      (d, t, rw (big, e))
]

-- A number has a first digit.
decimal-cons : (n : ℕ) → (d : ℕ) × (t : Text) × (decimal n ≡ d ∷ t)
unfolding decimal decimal_loop
decimal-cons n = elim (Bool-cases (ltb n 10)) [
  | inl small ↦ (b'0' + n % 10, [], rw small)
  | inr big ↦ let (d, t, e) = decimal_loop-cons n (n / 10) (b'0' + n % 10) [] in (d, t, rw (big, e))
]

-- The doc_id of a passage names its parent and its number, whatever the parent's own doc_id is.
pub passage_of-passage_doc_id :
    (parent : Text) (index : ℕ)
    → (passage_parent (passage_doc_id parent index) ≡ some parent)
      × (passage_index (passage_doc_id parent index) ≡ some index)
unfolding passage_parent passage_index passage_doc_id decimal read_digits
passage_of-passage_doc_id parent index =
    let (d, t, e) = decimal-cons index in
    let h : AllDigits (d ∷ t) =
      subst AllDigits e (decimal_loop-AllDigits (suc index) index [] tt) in
    let r : read_digits 0 (d ∷ t) ≡ index =
      ap (read_digits 0) (sym e) ∙ read-decimal_loop (suc index) index [] (omega arith) in
    (
      rw (e, search_suffix-suffix parent d t h),
      rw (e, search_suffix-suffix parent d t h) (ap some r),
    )
