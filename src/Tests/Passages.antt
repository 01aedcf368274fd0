-- ===== src/Tests/Passages.antt =====
-- A text of 500 tokens of two characters each.
use native.Mathlib.Omega.{arith}
use mathlib.Core.List.{map, Mem}
use session_flow.Base.{ℕ, zero, suc, ◌+◌, ◌*◌, ◌≤◌, ◌<◌, ◌≡◌, refl, some, List, [], ◌∷◌, length}
use session_flow.Passages.Spans.{Offset, token_at, window_span, passage_spans}
use session_flow.Passages.Spans.Laws.{
  Chained, real_tokens, InOrder, passage_spans-windows, passage_spans-covers,
}
use session_flow.Passages.DocId.{passage_doc_id, passage_parent, passage_index}
use session_flow.Passages.DocId.Laws.{passage_of-passage_doc_id}

passage_of-passage_doc_id_example :
    (passage_parent (passage_doc_id (b'a' ∷ b':' ∷ b':' ∷ b'p' ∷ b'1' ∷ []) 12)
      ≡ some (b'a' ∷ b':' ∷ b':' ∷ b'p' ∷ b'1' ∷ []))
    × (passage_index (passage_doc_id (b'a' ∷ b':' ∷ b':' ∷ b'p' ∷ b'1' ∷ []) 12) ≡ some 12)
passage_of-passage_doc_id_example =
    passage_of-passage_doc_id (b'a' ∷ b':' ∷ b':' ∷ b'p' ∷ b'1' ∷ []) 12

abbrev ramp : ℕ → ℕ → List Offset
ramp zero start = []
ramp (suc count) start = (start, start + 2) ∷ ramp count (start + 2)

length-ramp : (count start : ℕ) → length (ramp count start) ≡ count
length-ramp zero start = refl
length-ramp (suc count) start = omega (arith, length-ramp count (start + 2))

token_at-ramp :
    (count start i : ℕ)
    → i < count
    → ((token_at (ramp count start) i).0 ≡ start + i * 2)
      × ((token_at (ramp count start) i).1 ≡ start + i * 2 + 2)
token_at-ramp zero start i h = absurd (omega arith)
token_at-ramp (suc count) start zero h = (omega arith, omega arith)
token_at-ramp (suc count) start (suc i) h =
    let (first, last) = token_at-ramp count (start + 2) i (omega arith) in
    (omega arith, omega arith)

ramp-InOrder : (count start : ℕ) → InOrder (ramp count start)
ramp-InOrder count start i j below inside =
    let k : j < count = omega (arith, length-ramp count start) in
    let (first, last) = token_at-ramp count start i (omega arith) in
    let (first', last') = token_at-ramp count start j k in (omega arith, omega arith)

abbrev text : List Offset
text = ramp 500 0

text_long : 450 < length (real_tokens text)
text_long = omega arith

passage_spans-windows_example :
    (l : List ℕ) × (passage_spans text ≡ some (map (window_span (real_tokens text)) l))
    × Chained (length (real_tokens text)) 0 l
passage_spans-windows_example = passage_spans-windows text text_long

passage_spans-covers_example :
    (spans : List Offset) × (passage_spans text ≡ some spans)
    × ((i : ℕ)
        → i < length (real_tokens text)
        → (span : Offset) × Mem span spans
          × (span.0 ≤ (token_at (real_tokens text) i).0)
          × ((token_at (real_tokens text) i).1 ≤ span.1))
passage_spans-covers_example = passage_spans-covers text text_long (ramp-InOrder 500 0)
