-- ===== src/Tests/Timeline.antt =====
-- The newest two of four rows, one of which comes twice.
use mathlib.Core.List.{reverse}
use session_flow.Base.{ℕ, ◌*◌, ◌≡◌, refl, some, List, [], ◌∷◌, take, nat_eq}
use session_flow.Base.Order.{nat_order}
use session_flow.Timeline.Collector.{Row, newest_order, oldest_order, empty, add_all, result}
use session_flow.Timeline.Collector.Newest.{rows_of, ranked_onto, result-add_all}

abbrev row : ℕ → ℕ → Row ℕ ℕ
row doc_id time = record { doc_id = doc_id; timestamp = some time; fields = 0 }

abbrev rows : List (Row ℕ ℕ)
rows = row 1 10 ∷ row 2 20 ∷ row 3 30 ∷ row 1 10 ∷ row 4 40 ∷ []

result-add_all_example :
    result (newest_order nat_order) (add_all (newest_order nat_order) (empty 2) rows)
    ≡ take 2 (rows_of (reverse (ranked_onto (newest_order nat_order) [] rows)))
result-add_all_example =
    result-add_all (newest_order nat_order) (λ d. d * 10) 2 rows
      (refl, (refl, (refl, (refl, (refl, tt)))))

oldest_two :
    result (oldest_order nat_order) (add_all (oldest_order nat_order) (empty 2) rows)
    ≡ row 1 10 ∷ row 2 20 ∷ []
unfolding result add_all nat_eq
oldest_two = refl
