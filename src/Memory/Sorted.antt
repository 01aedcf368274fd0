-- ===== src/Memory/Sorted.antt =====
-- Sets and lists as memory_store.py sorts them.
use session_flow.Base.{
  ℕ, Bool, true, false, Option, none, some, List, [], ◌∷◌, ltb, ◌==◌, Eq, string_eq, nat_eq,
  option_eq, if◌then◌else◌,
}

-- `sorted({...})`
unfoldable pub insert_id : ℕ → List ℕ → List ℕ
insert_id x [] = x ∷ []
insert_id x (y ∷ l) =
    let rest = insert_id x l in if ltb x y then x ∷ y ∷ l else if x == y then y ∷ l else y ∷ rest

unfoldable pub sorted_ids : List ℕ → List ℕ
unfolding insert_id
sorted_ids [] = []
sorted_ids (x ∷ l) = insert_id x (sorted_ids l)

-- Whether two lists are the same once sorted, as `_normalize` compares them.
unfoldable pub remove_one {ℓ} : {A : Type ℓ} ⦃e : Eq A⦄ → A → List A → Option (List A)
remove_one x [] = none
remove_one x (y ∷ l) =
    let rest = remove_one x l in
    if x == y then some l else elim rest [ none ↦ none | some r ↦ some (y ∷ r) ]

unfoldable pub same_sorted {ℓ} : {A : Type ℓ} ⦃e : Eq A⦄ → List A → List A → Bool
unfolding remove_one
same_sorted [] [] = true
same_sorted [] (y ∷ l) = false
same_sorted (x ∷ k) l = elim (remove_one x l) [ none ↦ false | some r ↦ same_sorted k r ]
