-- ===== src/ProjectScope/Laws.antt =====
-- The roots of a scope.
use session_flow.Base.{
  ◌≡◌, ◌≢◌, refl, sym, ap, ◌∙◌, Bool, true, false, ◌||◌, Option, none, some, List, [], ◌∷◌, map,
  length, keep, nat_eq, keep-cons_true, keep-cons_false, concat, All, All-map, contains,
  contains-append, contains-keep_at, ltb, ◌==◌, if◌then◌else◌, arith, Bool-cases, inl, inr,
}
use mathlib.Core.Path.{subst}
use mathlib.Core.List.{cons≢nil}
use mathlib.Core.Option.{some-injective}
use session_flow.Base.Texts.{Text, text_eq, text_order, codes}
use session_flow.ProjectScope.{
  ProjectScope, insert_root, sorted_set, is_under, is_parent, with_subfolders, basename, longest,
  longest_of, nearest_parent, nearest_or, covering_or, path_of, or_empty, resolve_path, named_roots,
  resolve_name, resolve_target, resolve_project_scope, target_of, every_project,
}

-- Rising, and so without repetition.
abbrev pub IsAscending : List Text → Type 0
IsAscending [] = Unit {0}
IsAscending (r ∷ l) = All (λ s. text_order.lt r s ≡ true) l × IsAscending l

All-insert_root :
    (P : Text → Type 0) (r : Text) (l : List Text) → P r → All P l → All P (insert_root r l)
unfolding insert_root
All-insert_root P r [] h k = (h, tt)
All-insert_root P r (s ∷ l) h k = elim (Bool-cases (text_order.lt r s)) [
  | inl e ↦ rw e (h, k)
  | inr e ↦ elim (Bool-cases (text_order.lt s r)) [
    | inl f ↦ rw (e, f) (k.0, All-insert_root P r l h k.1)
    | inr f ↦ rw (e, f) k
  ]
]

insert_root-IsAscending : (r : Text) (l : List Text) → IsAscending l → IsAscending (insert_root r l)
unfolding insert_root
insert_root-IsAscending r [] h = (tt, tt)
insert_root-IsAscending r (s ∷ l) h = elim (Bool-cases (text_order.lt r s)) [
  | inl e ↦ rw e ((e, All-map (λ t k. text_order.lt_trans r s t e k) l h.0), h)
  | inr e ↦ elim (Bool-cases (text_order.lt s r)) [
    | inl f ↦ rw (e, f) (All-insert_root _ r l f h.0, insert_root-IsAscending r l h.1)
    | inr f ↦ rw (e, f) h
  ]
]

sorted_set-IsAscending : (l : List Text) → IsAscending (sorted_set l)
unfolding sorted_set
sorted_set-IsAscending [] = tt
sorted_set-IsAscending (r ∷ l) = insert_root-IsAscending r (sorted_set l) (sorted_set-IsAscending l)

contains-insert_root :
    (a r : Text) (l : List Text) → contains (insert_root r l) a ≡ (a == r || contains l a)
unfolding insert_root
contains-insert_root a r [] = refl
contains-insert_root a r (s ∷ l) =
    ground (arith, contains-insert_root a r l, text_order.lt_total r s)

pub contains-sorted_set : (a : Text) (l : List Text) → contains (sorted_set l) a ≡ contains l a
unfolding sorted_set
contains-sorted_set a [] = refl
contains-sorted_set a (r ∷ l) =
    contains-insert_root a r (sorted_set l) ∙ ap (λ b. a == r || b) (contains-sorted_set a l)

All-keep : (P : Text → Type 0) (p : Text → Bool) (l : List Text) → All P l → All P (keep p l)
All-keep P p [] h = tt
All-keep P p (r ∷ l) h = elim (Bool-cases (p r)) [
  | inl e ↦ rw (keep-cons_true p r l e) (h.0, All-keep P p l h.1)
  | inr e ↦ rw (keep-cons_false p r l e) (All-keep P p l h.1)
]

keep-IsAscending : (p : Text → Bool) (l : List Text) → IsAscending l → IsAscending (keep p l)
keep-IsAscending p [] h = tt
keep-IsAscending p (r ∷ l) h = elim (Bool-cases (p r)) [
  | inl e ↦ rw (keep-cons_true p r l e) (All-keep _ p l h.0, keep-IsAscending p l h.1)
  | inr e ↦ rw (keep-cons_false p r l e) (keep-IsAscending p l h.1)
]

-- The roots of a scope: none for every project, and else a list of indexed roots, rising, with one at least.
abbrev pub AreRoots : List Text → Option (List Text) → Type 0
AreRoots known none = Unit {0}
AreRoots known (some roots) =
    IsAscending roots × (roots ≢ []) × All (λ r. contains known r ≡ true) roots

contains-All :
    (P : Text → Type 0) (l : List Text) → ((r : Text) → contains l r ≡ true → P r) → All P l
contains-All P [] h = tt
contains-All P (r ∷ l) h = (h r (ground arith), contains-All P l (λ s k. h s (ground (arith, k))))

longest-contains : (best : Text) (l : List Text) → contains (best ∷ l) (longest best l) ≡ true
unfolding longest
longest-contains best [] = ground arith
longest-contains best (r ∷ l) = elim (Bool-cases (ltb (length best) (length r))) [
  | inl e ↦ rw e (ground (arith, longest-contains r l))
  | inr e ↦ rw e (ground (arith, longest-contains best l))
]

contains-keep :
    (p : Text → Bool) (a : Text) (l : List Text)
    → contains (keep p l) a ≡ true
    → contains l a ≡ true
contains-keep p a l h = ground (arith, h, contains-keep_at p a l)

pub longest_of-contains : (l : List Text) (p : Text) → longest_of l ≡ some p → contains l p ≡ true
longest_of-contains [] p h = cc h
longest_of-contains (r ∷ l) p h =
    subst (λ q. contains (r ∷ l) q ≡ true) (some-injective (longest r l) p h) (longest-contains r l)

nearest_parent-contains :
    (path : Text) (known : List Text) (p : Text)
    → nearest_parent path known ≡ some p
    → contains known p ≡ true
unfolding nearest_parent
nearest_parent-contains path known p h =
    contains-keep (is_parent path) p known (longest_of-contains (keep (is_parent path) known) p h)

AreRoots-nearest_or :
    (target : Text) (known : List Text) (o : Option Text)
    → ((p : Text) → o ≡ some p → contains known p ≡ true)
    → AreRoots known (nearest_or target o).roots
AreRoots-nearest_or target known none h = tt
AreRoots-nearest_or target known (some []) h = tt
AreRoots-nearest_or target known (some (c ∷ p)) h = ((tt, tt), cons≢nil, (h (c ∷ p) refl, tt))

AreRoots-covering_or :
    (known l : List Text) (s : ProjectScope)
    → IsAscending l
    → ((r : Text) → contains l r ≡ true → contains known r ≡ true)
    → AreRoots known s.roots
    → AreRoots known (covering_or l s).roots
AreRoots-covering_or known [] s a h k = k
AreRoots-covering_or known (r ∷ l) s a h k = (a, cons≢nil, contains-All _ (r ∷ l) h)

resolve_path-AreRoots :
    (target : Text) (known : List Text)
    → IsAscending known
    → AreRoots known (resolve_path target known).roots
unfolding resolve_path with_subfolders
resolve_path-AreRoots target known a =
    AreRoots-covering_or known (keep (is_under (path_of target)) known) _
      (keep-IsAscending (is_under (path_of target)) known a)
      (λ r. contains-keep (is_under (path_of target)) r known)
      (AreRoots-nearest_or target known _ (nearest_parent-contains (path_of target) known))

contains-concat_subfolders :
    (a : Text) (known l : List Text)
    → contains (concat (map (λ r. with_subfolders r known) l)) a ≡ true
    → contains known a ≡ true
unfolding with_subfolders
contains-concat_subfolders a known [] h = cc h
contains-concat_subfolders a known (r ∷ l) h = ground (
  arith,
  h,
  contains-append (keep (is_under r) known) (concat (map (λ r. with_subfolders r known) l)) a,
  contains-keep_at (is_under r) a known,
  contains-concat_subfolders a known l,
)

resolve_name-AreRoots :
    (lower : Text → Text) (target : Text) (known : List Text)
    → AreRoots known (resolve_name lower target known).roots
unfolding resolve_name named_roots
resolve_name-AreRoots lower target known =
    let named = keep (λ r. lower (basename r) == lower target) known in
    let covered = concat (map (λ r. with_subfolders r known) named) in
    AreRoots-covering_or known (sorted_set covered) _ (sorted_set-IsAscending covered)
      (λ r h. contains-concat_subfolders r known named (sym (contains-sorted_set r covered) ∙ h)) tt

AreRoots-if :
    (known : List Text) (b : Bool) (s t : ProjectScope)
    → AreRoots known s.roots
    → AreRoots known t.roots
    → AreRoots known (if b then s else t).roots
AreRoots-if known true s t h k = h
AreRoots-if known false s t h k = k

resolve_target-AreRoots :
    (lower : Text → Text) (target : Text) (known : List Text)
    → IsAscending known
    → AreRoots known (resolve_target lower target known).roots
unfolding resolve_target
resolve_target-AreRoots lower [] known a = tt
resolve_target-AreRoots lower (c ∷ t) known a =
    AreRoots-if known (c == b'/') (resolve_path (c ∷ t) known) (resolve_name lower (c ∷ t) known)
      (resolve_path-AreRoots (c ∷ t) known a) (resolve_name-AreRoots lower (c ∷ t) known)

AreRoots-known :
    (known other : List Text) (roots : Option (List Text))
    → ((r : Text) → contains known r ≡ true → contains other r ≡ true)
    → AreRoots known roots
    → AreRoots other roots
AreRoots-known known other none h k = tt
AreRoots-known known other (some roots) h k = (k.0, k.1, All-map h roots k.2)

-- The roots of the scope of a request are none, for every project, or a rising list of indexed roots,
-- with one at least.
pub resolve_project_scope-AreRoots :
    (lower : Text → Text) (arg header_root : Option Text) (known_roots : List Text)
    → AreRoots known_roots (resolve_project_scope lower arg header_root known_roots).roots
unfolding resolve_project_scope
resolve_project_scope-AreRoots lower arg header_root known_roots =
    AreRoots-if known_roots (or_empty arg == codes "*") (every_project [])
      (resolve_target lower (target_of arg header_root) (sorted_set known_roots)) tt
      (AreRoots-known (sorted_set known_roots) known_roots _
        (λ r h. sym (contains-sorted_set r known_roots) ∙ h)
        (resolve_target-AreRoots lower (target_of arg header_root) (sorted_set known_roots)
          (sorted_set-IsAscending known_roots)))
