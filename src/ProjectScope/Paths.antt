-- ===== src/ProjectScope/Paths.antt =====
-- Which indexed roots the scope of a path has.
use mathlib.Core.List.{cons≢nil}
use mathlib.Core.Path.{subst}
use mathlib.Core.Option.{some-injective}
use session_flow.Base.{
  ℕ, ◌≤◌, ◌≡◌, refl, sym, ap, ◌∙◌, ◌⊎◌, Bool, true, false, not, ◌&&◌, ◌||◌, Option, none, some,
  List, [], ◌∷◌, ◌++◌, length, keep, keep-cons_true, keep-cons_false, All, All-map, contains,
  contains-keep_at, ltb, ◌==◌, nat_eq, if◌then◌else◌, arith, Bool-cases, inl, inr,
}
use session_flow.Base.Texts.{Text, text_eq, text_order, codes, starts_with}
use session_flow.ProjectScope.{
  slash, insert_root, sorted_set, is_under, is_parent, with_subfolders, longest, longest_of,
  nearest_parent, nearest_or, covering_or, every_project, path_of, resolve_path, resolve_target,
  or_empty, target_of, resolve_project_scope,
}
use session_flow.ProjectScope.Laws.{contains-sorted_set, longest_of-contains}

-- Whether a root is at a path or under it. Of all roots, only `/` itself counts as under `/`.
abbrev pub is_within : Text → Text → Bool
is_within path r = (r == path) || (not (path == slash) && starts_with (path ++ slash) r)

-- The length of a folder that a path lies in, `/` apart, and 0 of another text.
abbrev pub parent_length : Text → Text → ℕ
parent_length path r = if not (r == slash) && starts_with (r ++ slash) path then length r else 0

-- No indexed root is at the path or under it.
abbrev pub HasNone : Text → List Text → Type 0
HasNone path known = All (λ r. is_within path r ≡ false) known

-- An indexed folder, `/` apart, that a path lies in, and that no other is longer than.
abbrev pub IsNearest : Text → List Text → Text → Type 0
IsNearest path known q =
    (contains known q ≡ true)
    × (not (q == slash) && starts_with (q ++ slash) path ≡ true)
    × All (λ r. parent_length path r ≤ length q) known

-- What the scope of a path may be: all indexed roots at it and under it, or, when there are none of these, its
-- nearest parent, or, when there is no parent but the empty text, every project.
abbrev pub IsPathScope : Text → List Text → Option (List Text) → Type 0
IsPathScope path known none = HasNone path known × All (λ r. parent_length path r ≡ 0) known
IsPathScope path known (some roots) =
    ((r : Text) → contains roots r ≡ (contains known r && is_within path r))
    ⊎ ((q : Text) × (roots ≡ q ∷ []) × HasNone path known × IsNearest path known q)

or_never : (b c : Bool) → b ≡ (b || (not true && c))
or_never true c = refl
or_never false c = refl

is_slash : (slash == slash) ≡ true
unfolding text_eq nat_eq
is_slash = refl

is_under-slash : (r : Text) → is_under slash r ≡ is_within slash r
is_under-slash r = rw is_slash (or_never (r == slash) (starts_with (slash ++ slash) r))

is_under-is_within : (path r : Text) → is_under path r ≡ is_within path r
is_under-is_within path r = elim (text_eq.dec path slash) [
  | yes e ↦ subst (λ p. is_under p r ≡ is_within p r) (sym e) (is_under-slash r)
  | no n ↦ ground (arith, n)
]

keep_none : (p : Text → Bool) (l : List Text) → keep p l ≡ [] → All (λ r. p r ≡ false) l
keep_none p [] h = tt
keep_none p (r ∷ l) h = elim (Bool-cases (p r)) [
  | inl e ↦ absurd (cons≢nil (sym (keep-cons_true p r l e) ∙ h))
  | inr e ↦ (e, keep_none p l (sym (keep-cons_false p r l e) ∙ h))
]

longest_bound :
    (best : Text) (l : List Text)
    → (length best ≤ length (longest best l)) × All (λ r. length r ≤ length (longest best l)) l
unfolding longest
longest_bound best [] = (omega arith, tt)
longest_bound best (r ∷ l) = elim (Bool-cases (ltb (length best) (length r))) [
  | inl e ↦
      let same : longest best (r ∷ l) ≡ longest r l =
        ap (λ b. longest (if b then r else best) l) e in
      let k = longest_bound r l in
      subst (λ m. (length best ≤ length m) × All (λ s. length s ≤ length m) (r ∷ l)) (sym same)
        (grind (arith, k.0, e), (k.0, k.1))
  | inr e ↦
      let same : longest best (r ∷ l) ≡ longest best l =
        ap (λ b. longest (if b then r else best) l) e in
      let k = longest_bound best l in
      subst (λ m. (length best ≤ length m) × All (λ s. length s ≤ length m) (r ∷ l)) (sym same)
        (k.0, (grind (arith, k.0, e), k.1))
]

bound_longest_of :
    (l : List Text) (q : Text) → longest_of l ≡ some q → All (λ r. length r ≤ length q) l
bound_longest_of [] q h = tt
bound_longest_of (r ∷ l) q h =
    subst (λ m. All (λ s. length s ≤ length m) (r ∷ l)) (some-injective (longest r l) q h)
      (longest_bound r l)

longest_of-none : (l : List Text) → longest_of l ≡ none → l ≡ []
longest_of-none [] h = refl
longest_of-none (r ∷ l) h = cc h

keep_bound :
    (p : Text → Bool) (n : ℕ) (l : List Text)
    → All (λ r. length r ≤ n) (keep p l)
    → All (λ r. (if p r then length r else 0) ≤ n) l
keep_bound p n [] h = tt
keep_bound p n (r ∷ l) h = elim (Bool-cases (p r)) [
  | inl e ↦
      let k = subst (All (λ s. length s ≤ n)) (keep-cons_true p r l e) h in
      rw e (k.0, keep_bound p n l k.1)
  | inr e ↦
      let k = subst (All (λ s. length s ≤ n)) (keep-cons_false p r l e) h in
      rw e (omega arith, keep_bound p n l k)
]

-- The answer of `longest_of` over the parents that are indexed.
IsNearest-longest_of :
    (path : Text) (known : List Text) (q : Text)
    → nearest_parent path known ≡ some q
    → IsNearest path known q
unfolding nearest_parent
IsNearest-longest_of path known q h = (
  ground (
    arith,
    contains-keep_at (is_parent path) q known,
    longest_of-contains (keep (is_parent path) known) q h,
  ),
  ground (
    arith,
    contains-keep_at (is_parent path) q known,
    longest_of-contains (keep (is_parent path) known) q h,
  ),
  keep_bound (is_parent path) (length q) known (bound_longest_of (keep (is_parent path) known) q h),
)

nearest_none :
    (path : Text) (known : List Text)
    → nearest_parent path known ≡ none
    → All (λ r. parent_length path r ≡ 0) known
unfolding nearest_parent
nearest_none path known h =
    All-map (λ r e. rw e refl) known
      (keep_none (is_parent path) known (longest_of-none (keep (is_parent path) known) h))

-- From the sorted set to the roots that are given.
All-insert_root_back :
    (P : Text → Type 0) (r : Text) (l : List Text) → All P (insert_root r l) → P r × All P l
unfolding insert_root
All-insert_root_back P r [] h = h
All-insert_root_back P r (s ∷ l) h = elim (Bool-cases (text_order.lt r s)) [
  | inl e ↦ let same : insert_root r (s ∷ l) ≡ r ∷ s ∷ l = rw e refl in subst (All P) same h
  | inr e ↦ elim (Bool-cases (text_order.lt s r)) [
    | inl f ↦
        let same : insert_root r (s ∷ l) ≡ s ∷ insert_root r l = rw (e, f) refl in
        let k = subst (All P) same h in let m = All-insert_root_back P r l k.1 in (m.0, (k.0, m.1))
    | inr f ↦
        let same : insert_root r (s ∷ l) ≡ s ∷ l = rw (e, f) refl in
        let k = subst (All P) same h in (subst P (sym (text_order.lt_total r s e f)) k.0, k)
  ]
]

All-sorted_set_back : (P : Text → Type 0) (l : List Text) → All P (sorted_set l) → All P l
unfolding sorted_set
All-sorted_set_back P [] h = tt
All-sorted_set_back P (r ∷ l) h =
    let k = All-insert_root_back P r (sorted_set l) h in (k.0, All-sorted_set_back P l k.1)

IsPathScope-nearest_or :
    (path target : Text) (known : List Text)
    → HasNone path known
    → IsPathScope path known (nearest_or target (nearest_parent path known)).roots
IsPathScope-nearest_or path target known h = go (nearest_parent path known) refl
  where
    go :
        (o : Option Text)
        → nearest_parent path known ≡ o
        → IsPathScope path known (nearest_or target o).roots
    go none e = (h, nearest_none path known e)
    go (some []) e =
        (h, All-map (λ r k. omega (arith, k)) known (IsNearest-longest_of path known [] e).2)
    go (some (c ∷ q)) e = inr (c ∷ q, refl, h, IsNearest-longest_of path known (c ∷ q) e)

contains-keep_right :
    (p : Text → Bool) (a : Text) (l : List Text) → contains (keep p l) a ≡ (contains l a && p a)
contains-keep_right p a l = contains-keep_at p a l ∙ ground arith

resolve_path-IsPathScope :
    (target : Text) (known : List Text)
    → IsPathScope (path_of target) known (resolve_path target known).roots
unfolding resolve_path with_subfolders
resolve_path-IsPathScope target known = go (keep (is_under (path_of target)) known) refl
  where
    go :
        (l : List Text)
        → keep (is_under (path_of target)) known ≡ l
        → IsPathScope
            (path_of target)
            known
            (covering_or l (nearest_or target (nearest_parent (path_of target) known))).roots
    go [] e = IsPathScope-nearest_or (path_of target) target known (
        All-map (λ r h. sym (is_under-is_within (path_of target) r) ∙ h) known
          (keep_none (is_under (path_of target)) known e))
    go (r ∷ l) e = inl (λ s.
        ap (λ m. contains m s) (sym e)
        ∙ contains-keep_right (is_under (path_of target)) s known
        ∙ ap (λ b. contains known s && b) (is_under-is_within (path_of target) s))

IsPathScope-sorted_set :
    (path : Text) (known : List Text) (o : Option (List Text))
    → IsPathScope path (sorted_set known) o
    → IsPathScope path known o
IsPathScope-sorted_set path known none h =
    (All-sorted_set_back _ known h.0, All-sorted_set_back _ known h.1)
IsPathScope-sorted_set path known (some roots) (inl h) =
    inl (λ r. h r ∙ ap (λ b. b && is_within path r) (contains-sorted_set r known))
IsPathScope-sorted_set path known (some roots) (inr (q, e, h, n)) = inr (
  q,
  e,
  All-sorted_set_back _ known h,
  (sym (contains-sorted_set q known) ∙ n.0, n.1, All-sorted_set_back _ known n.2),
)

pub resolve_project_scope-IsPathScope :
    (lower : Text → Text) (arg header_root : Option Text) (known_roots : List Text) (t : Text)
    → (or_empty arg == codes "*") ≡ false
    → target_of arg header_root ≡ b'/' ∷ t
    → IsPathScope
        (path_of (b'/' ∷ t))
        known_roots
        (resolve_project_scope lower arg header_root known_roots).roots
unfolding resolve_project_scope resolve_target nat_eq
resolve_project_scope-IsPathScope lower arg header_root known_roots t named e =
    let known = sorted_set known_roots in
    let scoped =
      IsPathScope-sorted_set (path_of (b'/' ∷ t)) known_roots _
        (resolve_path-IsPathScope (b'/' ∷ t) known) in
    let given : resolve_project_scope lower arg header_root known_roots
        ≡ resolve_path (b'/' ∷ t) known =
      ap
        (λ b.
          if b then every_project [] else resolve_target lower (target_of arg header_root) known)
        named
      ∙ ap (λ target. resolve_target lower target known) e in
    subst (λ s. IsPathScope (path_of (b'/' ∷ t)) known_roots s.roots) (sym given) scoped
