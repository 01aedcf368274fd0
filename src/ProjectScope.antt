-- ===== src/ProjectScope.antt =====
-- project_scope.py: the indexed roots that a search covers. Paths and names are code points. `str.lower`
-- is a parameter, for it goes by the tables of Unicode.
pub mod Laws
pub mod Paths
use session_flow.Base.{
  ℕ, zero, suc, ◌+◌, ◌-◌, ◌<◌, Bool, true, false, not, ◌&&◌, ◌||◌, Option, none, some, List, [],
  ◌∷◌, ◌++◌, map, length, take, keep, concat, ltb, ◌==◌, nat_eq, if◌then◌else◌,
}
use session_flow.Base.Order.{Order}
use session_flow.Base.Texts.{
  Text, text_eq, text_order, starts_with, find_text, is_space, strip, strip_right, codes,
}
use session_flow.Passages.DocId.{decimal}

-- The roots to match, or `none` for every project.
pub record ProjectScope : Type 0 where
  pub roots : Option (List Text)
  pub note : Text
  pub unnamed : Bool

-- `list(self.roots) if self.roots else None`
unfoldable pub filter_value : ProjectScope → Option (List Text)
filter_value s = elim (s.roots) [
  | none ↦ none
  | some roots ↦ elim roots [ [] ↦ none | r ∷ l ↦ some (r ∷ l) ]
]

abbrev pub label_roots : ℕ
label_roots = 3

-- `", ".join(texts)`
unfoldable pub join : Text → List Text → Text
join separator [] = []
join separator (t ∷ []) = t
join separator (t ∷ u ∷ l) = t ++ (separator ++ join separator (u ∷ l))

abbrev pub label_of : List Text → Text
label_of roots =
    let shown = join (codes ", ") (take label_roots roots) in
    if ltb label_roots (length roots)
    then shown ++ (codes " (+" ++ (decimal (length roots - label_roots) ++ codes " more)"))
    else shown

unfoldable pub label : ProjectScope → Text
unfolding filter_value join
label s = elim (filter_value s) [ none ↦ codes "all projects" | some roots ↦ label_of roots ]

abbrev pub worktree_markers : List Text
worktree_markers = codes "/.worktrees/" ∷ codes "/.claude/worktrees/" ∷ []

abbrev pub slash : Text
slash = b'/' ∷ []

-- `sorted(set(texts))`
unfoldable pub insert_root : Text → List Text → List Text
insert_root r [] = r ∷ []
insert_root r (s ∷ l) =
    let rest = insert_root r l in
    if text_order.lt r s then r ∷ s ∷ l else if text_order.lt s r then s ∷ rest else s ∷ l

unfoldable pub sorted_set : List Text → List Text
unfolding insert_root
sorted_set [] = []
sorted_set (r ∷ l) = insert_root r (sorted_set l)

-- Whether a root is the base or lies under it.
abbrev pub is_under : Text → Text → Bool
is_under base r = if base == slash then r == slash else (r == base) || starts_with (base ++ slash) r

unfoldable pub with_subfolders : Text → List Text → List Text
unfolding starts_with
with_subfolders base known = keep (is_under base) known

-- `max(parents, key=len)`, the first of the longest.
unfoldable pub longest : Text → List Text → Text
longest best [] = best
longest best (r ∷ l) = longest (if ltb (length best) (length r) then r else best) l

abbrev pub is_parent : Text → Text → Bool
is_parent path r = not (r == slash) && starts_with (r ++ slash) path

abbrev pub longest_of : List Text → Option Text
longest_of [] = none
longest_of (r ∷ l) = some (longest r l)

unfoldable pub nearest_parent : Text → List Text → Option Text
unfolding longest starts_with
nearest_parent path known = longest_of (keep (is_parent path) known)

-- `s.split("/")`, from the characters of the part so far.
unfoldable pub split_from : Text → Text → List Text
split_from part [] = part ∷ []
split_from part (c ∷ s) =
    let next = split_from [] s in
    let more = split_from (part ++ c ∷ []) s in if c == b'/' then part ∷ next else more

unfoldable pub last_part : List Text → Text
last_part [] = []
last_part (p ∷ []) = p
last_part (p ∷ q ∷ l) = last_part (q ∷ l)

unfoldable pub basename : Text → Text
unfolding split_from last_part strip_right
basename root = last_part (split_from [] (strip_right (λ c. c == b'/') root))

-- The loop of `posixpath.normpath` on an absolute path, with the parts so far, the last one first.
unfoldable pub resolve_parts : List Text → List Text → List Text
resolve_parts parts [] = parts
resolve_parts parts (p ∷ l) =
    let next =
      if (p == []) || (p == codes ".")
      then parts
      else if p == codes ".."
      then elim parts [ [] ↦ [] | _ ∷ before ↦ before ]
      else p ∷ parts in
    resolve_parts next l

unfoldable pub join_parts : List Text → Text → Text
join_parts [] after = after
join_parts (p ∷ []) after = p ++ after
join_parts (p ∷ q ∷ l) after = join_parts (q ∷ l) (slash ++ (p ++ after))

-- `"/" + posixpath.normpath(target).lstrip("/")` of an absolute path.
unfoldable pub normal_path : Text → Text
unfolding split_from resolve_parts join_parts
normal_path target = slash ++ join_parts (resolve_parts [] (split_from [] target)) []

-- `path.split(marker, 1)[0]` for each marker.
unfoldable pub before_markers : List Text → Text → Text
unfolding find_text
before_markers [] path = path
before_markers (marker ∷ markers) path =
    before_markers markers (elim (find_text marker path) [ none ↦ path | some k ↦ take k path ])

abbrev pub every_project : Text → ProjectScope
every_project note = record { roots = none; note = note; unnamed = false }

abbrev pub covering : List Text → Text → ProjectScope
covering roots note = record { roots = some roots; note = note; unnamed = false }

-- The scope of what is found, or another.
abbrev pub covering_or : List Text → ProjectScope → ProjectScope
covering_or [] otherwise = otherwise
covering_or (r ∷ l) otherwise = covering (r ∷ l) []

abbrev pub nearest_or : Text → Option Text → ProjectScope
nearest_or target none = every_project (codes "no indexed turns under " ++ target)
nearest_or target (some []) = every_project (codes "no indexed turns under " ++ target)
nearest_or target (some (c ∷ parent)) =
    covering ((c ∷ parent) ∷ []) (codes "nearest indexed parent of " ++ target)

abbrev pub path_of : Text → Text
path_of target = before_markers worktree_markers (normal_path target)

-- An absolute path.
unfoldable pub resolve_path : Text → List Text → ProjectScope
unfolding before_markers normal_path with_subfolders nearest_parent
resolve_path target known =
    covering_or (with_subfolders (path_of target) known)
      (nearest_or target (nearest_parent (path_of target) known))

abbrev pub or_empty : Option Text → Text
or_empty none = []
or_empty (some t) = t

abbrev pub target_of : Option Text → Option Text → Text
target_of arg header_root = elim (strip is_space (or_empty arg)) [
  | [] ↦ strip is_space (or_empty header_root)
  | c ∷ t ↦ c ∷ t
]

module _ (lower : Text → Text) where
  unfoldable pub named_roots : Text → List Text → List Text
  unfolding sorted_set with_subfolders basename
  named_roots name known =
      sorted_set
        (concat (map (λ r. with_subfolders r known) (keep (λ r. lower (basename r) == name) known)))

  -- A bare name.
  unfoldable pub resolve_name : Text → List Text → ProjectScope
  unfolding named_roots
  resolve_name target known =
      covering_or (named_roots (lower target) known)
        (every_project (codes "no project named \"" ++ (target ++ codes "\"")))

  unfoldable pub resolve_target : Text → List Text → ProjectScope
  unfolding resolve_path resolve_name
  resolve_target [] known = record {
    roots = none;
    note = codes "no current project";
    unnamed = true;
  }
  resolve_target (c ∷ t) known =
      if c == b'/' then resolve_path (c ∷ t) known else resolve_name (c ∷ t) known

  unfoldable pub resolve_project_scope : Option Text → Option Text → List Text → ProjectScope
  unfolding resolve_target strip sorted_set
  resolve_project_scope arg header_root known_roots =
      if or_empty arg == codes "*"
      then every_project []
      else resolve_target (target_of arg header_root) (sorted_set known_roots)
