-- ===== src/Tests/ProjectScope.antt =====
-- Scopes over five indexed roots. The names are in ASCII.
use session_flow.Base.{◌≡◌, refl, List, [], ◌∷◌, none, some, map, take, true, false, nat_eq}
use session_flow.Base.Texts.{Text, text_eq, text_lt, codes, strip}
use session_flow.Redaction.Collect.{lower}
use session_flow.Passages.DocId.{decimal}
use session_flow.ProjectScope.{path_of, resolve_project_scope, label}
use session_flow.ProjectScope.Paths.{IsPathScope, resolve_project_scope-IsPathScope}
use session_flow.ProjectScope.Laws.{AreRoots, resolve_project_scope-AreRoots}

abbrev indexed : List Text
indexed =
    codes "/work/flow"
    ∷ codes "/work/Flow2"
    ∷ codes "/work/flow/hooks"
    ∷ codes "/work"
    ∷ codes "/"
    ∷ []

abbrev in_worktree : Text
in_worktree = codes " /work//flow/.worktrees/one "

resolve_project_scope-AreRoots_example :
    AreRoots indexed (resolve_project_scope (map lower) (some in_worktree) none indexed).roots
resolve_project_scope-AreRoots_example =
    resolve_project_scope-AreRoots (map lower) (some in_worktree) none indexed

resolve_project_scope-IsPathScope_example :
    IsPathScope
      (path_of (codes "/work/flown/x/.."))
      indexed
      (resolve_project_scope (map lower) none (some (codes " /work/flown/x/..")) indexed).roots
unfolding text_eq nat_eq strip
resolve_project_scope-IsPathScope_example =
    resolve_project_scope-IsPathScope (map lower) none (some (codes " /work/flown/x/..")) indexed
      (codes "work/flown/x/..") refl refl

scope_of_nothing :
    resolve_project_scope (map lower) (some (codes "  ")) none indexed
    ≡ record { roots = none; note = codes "no current project"; unnamed = true }
unfolding resolve_project_scope text_eq nat_eq text_lt
scope_of_nothing = refl

scope_of_worktree :
    (resolve_project_scope (map lower) (some in_worktree) none indexed).roots
    ≡ some (codes "/work/flow" ∷ codes "/work/flow/hooks" ∷ [])
unfolding resolve_project_scope text_eq nat_eq text_lt
scope_of_worktree = refl

scope_of_name :
    (resolve_project_scope (map lower) (some (codes "FLOW")) none indexed).roots
    ≡ some (codes "/work/flow" ∷ codes "/work/flow/hooks" ∷ [])
unfolding resolve_project_scope text_eq nat_eq text_lt lower
scope_of_name = refl

-- An unindexed path has its nearest parent, a folder that only begins alike has not.
scope_of_parent :
    (resolve_project_scope (map lower) none (some (codes "/work/flown/x/..")) indexed).roots
    ≡ some (codes "/work" ∷ [])
unfolding resolve_project_scope text_eq nat_eq text_lt
scope_of_parent = refl

label_of_four :
    label (record { roots = some (take 4 indexed); note = []; unnamed = false })
    ≡ codes "/work/flow, /work/Flow2, /work/flow/hooks (+1 more)"
unfolding label decimal
label_of_four = refl
