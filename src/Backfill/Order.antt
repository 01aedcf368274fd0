-- ===== src/Backfill/Order.antt =====
-- The order in which the jobs are handed out.
use session_flow.Base.{
  any, ◌||◌, Bool, String, refl, ◌≡◌, ◌<◌, ◌≤◌, ◌⊎◌, inl, inr, true, false, List, [], ◌∷◌, arith,
  Bool-cases, nat_eq,
}
use mathlib.Core.List.{Perm}
use mathlib.Core.List.Perm
use session_flow.Base.Dict
use session_flow.Backfill.Defs.{
  BackfillJob, BackfillManager, refresh, status, update_status, runs_before, sort_into, sort_jobs,
}

-- The key `(-priority, created_at)` of a job is at most that of another.
abbrev pub NotAfter : BackfillJob → BackfillJob → Type 0
NotAfter a b =
    (b.priority < a.priority) ⊎ ((a.priority ≡ b.priority) × (a.created_at ≤ b.created_at))

abbrev FirstNotAfter : BackfillJob → List BackfillJob → Type 0
FirstNotAfter a [] = Unit
FirstNotAfter a (b ∷ _) = NotAfter a b

abbrev pub IsOrdered : List BackfillJob → Type 0
IsOrdered [] = Unit
IsOrdered (a ∷ l) = FirstNotAfter a l × IsOrdered l

runs_before-NotAfter : (a b : BackfillJob) → runs_before a b ≡ true → NotAfter a b
unfolding runs_before
runs_before-NotAfter a b h = ground arith

not_runs_before-NotAfter : (a b : BackfillJob) → runs_before a b ≡ false → NotAfter b a
unfolding runs_before
not_runs_before-NotAfter a b h = ground arith

sort_into-FirstNotAfter :
    (a j : BackfillJob) (l : List BackfillJob)
    → FirstNotAfter a l
    → NotAfter a j
    → FirstNotAfter a (sort_into j l)
unfolding sort_into
sort_into-FirstNotAfter a j [] h first = first
sort_into-FirstNotAfter a j (k ∷ l) h first = elim (Bool-cases (runs_before k j)) [
  | inl e ↦ rw (e, sort_into) h
  | inr e ↦ rw (e, sort_into) first
]

sort_into-IsOrdered :
    (j : BackfillJob) (l : List BackfillJob) → IsOrdered l → IsOrdered (sort_into j l)
unfolding sort_into
sort_into-IsOrdered j [] o = (tt, tt)
sort_into-IsOrdered j (k ∷ l) (first, o) = elim (Bool-cases (runs_before k j)) [
  | inl e ↦
      rw (e, sort_into)
        (
          sort_into-FirstNotAfter k j l first (runs_before-NotAfter k j e),
          sort_into-IsOrdered j l o,
        )
  | inr e ↦ rw (e, sort_into) (not_runs_before-NotAfter k j e, (first, o))
]

sort_jobs-IsOrdered : (l : List BackfillJob) → IsOrdered (sort_jobs l)
unfolding sort_jobs
sort_jobs-IsOrdered [] = tt
sort_jobs-IsOrdered (j ∷ l) = sort_into-IsOrdered j (sort_jobs l) (sort_jobs-IsOrdered l)

sort_into-Perm : (j : BackfillJob) (l : List BackfillJob) → Perm (sort_into j l) (j ∷ l)
unfolding sort_into
sort_into-Perm j [] = Perm.refl (j ∷ [])
sort_into-Perm j (k ∷ l) = elim (Bool-cases (runs_before k j)) [
  | inl e ↦ rw (e, sort_into) (Perm.trans (Perm.cons k (sort_into-Perm j l)) (Perm.swap j k l))
  | inr e ↦ rw (e, sort_into) (Perm.refl (j ∷ k ∷ l))
]

sort_jobs-Perm : (l : List BackfillJob) → Perm (sort_jobs l) l
unfolding sort_jobs
sort_jobs-Perm [] = Perm.refl []
sort_jobs-Perm (j ∷ l) =
    Perm.trans (sort_into-Perm j (sort_jobs l)) (Perm.cons j (sort_jobs-Perm l))

refresh-jobs : (ps : List String) (m : BackfillManager) → (refresh ps m).jobs ≡ m.jobs
unfolding refresh update_status
refresh-jobs [] m = refl
refresh-jobs (p ∷ ps) m = refresh-jobs ps _

-- The jobs that `status` lists are the queued jobs, each once, and stand by falling priority, jobs of
-- one priority by rising creation time.
pub status-jobs :
    (m : BackfillManager)
    → IsOrdered (status m).0.jobs × Perm (status m).0.jobs (Dict.values m.jobs)
unfolding status
status-jobs m =
    rw (refresh-jobs _ m)
      (sort_jobs-IsOrdered (Dict.values m.jobs), sort_jobs-Perm (Dict.values m.jobs))

pub jobs-status : (m : BackfillManager) → (status m).1.jobs ≡ m.jobs
unfolding status
jobs-status m = rw (refresh-jobs _ m) refl

-- A test that some job passes is the same on the jobs that `status` lists.
any-sort_into :
    (p : BackfillJob → Bool) (j : BackfillJob) (l : List BackfillJob)
    → any p (sort_into j l) ≡ (p j || any p l)
unfolding sort_into
any-sort_into p j [] = ground arith
any-sort_into p j (k ∷ l) = ground (arith, any-sort_into p j l)

any-sort_jobs : (p : BackfillJob → Bool) (l : List BackfillJob) → any p (sort_jobs l) ≡ any p l
unfolding sort_jobs
any-sort_jobs p [] = refl
any-sort_jobs p (j ∷ l) = ground (arith, any-sort_into p j (sort_jobs l), any-sort_jobs p l)

pub any-status :
    (p : BackfillJob → Bool) (m : BackfillManager)
    → any p (status m).0.jobs ≡ any p (Dict.values m.jobs)
unfolding status
any-status p m = rw (refresh-jobs _ m) (any-sort_jobs p (Dict.values m.jobs))
