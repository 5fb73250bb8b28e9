-- ===== src/Scheduler/Manager/Handles.antt =====
-- Which record owns an engine job, and what the calls of the engine in scheduler/scheduler.go do to
-- owned jobs.
use gonex.Common.{
  ◌≡◌, refl, sym, ap, ◌∙◌, ◌⊎◌, inl, inr, Bool, true, false, ◌||◌, Option, none, some, List, [],
  ◌∷◌, ◌++◌, arith, nat_eq, is_empty, eq_iff, String, Option-cases, Bool-cases,
}
use gonex.Common.Dict
use gonex.Common.Dict.{Dict, get, put, HasUniqueKeys}
use gonex.Scheduler.Engine.{Handle, Created, ok, failed, Engine, IsLawful}
use gonex.Scheduler.Manager.{
  JobRecord, install, remove_each, remove_inner, remove_engine_jobs, installed, schedule_definition,
}

abbrev pub holds : List Handle → Handle → Bool
holds [] k = false
holds (h ∷ hs) k = nat_eq h k || holds hs k

abbrev pub is_handle : Option Handle → Handle → Bool
is_handle none k = false
is_handle (some h) k = nat_eq h k

-- The record can still remove the engine job `k`.
abbrev pub owns : JobRecord → Handle → Bool
owns r k = is_handle r.inner k || holds r.cleanup k

abbrev pub owned : Dict JobRecord → Handle → Bool
owned [] k = false
owned ((name, r) ∷ jobs) k = owns r k || owned jobs k

pub holds-append :
    (xs ys : List Handle) (k : Handle) → holds (xs ++ ys) k ≡ (holds xs k || holds ys k)
holds-append [] ys k = refl
holds-append (x ∷ xs) ys k = ground (arith, holds-append xs ys k)

-- A new record for a name gives up only what the old record of that name owned.
pub owned-put :
    (m : Dict JobRecord) (name : String) (old r : JobRecord) (k : Handle)
    → get m name ≡ some old
    → owned m k ≡ true
    → (owns old k ≡ true → owns r k ≡ true)
    → owned (put m name r) k ≡ true
unfolding get put
owned-put [] name old r k h o keep = cc
owned-put ((i, x) ∷ m) name old r k h o keep = ground (arith, owned-put m name old r k)

pub owned-put_new :
    (m : Dict JobRecord) (name : String) (r : JobRecord) (k : Handle)
    → get m name ≡ none
    → (owned m k || owns r k) ≡ true
    → owned (put m name r) k ≡ true
unfolding get put
owned-put_new [] name r k h o = ground arith
owned-put_new ((i, x) ∷ m) name r k h o = ground (arith, owned-put_new m name r k)

-- What the new record owns is owned.
pub owned-put_self :
    (m : Dict JobRecord) (name : String) (r : JobRecord) (k : Handle)
    → owns r k ≡ true
    → owned (put m name r) k ≡ true
unfolding put
owned-put_self [] name r k o = ground arith
owned-put_self ((i, x) ∷ m) name r k o = ground (arith, owned-put_self m name r k)

owned-remove-none :
    (m : Dict JobRecord) (name : String) (k : Handle) → get m name ≡ none → Dict.remove m name ≡ m
unfolding get Dict.remove
owned-remove-none [] name k h = refl
owned-remove-none ((i, x) ∷ m) name k h = ground (arith, owned-remove-none m name k)

pub owned-remove :
    (m : Dict JobRecord) (name : String) (old : JobRecord) (k : Handle)
    → HasUniqueKeys m
    → get m name ≡ some old
    → owned m k ≡ true
    → owns old k ≡ false
    → owned (Dict.remove m name) k ≡ true
unfolding get Dict.remove
owned-remove [] name old k u h o free = cc
owned-remove ((i, x) ∷ m) name old k (fresh, u) h o free =
    ground (arith, owned-remove m name old k u, owned-remove-none m name k, eq_iff i name)

module _ (engine : Engine) (laws : IsLawful engine) where
  open laws use {scheduled}

  -- What is left of the engine's jobs was there before, and is not the job that was removed.
  remove_job-keeps :
      (h : Handle) (s : engine.State) (k : Handle)
      → scheduled (engine.remove_job h s).1 k ≡ true
      → (scheduled s k ≡ true) × ((engine.remove_job h s).0 ≡ none → nat_eq h k ≡ false)
  remove_job-keeps h s k left = elim (Option-cases (engine.remove_job h s).0) [
    | inl e ↦
        let exact = laws.remove_job_exact h s e k in
        (ground (arith, exact, left), λ _. ground (arith, exact, left))
    | inr (x, e) ↦
        let same = laws.remove_job_failed h s (λ none_too. cc (e, none_too)) in
        (rw same at left, λ none_too. cc (e, none_too))
  ]

  remove_each_engine :
      (x : Handle) (hs : List Handle) (s : engine.State)
      → (remove_each engine (x ∷ hs) s).2 ≡ (remove_each engine hs (engine.remove_job x s).1).2
  unfolding remove_each
  remove_each_engine x hs s = ground arith

  -- A job that outlives the removal of some handles was there before, and its handle is kept.
  remove_each-keeps :
      (hs : List Handle) (s : engine.State) (k : Handle)
      → scheduled (remove_each engine hs s).2 k ≡ true
      → (scheduled s k ≡ true) × (holds hs k ≡ true → holds (remove_each engine hs s).1 k ≡ true)
  unfolding remove_each
  remove_each-keeps [] s k h = (h, λ o. o)
  remove_each-keeps (x ∷ hs) s k h =
      let rest =
        remove_each-keeps hs (engine.remove_job x s).1 k
          (ap (λ t. scheduled t k) (sym (remove_each_engine x hs s)) ∙ h) in
      let first = remove_job-keeps x s k rest.0 in (first.0, ground arith)

  remove_each_empty :
      (hs : List Handle) (s : engine.State)
      → is_empty (remove_each engine hs s).0 ≡ true
      → (remove_each engine hs s).1 ≡ []
  unfolding remove_each
  remove_each_empty [] s h = refl
  remove_each_empty (x ∷ hs) s h = ground (arith, remove_each_empty hs (engine.remove_job x s).1)

  remove_inner-keeps :
      (r : JobRecord) (s : engine.State) (k : Handle)
      → scheduled (remove_inner engine r s).2 k ≡ true
      → (scheduled s k ≡ true) × (owns r k ≡ true → owns (remove_inner engine r s).1 k ≡ true)
  unfolding remove_inner
  remove_inner-keeps r s k h = elim (Option-cases r.inner) [
    | inl e ↦ ground arith
    | inr (x, e) ↦
        let same : (remove_inner engine r s).2 ≡ (engine.remove_job x s).1 = ground arith in
        let first = remove_job-keeps x s k (ap (λ t. scheduled t k) (sym same) ∙ h) in
        (first.0, ground arith)
  ]

  remove_inner_empty :
      (r : JobRecord) (s : engine.State)
      → is_empty (remove_inner engine r s).0 ≡ true
      → ((remove_inner engine r s).1.inner ≡ none)
        × ((remove_inner engine r s).1.cleanup ≡ r.cleanup)
  unfolding remove_inner
  remove_inner_empty r s h = ground arith

  -- A job that outlives the removal of a record's jobs was there before, and a job of the record is
  -- still the record's.
  pub remove_engine_jobs-keeps :
      (r : JobRecord) (s : engine.State) (k : Handle)
      → scheduled (remove_engine_jobs engine r s).2 k ≡ true
      → (scheduled s k ≡ true) × (owns r k ≡ true → owns (remove_engine_jobs engine r s).1 k ≡ true)
  unfolding remove_engine_jobs
  remove_engine_jobs-keeps r s k h =
      elim (Bool-cases (is_empty (remove_each engine r.cleanup s).0)) [
        | inl e ↦
            let each = remove_each engine r.cleanup s in
            let left : JobRecord = record r { cleanup = each.1 } in
            let last = remove_inner-keeps left each.2 k (rw (e, remove_engine_jobs) at h) in
            let before = remove_each-keeps r.cleanup s k last.0 in
            rw (e, remove_engine_jobs) (before.0, λ o. last.1 (ground arith))
        | inr e ↦
            let before = remove_each-keeps r.cleanup s k (rw (e, remove_engine_jobs) at h) in
            rw (e, remove_engine_jobs) (before.0, λ o. ground arith)
      ]

  -- A removal without an error leaves the record with no job.
  pub remove_engine_jobs_empty :
      (r : JobRecord) (s : engine.State) (k : Handle)
      → is_empty (remove_engine_jobs engine r s).0 ≡ true
      → owns (remove_engine_jobs engine r s).1 k ≡ false
  unfolding remove_engine_jobs
  remove_engine_jobs_empty r s k h =
      elim (Bool-cases (is_empty (remove_each engine r.cleanup s).0)) [
        | inl e ↦
            let each = remove_each engine r.cleanup s in
            let left : JobRecord = record r { cleanup = each.1 } in
            let last = remove_inner_empty left each.2 (rw (e, remove_engine_jobs) at h) in
            let gone = remove_each_empty r.cleanup s e in rw (e, remove_engine_jobs) (ground arith)
        | inr e ↦ absurd (ground arith)
      ]

  installed-owns :
      (r : JobRecord) (s : engine.State) (k : Handle) (made : Created (Handle × engine.State))
      → ((t : Handle) (s' : engine.State)
          → made ≡ ok (t, s')
          → scheduled s' k ≡ (nat_eq t k || scheduled s k))
      → scheduled (installed engine r s made).2 k ≡ true
      → (scheduled s k ≡ true)
        ⊎ (((installed engine r s made).0 ≡ none) × (owns (installed engine r s made).1 k ≡ true))
  unfolding installed
  installed-owns r s k (failed e) fresh h = inl h
  installed-owns r s k (ok (t, s')) fresh h = ground (arith, fresh t s' refl)

  -- An installation that succeeds schedules one job more, which the record owns; one that fails
  -- changes nothing.
  pub install-owns :
      (r : JobRecord) (s : engine.State) (k : Handle)
      → scheduled (install engine r s).2 k ≡ true
      → (scheduled s k ≡ true)
        ⊎ (((install engine r s).0 ≡ none) × (owns (install engine r s).1 k ≡ true))
  unfolding install
  install-owns r s k h = elim (Option-cases (schedule_definition r.definition.schedule)) [
    | inl e ↦ ground arith
    | inr (d, e) ↦
        let made = engine.new_job d r.definition.name r.definition.run_immediately r.token s in
        let owner =
          installed-owns r s k made (λ t s' same. laws.new_job_fresh d _ _ _ s t s' same k) in
        rw (e, install) (owner (rw (e, install) at h))
  ]
