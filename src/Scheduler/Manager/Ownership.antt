-- ===== src/Scheduler/Manager/Ownership.antt =====
-- The invariant that whatever the engine still schedules, a registered record can remove, over the
-- steps that the operations of scheduler/scheduler.go are made of.
use gonex.Common.{
  ℕ, String, ◌≡◌, refl, ap, ◌∙◌, ◌⊎◌, inl, inr, Bool, true, false, Option, none, some, arith,
  is_empty, if◌then◌else◌, Option-cases,
}
use gonex.Common.Dict
use gonex.Common.Dict.{Dict, HasUniqueKeys, put-HasUniqueKeys, remove-HasUniqueKeys}
use gonex.Scheduler.Job.{Job}
use gonex.Scheduler.Engine.{Handle, Engine, IsLawful}
use gonex.Scheduler.Manager.{
  Err, JobRecord, Manager, install, remove_engine_jobs, publish, abort, put_job, new_job_record,
  new_overlap_gate,
}
use gonex.Scheduler.Manager.Operations.{install_locked, remove_engine_jobs_locked}
use gonex.Scheduler.Manager.Handles.{
  owns, owned, owned-put, owned-put_new, owned-put_self, owned-remove, install-owns,
  remove_engine_jobs-keeps, remove_engine_jobs_empty,
}

module _ (engine : Engine) (laws : IsLawful engine) where
  -- The engine of the manager still schedules the job `k`.
  abbrev pub InEngine : Manager engine.State → Handle → Type 0
  InEngine m k = (s : engine.State) × (m.inner ≡ some s) × (laws.scheduled s k ≡ true)

  pub record IsOwned (m : Manager engine.State) : Type 0 where
    pub owner : (k : Handle) → InEngine m k → owned m.jobs k ≡ true
    pub unique : HasUniqueKeys m.jobs

  pub install_locked-owns :
      (r : JobRecord) (m : Manager engine.State) (k : Handle)
      → InEngine (install_locked engine r m).2 k
      → InEngine m k
        ⊎ (((install_locked engine r m).0 ≡ none) × (owns (install_locked engine r m).1 k ≡ true))
  unfolding install_locked
  install_locked-owns r m k (s', e, h) = elim (Option-cases m.inner) [
    | inl nil ↦ absurd (ground arith)
    | inr (s, has) ↦
        let same : (install engine r s).2 ≡ s' = ground arith in
        elim (install-owns engine laws r s k (ap (λ t. laws.scheduled t k) same ∙ h)) [
          | inl before ↦ inl (s, has, before)
          | inr (fine, owner) ↦ inr (ground arith, ground arith)
        ]
  ]

  pub jobs-install_locked :
      (r : JobRecord) (m : Manager engine.State) → (install_locked engine r m).2.jobs ≡ m.jobs
  unfolding install_locked
  jobs-install_locked r m = ground arith

  pub remove_locked-keeps :
      (r : JobRecord) (m : Manager engine.State) (k : Handle)
      → InEngine (remove_engine_jobs_locked engine r m).2 k
      → InEngine m k × (owns r k ≡ true → owns (remove_engine_jobs_locked engine r m).1 k ≡ true)
  unfolding remove_engine_jobs_locked
  remove_locked-keeps r m k (s', e, h) = elim (Option-cases m.inner) [
    | inl nil ↦ absurd (ground arith)
    | inr (s, has) ↦
        let same : (remove_engine_jobs engine r s).2 ≡ s' = ground arith in
        let kept =
          remove_engine_jobs-keeps engine laws r s k (ap (λ t. laws.scheduled t k) same ∙ h) in
        ((s, has, kept.0), ground arith)
  ]

  pub remove_locked_empty :
      (r : JobRecord) (m : Manager engine.State) (k : Handle)
      → InEngine (remove_engine_jobs_locked engine r m).2 k
      → is_empty (remove_engine_jobs_locked engine r m).0 ≡ true
      → owns (remove_engine_jobs_locked engine r m).1 k ≡ false
  unfolding remove_engine_jobs_locked
  remove_locked_empty r m k (s', e, h) done = elim (Option-cases m.inner) [
    | inl nil ↦ absurd (ground arith)
    | inr (s, has) ↦
        rw (has, remove_engine_jobs_locked)
          (remove_engine_jobs_empty engine laws r s k (rw (has, remove_engine_jobs_locked) at done))
  ]

  pub jobs-remove_locked :
      (r : JobRecord) (m : Manager engine.State)
      → (remove_engine_jobs_locked engine r m).2.jobs ≡ m.jobs
  unfolding remove_engine_jobs_locked
  jobs-remove_locked r m = ground arith

  module _ (m m' : Manager engine.State) (same : m'.jobs ≡ m.jobs) (v : IsOwned m) where
    pub keep-IsOwned : ((k : Handle) → InEngine m' k → InEngine m k) → IsOwned m'
    keep-IsOwned before = record {
      owner = λ k h. rw same (v.owner k (before k h));
      unique = rw same v.unique;
    }

    pub put_new-IsOwned :
        (name : String) (r : JobRecord)
        → Dict.get m.jobs name ≡ none
        → ((k : Handle) → InEngine m' k → InEngine m k ⊎ (owns r k ≡ true))
        → IsOwned (put_job name r m')
    unfolding put_job
    put_new-IsOwned name r fresh before = record {
      owner = λ k h. rw same (elim (before k h) [
        | inl old ↦ owned-put_new m.jobs name r k fresh (let o = v.owner k old in ground arith)
        | inr new ↦ owned-put_self m.jobs name r k new
      ]);
      unique = rw same (put-HasUniqueKeys m.jobs name r v.unique);
    }

    pub put_old-IsOwned :
        (name : String) (old r : JobRecord)
        → Dict.get m.jobs name ≡ some old
        → ((k : Handle)
            → InEngine m' k
            → (InEngine m k × (owns old k ≡ true → owns r k ≡ true)) ⊎ (owns r k ≡ true))
        → IsOwned (put_job name r m')
    unfolding put_job
    put_old-IsOwned name old r found before = record {
      owner = λ k h. rw same (elim (before k h) [
        | inl (here, kept) ↦ owned-put m.jobs name old r k found (v.owner k here) kept
        | inr new ↦ owned-put_self m.jobs name r k new
      ]);
      unique = rw same (put-HasUniqueKeys m.jobs name r v.unique);
    }

    pub remove-IsOwned_lem :
        (name : String) (old : JobRecord)
        → Dict.get m.jobs name ≡ some old
        → ((k : Handle) → InEngine m' k → InEngine m k × (owns old k ≡ false))
        → IsOwned (record m' { jobs = Dict.remove m'.jobs name })
    remove-IsOwned_lem name old found before = record {
      owner = λ k h.
          let (here, free) = before k h in
          rw same (owned-remove m.jobs name old k v.unique found (v.owner k here) free);
      unique = rw same (remove-HasUniqueKeys m.jobs name v.unique);
    }

  -- The two ways in which an operation branches.
  pub IsOwned-if :
      (b : Bool) (x y : Option Err × Manager engine.State)
      → (b ≡ true → IsOwned x.1)
      → (b ≡ false → IsOwned y.1)
      → IsOwned (if b then x else y).1
  IsOwned-if true x y hx hy = hx refl
  IsOwned-if false x y hx hy = hy refl

  pub IsOwned-elim {ℓ} :
      {A : Type ℓ} (e : Option A) (x : A → Option Err × Manager engine.State)
      (y : Option Err × Manager engine.State)
      → ((a : A) → e ≡ some a → IsOwned (x a).1)
      → (e ≡ none → IsOwned y.1)
      → IsOwned (elim e as (λ _. Option Err × Manager engine.State) [ none ↦ y | some a ↦ x a ]).1
  IsOwned-elim (some a) x y hx hy = hx a refl
  IsOwned-elim none x y hx hy = hy refl

  pub publish-IsOwned : (t : ℕ) (m : Manager engine.State) → IsOwned m → IsOwned (publish t m)
  unfolding publish
  publish-IsOwned t m v = record { owner = v.owner; unique = v.unique }

  pub abort-IsOwned : (t : ℕ) (m : Manager engine.State) → IsOwned m → IsOwned (abort t m)
  unfolding abort
  abort-IsOwned t m v = record { owner = v.owner; unique = v.unique }

  pub new_overlap_gate-IsOwned :
      (job : Job) (m : Manager engine.State) → IsOwned m → IsOwned (new_overlap_gate job m).1
  unfolding new_overlap_gate
  new_overlap_gate-IsOwned job m v = record { owner = v.owner; unique = v.unique }

  pub new_job_record-IsOwned :
      (job : Job) (gate : ℕ) (b : Bool) (m : Manager engine.State)
      → IsOwned m
      → IsOwned (new_job_record job gate b m).1
  unfolding new_job_record publish
  new_job_record-IsOwned job gate true m v = record { owner = v.owner; unique = v.unique }
  new_job_record-IsOwned job gate false m v = record { owner = v.owner; unique = v.unique }

  pub jobs-new_job_record :
      (job : Job) (gate : ℕ) (b : Bool) (m : Manager engine.State)
      → (new_job_record job gate b m).1.jobs ≡ m.jobs
  unfolding new_job_record publish
  jobs-new_job_record job gate b m = ground arith

  pub jobs-new_overlap_gate :
      (job : Job) (m : Manager engine.State) → (new_overlap_gate job m).1.jobs ≡ m.jobs
  unfolding new_overlap_gate
  jobs-new_overlap_gate job m = refl

  -- A failed installation leaves the engine with what it had.
  pub install_failed :
      (r : JobRecord) (m : Manager engine.State) {x : Err}
      → (install_locked engine r m).0 ≡ some x
      → (k : Handle) → InEngine (install_locked engine r m).2 k
      → InEngine m k
  install_failed r m e k h = elim (install_locked-owns r m k h) [
    | inl before ↦ before
    | inr (fine, _) ↦ cc
  ]
