-- ===== src/Scheduler/Manager/Reachable.antt =====
-- The managers that any sequence of calls of scheduler/scheduler.go reaches.
use gonex.Common.{
  ℕ, String, ◌≡◌, refl, sym, ap, ◌∙◌, ◌⊎◌, inl, inr, Bool, true, false, Option, none, some, List,
  [], ◌∷◌, arith, Option-cases, if_cases, option_cases,
}
use gonex.Common.Dict
use gonex.Common.Dict.{Dict, HasUniqueKeys}
use gonex.Scheduler.Job.{Job}
use gonex.Scheduler.Engine.{Handle, Created, ok, failed, Engine, IsLawful}
use gonex.Scheduler.Manager.{
  Err, JobRecord, Manager, install, new_job_record, publish, abort, deactivate, put_job,
}
use gonex.Scheduler.Manager.Operations.{
  is_stopped, new_manager, install_locked, remove_engine_jobs_locked, add_checked, add,
  commit_replace, replace_checked, replace, remove_found, remove,
}
use gonex.Scheduler.Manager.Lifetime.{install_all, start_manager, stop_begin, stop_end}
use gonex.Scheduler.Manager.Handles.{owned, install-owns}
use gonex.Scheduler.Manager.Ownership.{InEngine, IsOwned}
use gonex.Scheduler.Manager.NoLeak.{add-IsOwned, replace-IsOwned, remove-IsOwned}

Created-cases : {A : Type 0} (c : Created A) → ((x : ℕ) × (c ≡ failed x)) ⊎ ((a : A) × (c ≡ ok a))
Created-cases (failed x) = inl (x, refl)
Created-cases (ok a) = inr (a, refl)

-- A manager that was not started has no engine.
abbrev pub IsIdle : {E : Type 0} → Manager E → Type 0
IsIdle m = m.started ≡ false → m.inner ≡ none

module _ (engine : Engine) where
  -- A call of a method, and what it leaves; `stop_ends` is the goroutine that `Stop` starts.
  pub data Call : Type 0 where
    adds replaces : ℕ → Job → Call
    removes : String → Call
    starts : Option ℕ → Call
    stops stop_ends : Call

  unfoldable pub after : Call → Manager engine.State → Manager engine.State
  unfolding add replace remove start_manager stop_begin stop_end
  after (adds now job) m = (add engine now job m).1
  after (replaces now job) m = (replace engine now job m).1
  after (removes name) m = (remove engine name m).1
  after (starts ctx_err) m = (start_manager engine ctx_err m).1
  after stops m = (stop_begin engine m).1
  after stop_ends m = stop_end engine m

  unfoldable pub after_all : List Call → Manager engine.State → Manager engine.State
  unfolding after
  after_all [] m = m
  after_all (c ∷ cs) m = after_all cs (after c m)

  add-IsIdle :
      (now : ℕ) (job : Job) (m : Manager engine.State) → IsIdle m → IsIdle (add engine now job m).1
  unfolding add add_checked install_locked new_job_record publish abort put_job
  add-IsIdle now job m idle = ground arith

  replace-IsIdle :
      (now : ℕ) (job : Job) (m : Manager engine.State)
      → IsIdle m
      → IsIdle (replace engine now job m).1
  unfolding replace replace_checked commit_replace install_locked remove_engine_jobs_locked
      new_job_record publish abort deactivate put_job
  replace-IsIdle now job m idle = ground arith

  remove-IsIdle :
      (name : String) (m : Manager engine.State) → IsIdle m → IsIdle (remove engine name m).1
  unfolding remove remove_found remove_engine_jobs_locked deactivate put_job
  remove-IsIdle name m idle = ground arith

  start-IsIdle :
      (e : Option ℕ) (m : Manager engine.State) → IsIdle m → IsIdle (start_manager engine e m).1
  unfolding start_manager
  start-IsIdle e m idle = ground arith

  stop-IsIdle :
      (m : Manager engine.State)
      → IsIdle m
      → IsIdle (stop_begin engine m).1 × IsIdle (stop_end engine m)
  unfolding stop_begin stop_end
  stop-IsIdle m idle = ground arith

  get-install_all :
      (jobs : Dict JobRecord) (s : engine.State) (name : String)
      → Dict.get jobs name ≡ none
      → Dict.get (install_all engine jobs s).1 name ≡ none
  unfolding install_all Dict.get
  get-install_all [] s name h = refl
  get-install_all ((n, r) ∷ jobs) s name h =
      ground (arith, get-install_all jobs (install engine r s).2 name)

  install_all-HasUniqueKeys :
      (jobs : Dict JobRecord) (s : engine.State)
      → HasUniqueKeys jobs
      → HasUniqueKeys (install_all engine jobs s).1
  unfolding install_all
  install_all-HasUniqueKeys [] s h = tt
  install_all-HasUniqueKeys ((n, r) ∷ jobs) s (fresh, h) = ground (
    arith,
    install_all-HasUniqueKeys jobs (install engine r s).2 h,
    get-install_all jobs (install engine r s).2 n fresh,
  )

module _ (engine : Engine) (laws : IsLawful engine) where
  install_all-owns :
      (jobs : Dict JobRecord) (s : engine.State) (k : Handle)
      → laws.scheduled (install_all engine jobs s).2 k ≡ true
      → (laws.scheduled s k ≡ true) ⊎ (owned (install_all engine jobs s).1 k ≡ true)
  unfolding install_all
  install_all-owns [] s k h = inl h
  install_all-owns ((n, r) ∷ jobs) s k h = elim (Option-cases (install engine r s).0) [
    | inr (x, e) ↦ elim (install-owns engine laws r s k (rw (e, install_all) at h)) [
      | inl before ↦ inl before
      | inr (fine, _) ↦ cc
    ]
    | inl e ↦
        let owner = install-owns engine laws r s k in
        let rest = install_all-owns jobs (install engine r s).2 k (rw (e, install_all) at h) in
        rw (e, install_all)
          (elim rest [
            | inl before ↦ elim (owner before) [
              | inl old ↦ inl old
              | inr (_, o) ↦ inr (ground arith)
            ]
            | inr o ↦ inr (ground arith)
          ])
  ]

  -- The engine that a start installs all jobs in.
  installed-IsOwned :
      (s : engine.State) (m m' : Manager engine.State)
      → engine.new_scheduler ≡ ok s
      → IsOwned engine laws m
      → m'.jobs ≡ (install_all engine m.jobs s).1
      → (m'.inner ≡ none) ⊎ (m'.inner ≡ some (install_all engine m.jobs s).2)
      → IsOwned engine laws m'
  installed-IsOwned s m m' new v jobs inner = record {
    owner = λ k (t, here, h). elim inner [
      | inl off ↦ cc (off, here)
      | inr on ↦
          let same : (install_all engine m.jobs s).2 ≡ t = cc (on, here) in
          elim (install_all-owns m.jobs s k (ap (λ u. laws.scheduled u k) same ∙ h)) [
            | inl before ↦ cc (laws.new_scheduler_empty s new k, before)
            | inr o ↦ rw jobs o
          ]
    ];
    unique = rw jobs (install_all-HasUniqueKeys engine m.jobs s v.unique);
  }

  abbrev Owned : Option Err × Manager engine.State → Type 0
  Owned result = IsOwned engine laws result.1

  start-IsOwned :
      (e : Option ℕ) (m : Manager engine.State)
      → IsOwned engine laws m
      → IsOwned engine laws (start_manager engine e m).1
  unfolding start_manager
  start-IsOwned e m v =
      option_cases Owned e _ _ (λ x h. v)
        (λ live.
          if_cases Owned (is_stopped m) _ _ (λ _. v)
            (λ free.
              if_cases Owned m.started _ _ (λ _. v)
                (λ idle. elim (Created-cases engine.new_scheduler) [
                  | inl (x, bad) ↦ rw bad v
                  | inr (s, new) ↦ rw new (
                      option_cases Owned (install_all engine m.jobs s).0 _ _
                        (λ x bad. installed-IsOwned s m _ new v refl (inl refl))
                        (λ fine. installed-IsOwned s m _ new v refl (inr refl)))
                ])))

  stop_begin-same :
      (m : Manager engine.State)
      → ((stop_begin engine m).1.jobs ≡ m.jobs) × ((stop_begin engine m).1.inner ≡ m.inner)
  unfolding stop_begin
  stop_begin-same m = ground arith

  stop_end-jobs : (m : Manager engine.State) → (stop_end engine m).jobs ≡ m.jobs
  unfolding stop_end
  stop_end-jobs m = ground arith

  stop_end-InEngine :
      (m : Manager engine.State) (k : Handle)
      → InEngine engine laws (stop_end engine m) k
      → InEngine engine laws m k
  unfolding stop_end
  stop_end-InEngine m k (s', here, h) = elim (Option-cases m.inner) [
    | inl off ↦ absurd (ground arith)
    | inr (s, on) ↦
        let same : (engine.shutdown s).1 ≡ s' = ground arith in
        (s, on, laws.shutdown_drops s k (ap (λ u. laws.scheduled u k) same ∙ h))
  ]

  stop-IsOwned :
      (m : Manager engine.State)
      → IsOwned engine laws m
      → IsOwned engine laws (stop_begin engine m).1 × IsOwned engine laws (stop_end engine m)
  unfolding stop_begin stop_end
  stop-IsOwned m v = (
    record {
      owner = λ k (s, here, h).
          rw (stop_begin-same m).0 (v.owner k (s, sym (stop_begin-same m).1 ∙ here, h));
      unique = rw (stop_begin-same m).0 v.unique;
    },
    record {
      owner = λ k h. rw (stop_end-jobs m) (v.owner k (stop_end-InEngine m k h));
      unique = rw (stop_end-jobs m) v.unique;
    },
  )

  after-valid :
      (c : Call engine) (m : Manager engine.State)
      → IsIdle m
      → IsOwned engine laws m
      → IsIdle (after engine c m) × IsOwned engine laws (after engine c m)
  unfolding after
  after-valid (adds now job) m idle v =
      (add-IsIdle engine now job m idle, add-IsOwned engine laws now job m v)
  after-valid (replaces now job) m idle v =
      (replace-IsIdle engine now job m idle, replace-IsOwned engine laws now job m idle v)
  after-valid (removes name) m idle v =
      (remove-IsIdle engine name m idle, remove-IsOwned engine laws name m idle v)
  after-valid (starts e) m idle v = (start-IsIdle engine e m idle, start-IsOwned e m v)
  after-valid stops m idle v = ((stop-IsIdle engine m idle).0, (stop-IsOwned m v).0)
  after-valid stop_ends m idle v = ((stop-IsIdle engine m idle).1, (stop-IsOwned m v).1)

  after_all-IsOwned :
      (calls : List (Call engine)) (m : Manager engine.State)
      → IsIdle m
      → IsOwned engine laws m
      → IsOwned engine laws (after_all engine calls m)
  unfolding after_all after
  after_all-IsOwned [] m idle v = v
  after_all-IsOwned (c ∷ cs) m idle v =
      after_all-IsOwned cs (after engine c m) (after-valid c m idle v).0 (after-valid c m idle v).1

  -- After any calls of the methods of a new manager, in any order, with whatever the engine answers:
  -- every job that the engine of the manager still schedules is a job that a registered record can
  -- remove, and every name has one record.
  pub no_job_leaks :
      (logger : ℕ) (configured : Bool) (calls : List (Call engine))
      → IsOwned engine laws (after_all engine calls (new_manager logger configured))
  unfolding new_manager
  no_job_leaks logger configured calls =
      after_all-IsOwned calls (new_manager logger configured) (λ _. refl)
        (record { owner = λ k h. cc (h.1); unique = tt })
