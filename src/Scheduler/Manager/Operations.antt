-- ===== src/Scheduler/Manager/Operations.antt =====
-- The methods of scheduler/scheduler.go on the whole state of a manager.
use gonex.Common.{
  ℕ, String, Bool, false, not, Option, none, some, [], ◌∷◌, ◌++◌, ◌||◌, if◌then◌else◌, is_empty,
}
use gonex.Common.Dict
use gonex.Common.Dict.{Dict}
use gonex.Common.Text.{trim_space}
use gonex.Scheduler.Overlap.{skip_if_running, new_gate, set_policy}
use gonex.Scheduler.Job.{Job, clone_job, validate_job}
use gonex.Scheduler.Engine.{Engine}
use gonex.Scheduler.Manager.{
  Err, EngineErrors, stopped, nil_engine, duplicate_job, job_not_found, invalid_job, remove_job,
  replace_job, JobRecord, Manager, update, publish, abort, deactivate, new_job_record,
  new_overlap_gate, put_job, install, remove_engine_jobs,
}

abbrev pub is_stopped : {E : Type 0} → Manager E → Bool
is_stopped m = m.stopped || m.stopping

-- New
unfoldable pub new_manager : {E : Type 0} → ℕ → Bool → Manager E
new_manager logger configured = record {
  inner = none;
  jobs = [];
  publications = λ t. record { active = false; ready = false };
  gates = λ g. new_gate skip_if_running;
  next_token = 0;
  next_gate = 0;
  middleware = [];
  logger = logger;
  logger_configured = configured;
  context_canceled = none;
  started = false;
  stopped = false;
  stopping = false;
  stop_attempt = none;
}

-- What `old` is left with where the replacement could not be committed: the handles of the
-- replacement that are still in the engine.
abbrev pub adopt : JobRecord → JobRecord → JobRecord
adopt old replacement = record old {
  cleanup =
      (old.cleanup ++ elim replacement.inner [ none ↦ [] | some h ↦ h ∷ [] ])
      ++ replacement.cleanup;
}

module _ (engine : Engine) where
  -- installLocked
  unfoldable pub install_locked :
      JobRecord → Manager engine.State → Option Err × JobRecord × Manager engine.State
  unfolding install
  install_locked r m = elim m.inner [
    | none ↦ (some nil_engine, r, m)
    | some s ↦ let (e, r', s') = install engine r s in (e, r', record m { inner = some s' })
  ]

  -- removeEngineJobsLocked
  unfoldable pub remove_engine_jobs_locked :
      JobRecord → Manager engine.State → EngineErrors × JobRecord × Manager engine.State
  unfolding remove_engine_jobs
  remove_engine_jobs_locked r m = elim m.inner [
    | none ↦ ([], r, m)
    | some s ↦
        let (e, r', s') = remove_engine_jobs engine r s in (e, r', record m { inner = some s' })
  ]

  -- The part of `Add` after its checks.
  unfoldable pub add_checked : Job → Manager engine.State → Option Err × Manager engine.State
  unfolding install_locked new_overlap_gate new_job_record put_job publish abort
  add_checked job m =
      let (gate, m1) = new_overlap_gate job m in
      let (r, m2) = new_job_record job gate (not m.started) m1 in
      if m.started
      then (let (e, r', m3) = install_locked r m2 in
          elim e [
            | some x ↦ (some x, abort r.token m3)
            | none ↦ (none, publish r.token (put_job job.name r' m3))
          ])
      else (none, put_job job.name r m2)

  unfoldable pub add : ℕ → Job → Manager engine.State → Option Err × Manager engine.State
  add now job m =
      let job' = clone_job job in
      elim (validate_job engine.cron_error now job') [
        | some e ↦ (some (invalid_job e), m)
        | none ↦
            if is_stopped m
            then (some stopped, m)
            else if Dict.has m.jobs job'.name
            then (some (duplicate_job job'.name), m)
            else add_checked job' m
      ]

  -- The part of `Replace` that commits.
  unfoldable pub commit_replace :
      Job → JobRecord → JobRecord → Manager engine.State → Manager engine.State
  unfolding deactivate put_job publish
  commit_replace job old replacement m =
      let m1 = deactivate old.token m in
      let m2 = record m1 {
        gates = update m1.gates old.gate (set_policy job.overlap_policy (m1.gates old.gate));
      } in
      let m3 = put_job job.name replacement m2 in
      if m.started then publish replacement.token m3 else m3

  -- The part of `Replace` after its checks.
  unfoldable pub replace_checked :
      Job → JobRecord → Manager engine.State → Option Err × Manager engine.State
  unfolding new_job_record install_locked remove_engine_jobs_locked abort put_job commit_replace
  replace_checked job old m =
      let (replacement, m1) = new_job_record job old.gate (not m.started) m in
      if m.started
      then (let (e, replacement', m2) = install_locked replacement m1 in
          let (errors, old', m3) = remove_engine_jobs_locked old m2 in
          let (cleanup_errors, left, m4) =
            remove_engine_jobs_locked replacement' (abort replacement.token m3) in
          elim e [
            | some x ↦ (some x, abort replacement.token m2)
            | none ↦ if is_empty errors then (none, commit_replace job old' replacement' m3) else (
              some (replace_job job.name errors cleanup_errors),
              put_job job.name (adopt old' left) m4,
            )
          ])
      else (none, commit_replace job old replacement m1)

  unfoldable pub replace : ℕ → Job → Manager engine.State → Option Err × Manager engine.State
  replace now job m =
      let job' = clone_job job in
      elim (validate_job engine.cron_error now job') [
        | some e ↦ (some (invalid_job e), m)
        | none ↦ if is_stopped m then (some stopped, m) else elim (Dict.get m.jobs job'.name) [
          | none ↦ (some (job_not_found job'.name), m)
          | some old ↦ replace_checked job' old m
        ]
      ]

  unfoldable pub validate : ℕ → Job → Manager engine.State → Option Err
  validate now job m =
      if is_stopped m
      then some stopped
      else elim (validate_job engine.cron_error now (clone_job job)) [
        | none ↦ none
        | some e ↦ some (invalid_job e)
      ]

  -- The part of `Remove` with the record found.
  unfoldable pub remove_found :
      String → JobRecord → Manager engine.State → Option Err × Manager engine.State
  unfolding remove_engine_jobs_locked put_job deactivate
  remove_found name r m =
      let (errors, r', m') = remove_engine_jobs_locked r m in
      let dropped = λ (n : Manager engine.State).
        let n' = deactivate r.token n in record n' { jobs = Dict.remove n'.jobs name } in
      if m.started
      then (if is_empty errors
          then (none, dropped m')
          else (some (remove_job name errors), put_job name r' m'))
      else (none, dropped m)

  unfoldable pub remove : String → Manager engine.State → Option Err × Manager engine.State
  remove name m =
      let name' = trim_space name in
      elim (Dict.get m.jobs name') [
        | none ↦ (some (job_not_found name'), m)
        | some r ↦ remove_found name' r m
      ]
