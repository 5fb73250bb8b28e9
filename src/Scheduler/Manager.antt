-- ===== src/Scheduler/Manager.antt =====
-- scheduler/scheduler.go, options.go, middleware.go and engine_gocron.go: the manager of the jobs.
-- Every method holds `manager.mu` for all of its work on the state, but for `Stop`, which has two
-- parts. Job records and gates are shared (the engine's tasks and queued triggers refer to them), so
-- their mutable parts stand in tables of the manager, by number.
pub mod Operations
pub mod Handles
pub mod Ownership
pub mod NoLeak
pub mod Atomic
pub mod Commit
pub mod Lifetime
pub mod Reachable
pub mod Stopping
pub mod Examples
use gonex.Common.{
  ℕ, ◌+◌, String, Bool, true, false, not, Option, none, some, List, [], ◌∷◌, ◌++◌, ◌||◌, ◌&&◌,
  if◌then◌else◌, nat_eq, is_none, is_empty,
}
use gonex.Common.Dict
use gonex.Common.Dict.{Dict}
use gonex.Common.Text.{trim_space}
use gonex.Scheduler.Overlap.{OverlapPolicy, OverlapGate, new_gate, is_running, set_policy}
use gonex.Scheduler.Job.{
  Schedule, cron, every, once, unsupported, Job, Invalid, Middleware, clone_job, cron_has_seconds,
  validate_job, some_nil,
}
use gonex.Scheduler.Engine.{
  Handle, JobDefinition, cron_job, duration_job, one_time_job, Created, ok, failed, Engine,
}

-- An error of the engine, by number; `[]` is a nil `errors.Join`.
abbrev pub EngineErrors : Type 0
EngineErrors = List ℕ

-- `nil_engine` is the panic of a call on a nil engine. `replace_job` joins what the removal of the old engine job reported with what the cleanup of the
-- replacement reported.
pub data Err : Type 0 where
  stopped started : Err
  duplicate_job job_not_found : String → Err
  invalid_job : Invalid → Err
  nil_middleware unsupported_schedule nil_engine : Err
  engine_create canceled : ℕ → Err
  add_job : String → ℕ → Err
  remove_job : String → EngineErrors → Err
  replace_job : String → EngineErrors → EngineErrors → Err

-- The fields of a jobRecord that are shared with the engine's task: `active`, and whether the channel
-- `ready` is closed.
pub record Publication : Type 0 where
  pub active : Bool
  pub ready : Bool

-- A jobRecord: `token` is its identity, `gate` the identity of its gate.
pub record JobRecord : Type 0 where
  pub token : ℕ
  pub definition : Job
  pub inner : Option Handle
  pub cleanup : List Handle
  pub gate : ℕ

pub record StopAttempt : Type 0 where
  pub done : Bool
  pub err : Option ℕ

pub record Manager (E : Type 0) : Type 0 where
  pub inner : Option E
  pub jobs : Dict JobRecord
  pub publications : ℕ → Publication
  pub gates : ℕ → OverlapGate
  pub next_token : ℕ
  pub next_gate : ℕ
  pub middleware : List Middleware
  pub logger : ℕ
  pub logger_configured : Bool
  pub context_canceled : Option Bool
  pub started : Bool
  pub stopped : Bool
  pub stopping : Bool
  pub stop_attempt : Option StopAttempt

-- A table with one entry changed.
abbrev pub update {ℓ} : {A : Type ℓ} → (ℕ → A) → ℕ → A → ℕ → A
update f n a k = if nat_eq n k then a else f k

module _ {E : Type 0} where
  -- publish, abort and deactivate of the job record with this token.
  pub publish : ℕ → Manager E → Manager E
  publish t m = record m {
    publications = update m.publications t (record { active = true; ready = true });
  }

  pub abort : ℕ → Manager E → Manager E
  abort t m = record m {
    publications = update m.publications t (record { active = false; ready = true });
  }

  pub deactivate : ℕ → Manager E → Manager E
  deactivate t m = record m {
    publications =
        update m.publications t (record { active = false; ready = (m.publications t).ready });
  }

  -- newJobRecord, with the gate given.
  pub new_job_record : Job → ℕ → Bool → Manager E → JobRecord × Manager E
  unfolding publish
  new_job_record job gate published m =
      let t = m.next_token in
      let fresh = record m {
        next_token = t + 1;
        publications = update m.publications t (record { active = false; ready = false });
      } in
      (
        record { token = t; definition = job; inner = none; cleanup = []; gate = gate },
        (if published then publish t fresh else fresh),
      )

  -- The gate that newJobRecord makes where it is given none.
  pub new_overlap_gate : Job → Manager E → ℕ × Manager E
  new_overlap_gate job m =
      let g = m.next_gate in
      (g, record m { next_gate = g + 1; gates = update m.gates g (new_gate job.overlap_policy) })

  pub put_job : String → JobRecord → Manager E → Manager E
  put_job name r m = record m { jobs = Dict.put m.jobs name r }

  -- What a task of the engine learns from `runnable`: it may run, it may not, or it waits for
  -- `ready` or for its context.
  pub runnable : ℕ → Manager E → Option Bool
  runnable t m =
      if (m.publications t).active
      then some true
      else if (m.publications t).ready
      then some false
      else none

-- scheduleDefinition
pub schedule_definition : Schedule → Option JobDefinition
schedule_definition (cron expr) = some (cron_job expr (cron_has_seconds expr))
schedule_definition (every duration) = some (duration_job duration)
schedule_definition (once at) = some (one_time_job at)
schedule_definition unsupported = none

module _ (engine : Engine) where
  -- What installLocked does with the answer of `NewJob`.
  pub installed :
      JobRecord
      → engine.State
      → Created (Handle × engine.State)
      → Option Err × JobRecord × engine.State
  installed r s (failed e) = (some (add_job r.definition.name e), r, s)
  installed r s (ok (h, s')) = (none, record r { inner = some h }, s')

  -- installLocked, on the engine.
  pub install : JobRecord → engine.State → Option Err × JobRecord × engine.State
  unfolding schedule_definition installed
  install r s = elim (schedule_definition r.definition.schedule) [
    | none ↦ (some unsupported_schedule, r, s)
    | some d ↦
        installed r s (engine.new_job d r.definition.name r.definition.run_immediately r.token s)
  ]

  -- The loop over `record.cleanup`: the errors, the handles that stay, and the engine.
  pub remove_each : List Handle → engine.State → EngineErrors × List Handle × engine.State
  remove_each [] s = ([], [], s)
  remove_each (h ∷ hs) s =
      let (e, s1) = engine.remove_job h s in
      let (errors, remaining, s2) = remove_each hs s1 in
      elim e [ none ↦ (errors, remaining, s2) | some x ↦ (x ∷ errors, h ∷ remaining, s2) ]

  pub remove_inner : JobRecord → engine.State → EngineErrors × JobRecord × engine.State
  remove_inner r s = elim r.inner [
    | none ↦ ([], r, s)
    | some h ↦
        let (e, s') = engine.remove_job h s in
        elim e [ none ↦ ([], record r { inner = none }, s') | some x ↦ (x ∷ [], r, s') ]
  ]

  -- removeEngineJobsLocked, with an engine.
  pub remove_engine_jobs : JobRecord → engine.State → EngineErrors × JobRecord × engine.State
  remove_engine_jobs r s =
      let (errors, remaining, s') = remove_each r.cleanup s in
      let r' = record r { cleanup = remaining } in
      if is_empty errors then remove_inner r' s' else (errors, r', s')
