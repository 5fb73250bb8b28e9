-- ===== src/Scheduler/Prepare.antt =====
-- prepareDefinitions of scheduler/reconcile.go: which definitions of a store may run, and the interface
-- of the schedulers that they run on.
use gonex.Common.{
  ℕ, String, Bool, true, false, not, ◌||◌, Option, none, some, List, [], ◌∷◌, if◌then◌else◌,
}
use gonex.Common.Dict
use gonex.Common.Dict.{Dict}
use gonex.Common.Text.{trim_space, is_blank}
use gonex.Scheduler.Job.{Job}
use gonex.Scheduler.Overlap.{Handler}
use gonex.Scheduler.Engine.{Engine}
use gonex.Scheduler.Manager.{Err, Manager}
use gonex.Scheduler.Manager.Operations.{add, replace, remove, validate}
use gonex.Scheduler.Persistence.{
  singleton, every_instance, invalid_mode, JobDefinition, PersistentHandler, lookup_handler, Loader,
}

-- The interface MutableScheduler, as far as Sync uses it.
pub record MutableScheduler : Type 1 where
  pub State : Type 0
  pub validate : Job → State → Option Err
  pub replace : Job → State → Option Err × State
  pub add : Job → State → Option Err × State
  pub remove : String → State → Option Err × State

-- The manager is one, at an instant.
abbrev pub manager_scheduler : Engine → ℕ → MutableScheduler
manager_scheduler engine now = record {
  State = Manager engine.State;
  validate = validate engine now;
  replace = replace engine now;
  add = add engine now;
  remove = remove engine;
}

-- `canceled` and `store_failed` are errors of the context and of the store; `runtime` is one of the
-- scheduler.
pub data SyncError : Type 0 where
  canceled store_failed : ℕ → SyncError
  id_and_name_required : SyncError
  duplicate_id locker_required invalid_execution_mode handler_missing : String → SyncError
  duplicate_name : String → String → String → SyncError
  invalid_definition : String → Err → SyncError
  runtime : Err → SyncError

pub record PreparedDefinition : Type 0 where
  pub definition : JobDefinition
  pub handler : PersistentHandler
  pub job : Job

-- What prepareDefinitions makes of one definition.
pub data Checked : Type 0 where
  skip : Checked
  keep : PreparedDefinition → Checked
  refuse : SyncError → Checked

pub data Prepared : Type 0 where
  ok : Dict PreparedDefinition → Prepared
  failed : SyncError → Prepared

-- What the store answers.
pub data Listed : Type 0 where
  ok : List JobDefinition → Listed
  failed : ℕ → Listed

abbrev pub trimmed : JobDefinition → JobDefinition
trimmed d = record d {
  id = trim_space d.id;
  name = trim_space d.name;
  handler = trim_space d.handler;
}

-- The closure that runs `loader.execute` with a handler and a definition, by its number.
abbrev pub Closure : Type 0
Closure = PersistentHandler → JobDefinition → Handler

-- jobFor
unfoldable pub job_for : Closure → JobDefinition → PersistentHandler → Job
job_for closure d h = record {
  name = d.name;
  schedule = d.schedule;
  handler = some (closure h d);
  timeout = d.timeout;
  overlap_policy = d.overlap_policy;
  run_immediately = false;
  middleware = [];
}

module _ (runtime_scheduler : MutableScheduler) (closure : Closure) (loader : Loader) where
  -- The part of prepareDefinitions behind the check of the execution mode.
  unfoldable pub resolve : JobDefinition → runtime_scheduler.State → Checked
  resolve d s = elim (lookup_handler loader.registry d.handler) [
    | none ↦ refuse (handler_missing d.handler)
    | some h ↦ elim (runtime_scheduler.validate (job_for closure d h) s) [
      | some e ↦ refuse (invalid_definition d.name e)
      | none ↦ keep (record { definition = d; handler = h; job = job_for closure d h })
    ]
  ]

  unfoldable pub check_definition : JobDefinition → runtime_scheduler.State → Checked
  unfolding resolve
  check_definition d s = if not d.enabled then skip else elim d.execution_mode [
    | singleton ↦ if loader.no_locker then refuse (locker_required d.name) else resolve d s
    | every_instance ↦ resolve d s
    | invalid_mode ↦ refuse (invalid_execution_mode d.name)
  ]

  -- prepareDefinitions, with the identifiers and the names met before.
  unfoldable pub prepare_definitions :
      List JobDefinition
      → Dict Bool
      → Dict String
      → Dict PreparedDefinition
      → runtime_scheduler.State
      → Prepared
  unfolding check_definition
  prepare_definitions [] ids names prepared s = ok prepared
  prepare_definitions (raw ∷ rest) ids names prepared s =
      let d = trimmed raw in
      let later = prepare_definitions rest (Dict.put ids d.id true) (Dict.put names d.name d.id) in
      if is_blank d.id || is_blank d.name
      then failed id_and_name_required
      else if Dict.has ids d.id
      then failed (duplicate_id d.id)
      else elim (Dict.get names d.name) [
        | some prior ↦ failed (duplicate_name d.name prior d.id)
        | none ↦ elim (check_definition d s) [
          | refuse e ↦ failed e
          | skip ↦ later prepared s
          | keep p ↦ later (Dict.put prepared d.id p) s
        ]
      ]
