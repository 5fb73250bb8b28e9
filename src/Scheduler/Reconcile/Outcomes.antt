-- ===== src/Scheduler/Reconcile/Outcomes.antt =====
-- What Sync of scheduler/reconcile.go accepts, and what it leaves in the loader.
use gonex.Common.{String, ◌≡◌, ◌≢◌, true, false, none, some}
use gonex.Common.Dict
use gonex.Common.Dict.{Dict, HasUniqueKeys}
use gonex.Common.Text.{is_blank}
use gonex.Scheduler.Persistence.{singleton, invalid_mode, lookup_handler, Loader}
use gonex.Scheduler.Prepare.{MutableScheduler, PreparedDefinition, Closure, job_for}

module _ (runtime : MutableScheduler) (closure : Closure) (loader : Loader) where
  -- A definition that may run: enabled, named, with its registered handler, the job that runs it, which
  -- the scheduler finds valid, and, for one instance, a locker.
  pub record IsRunnable (s : runtime.State) (p : PreparedDefinition) : Type 0 where
    pub enabled : p.definition.enabled ≡ true
    pub registered : lookup_handler loader.registry p.definition.handler ≡ some p.handler
    pub runs : p.job ≡ job_for closure p.definition p.handler
    pub valid : runtime.validate p.job s ≡ none
    pub locked : p.definition.execution_mode ≡ singleton → loader.no_locker ≡ false
    pub known_mode : p.definition.execution_mode ≢ invalid_mode

  -- What prepareDefinitions has accepted so far: runnable definitions, each under its own identifier.
  pub record IsPrepared (s : runtime.State) (prepared : Dict PreparedDefinition) : Type 0 where
    pub unique : HasUniqueKeys prepared
    pub entries :
        (id : String) (p : PreparedDefinition)
        → Dict.get prepared id ≡ some p
        → IsRunnable s p × (p.definition.id ≡ id) × (is_blank p.definition.name ≡ false)
