-- ===== src/Scheduler/Reconcile/Examples.antt =====
-- The theorems on scheduler/reconcile.go at work on one persistent job and the manager.
use gonex.Common.{true, [], ◌∷◌}
use gonex.Common.Dict.{Dict}
use gonex.Common.Int.{pos}
use gonex.Scheduler.Overlap.{queue_one}
use gonex.Scheduler.Job.{every}
use gonex.Scheduler.Manager.Examples.{tiny}
use gonex.Scheduler.Persistence.{every_instance, JobDefinition, Loader}
use gonex.Scheduler.Prepare.{MutableScheduler, manager_scheduler, Closure}

abbrev managed : MutableScheduler
managed = manager_scheduler tiny 0

abbrev closure : Closure
closure h d = h

abbrev loader : Loader
loader = record { registry = ("h", 1) ∷ []; no_locker = true; loaded = [] }

abbrev definition : JobDefinition
definition = record {
  id = "1";
  name = "backup";
  handler = "h";
  schedule = every (pos 60);
  payload = [];
  enabled = true;
  version = pos 1;
  timeout = pos 0;
  overlap_policy = queue_one;
  execution_mode = every_instance;
}
