-- ===== src/Scheduler/Execution/Examples.antt =====
-- The theorem on scheduler/persistent_execution.go at work on a handler that panics.
use gonex.Common.{◌≡◌, ◌||◌, ◌&&◌, not, true, none, some, [], ◌++◌, is_some}
use gonex.Common.Int.{pos}
use gonex.Scheduler.Overlap.{queue_one}
use gonex.Scheduler.Job.{every}
use gonex.Scheduler.Persistence.{singleton, JobDefinition}
use gonex.Scheduler.Execution.{
  RunStatus, Environment, acquired, done, error, records_start, runs, unlocks, locks,
  records_finish, when, persistent_lock_ttl, execute, HandlerAnswer,
}
use gonex.Scheduler.Execution.Traces.{gives_lock, execute_events}

abbrev env : Environment
env = record {
  run_id = none;
  start = done;
  locker = some acquired;
  handler = HandlerAnswer.panics 4;
  ctx_err = none;
  unlock = error 2;
  finish = done;
}

abbrev definition : JobDefinition
definition = record {
  id = "1";
  name = "backup";
  handler = "h";
  schedule = every (pos 60);
  payload = [];
  enabled = true;
  version = pos 1;
  timeout = pos 0;
  overlap_policy = queue_one;
  execution_mode = singleton;
}

execute_events_example :
    (status : RunStatus) × ((execute env true definition).0
      ≡ when true records_start
        ++ (when (true && is_some env.locker) (locks "1" (persistent_lock_ttl (pos 0)))
            ++ (when (not true || gives_lock env.locker) runs
                ++ (when (true && gives_lock env.locker) unlocks
                    ++ when true (records_finish status)))))
execute_events_example = execute_events env true definition
