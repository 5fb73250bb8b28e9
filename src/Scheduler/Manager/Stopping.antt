-- ===== src/Scheduler/Manager/Stopping.antt =====
-- What `Stop` of scheduler/scheduler.go leaves possible.
use gonex.Common.{ℕ, String, ◌≡◌, true, none, some, List, [], ◌∷◌, arith}
use gonex.Scheduler.Job.{Job, validate_job, clone_job}
use gonex.Scheduler.Engine.{Engine}
use gonex.Scheduler.Manager.{Manager, stopped}
use gonex.Scheduler.Manager.Operations.{
  is_stopped, remove_engine_jobs_locked, add, replace, remove_found, remove, validate,
}
use gonex.Scheduler.Manager.{deactivate, put_job}
use gonex.Scheduler.Manager.Lifetime.{start_manager, stop_begin, stop_end}
use gonex.Scheduler.Manager.Reachable.{
  Call, adds, replaces, removes, starts, stops, stop_ends, after, after_all,
}

module _ (engine : Engine) where
  remove-is_stopped :
      (name : String) (m : Manager engine.State)
      → is_stopped (remove engine name m).1 ≡ is_stopped m
  unfolding remove remove_found remove_engine_jobs_locked deactivate put_job
  remove-is_stopped name m = ground arith

  after-is_stopped :
      (c : Call engine) (m : Manager engine.State)
      → is_stopped m ≡ true
      → is_stopped (after engine c m) ≡ true
  unfolding after add replace start_manager stop_begin stop_end
  after-is_stopped (adds now job) m h = ground arith
  after-is_stopped (replaces now job) m h = ground arith
  after-is_stopped (removes name) m h = ground (arith, remove-is_stopped name m)
  after-is_stopped (starts e) m h = ground arith
  after-is_stopped stops m h = ground arith
  after-is_stopped stop_ends m h = ground arith

  after_all-is_stopped :
      (calls : List (Call engine)) (m : Manager engine.State)
      → is_stopped m ≡ true
      → is_stopped (after_all engine calls m) ≡ true
  unfolding after_all
  after_all-is_stopped [] m h = h
  after_all-is_stopped (c ∷ cs) m h =
      after_all-is_stopped cs (after engine c m) (after-is_stopped c m h)

  stop_begin-is_stopped : (m : Manager engine.State) → is_stopped (stop_begin engine m).1 ≡ true
  unfolding stop_begin
  stop_begin-is_stopped m = ground arith

  -- Whatever calls follow a `Stop`, the manager stays stopped: from then on `Start` with a live
  -- context, `Validate`, and `Add` and `Replace` of a valid job return ErrStopped and change nothing.
  pub stopped_for_good :
      (calls : List (Call engine)) (m : Manager engine.State) (now : ℕ) (job : Job)
      → validate_job engine.cron_error now (clone_job job) ≡ none
      → let m' = after_all engine calls (stop_begin engine m).1 in
        (start_manager engine none m' ≡ (some stopped, m'))
        × (validate engine now job m' ≡ some stopped)
        × (add engine now job m' ≡ (some stopped, m'))
        × (replace engine now job m' ≡ (some stopped, m'))
  unfolding start_manager validate add replace
  stopped_for_good calls m now job valid =
      let h = after_all-is_stopped calls (stop_begin engine m).1 (stop_begin-is_stopped m) in
      ground arith
