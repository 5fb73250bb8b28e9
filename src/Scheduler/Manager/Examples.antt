-- ===== src/Scheduler/Manager/Examples.antt =====
-- The theorems on scheduler/scheduler.go at work on a small engine and two jobs.
use gonex.Common.{String, ◌≡◌, refl, false, none, some, List, [], ◌∷◌, arith, nat_eq, if◌then◌else◌}
use gonex.Common.Dict
use gonex.Common.Int.{pos}
use gonex.Common.Text.{trim_space}
use gonex.Scheduler.Overlap.{queue_one}
use gonex.Scheduler.Job.{every, Job, clone_job, validate_job}
use gonex.Scheduler.Engine.{Handle, ok, Engine, IsLawful}
use gonex.Scheduler.Manager.{JobRecord, Manager, stopped, remove_each, remove_inner}
use gonex.Scheduler.Manager.Operations.{
  new_manager, replace, add, validate, add_checked, replace_checked,
}
use gonex.Scheduler.Manager.Handles.{holds}
use gonex.Scheduler.Manager.Ownership.{IsOwned}
use gonex.Scheduler.Manager.Lifetime.{start_manager, stop_begin}
use gonex.Scheduler.Manager.Reachable.{
  adds, replaces, removes, starts, stops, stop_ends, after_all, no_job_leaks,
}
use gonex.Scheduler.Manager.Atomic.{SameJobs, replace_error_keeps}
use gonex.Scheduler.Manager.Commit.{IsReplaced, replace_commits}
use gonex.Scheduler.Manager.Stopping.{stopped_for_good}

abbrev pub delete : Handle → List Handle → List Handle
delete h [] = []
delete h (k ∷ ks) = let rest = delete h ks in if nat_eq h k then rest else k ∷ rest

holds-delete :
    (h : Handle) (s : List Handle) (k : Handle)
    → holds (delete h s) k ≡ (if nat_eq h k then false else holds s k)
holds-delete h [] k = ground arith
holds-delete h (x ∷ xs) k = ground (arith, holds-delete h xs k)

-- An engine whose state is the list of its jobs; it cannot remove its job 0.
abbrev pub tiny : Engine
tiny = record {
  State = List Handle;
  new_scheduler = ok [];
  new_job = λ d name now task s. ok (task, task ∷ s);
  remove_job = λ h s. if nat_eq h 0 then (some 5, s) else (none, delete h s);
  shutdown = λ s. (none, []);
  cron_error = λ expr seconds now. none;
}

tiny-IsLawful : IsLawful tiny
tiny-IsLawful = record {
  scheduled = holds;
  new_job_fresh = λ d name now task s h s' e k. ground arith;
  new_scheduler_empty = λ s e k. ground arith;
  remove_job_exact = λ h s e k. ground (arith, holds-delete h s k);
  remove_job_failed = λ h s e. ground arith;
  shutdown_drops = λ s k h. ground arith;
}

abbrev job : String → Job
job name = record {
  name = name;
  schedule = every (pos 60);
  handler = some 1;
  timeout = pos 0;
  overlap_policy = queue_one;
  run_immediately = false;
  middleware = [];
}

no_job_leaks_example : IsOwned tiny tiny-IsLawful (
    after_all tiny
      (adds 0 (job "a")
        ∷ starts none
        ∷ adds 0 (job "b")
        ∷ replaces 0 (job " a ")
        ∷ removes "b"
        ∷ stops
        ∷ removes "a"
        ∷ stop_ends
        ∷ [])
      (new_manager 0 false))
no_job_leaks_example = no_job_leaks tiny tiny-IsLawful 0 false _

abbrev running : Manager (List Handle)
running =
    after_all tiny (adds 0 (job "a") ∷ adds 0 (job "b") ∷ starts none ∷ []) (new_manager 0 false)

-- The job "a" has the engine job 0, which the engine cannot remove.
replace_error_keeps_example :
    SameJobs running.next_token running (replace tiny 0 (job "a") running).1
unfolding after_all new_manager replace validate_job trim_space clone_job Dict.has add_checked
    Dict.put replace_checked remove_each remove_inner
replace_error_keeps_example = replace_error_keeps tiny 0 (job "a") running refl

abbrev second : JobRecord
second = record { token = 1; definition = job "b"; inner = some 1; cleanup = []; gate = 1 }

replace_commits_example :
    IsReplaced (clone_job (job " b")) second running (replace tiny 0 (job " b") running).1
unfolding after_all new_manager replace validate_job trim_space clone_job Dict.get Dict.has
    add_checked Dict.put replace_checked remove_each remove_inner
replace_commits_example = replace_commits tiny 0 (job " b") second running refl (ground arith) refl

stopped_for_good_example :
    let m' = after_all tiny (removes "b" ∷ stop_ends ∷ []) (stop_begin tiny running).1 in
    (start_manager tiny none m' ≡ (some stopped, m'))
    × (validate tiny 0 (job "c") m' ≡ some stopped)
    × (add tiny 0 (job "c") m' ≡ (some stopped, m'))
    × (replace tiny 0 (job "c") m' ≡ (some stopped, m'))
unfolding validate_job clone_job trim_space
stopped_for_good_example =
    stopped_for_good tiny (removes "b" ∷ stop_ends ∷ []) running 0 (job "c") refl
