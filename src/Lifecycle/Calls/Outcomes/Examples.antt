-- ===== src/Lifecycle/Calls/Outcomes/Examples.antt =====
-- The theorems on lifecycle/lifecycle.go at work on whole calls with small hooks.
use gonex.Common.{
  suc, ◌≡◌, refl, ◌⊎◌, true, false, none, some, [], ◌∷◌, or_else, nat_eq, if◌then◌else◌,
}
use gonex.Lifecycle.{
  Phase, foreign, phase_in_progress, Lifecycle, new, begin_shutdown_enter, finish_shutdown_attempt,
  begin_start_enter, begin_start_leave,
}
use gonex.Lifecycle.Calls.{World, Env, poll, run_until_error, begin_shutdown_locked, stop}
use gonex.Lifecycle.Calls
use gonex.Lifecycle.Calls.Outcomes.{
  after_all, outcomes, first_failure, begin_shutdown_runs_all, stop_times, IsStopped, stop_again,
  stop_first, stop_blocked, shutdown_failure, shut_down, stopping,
}
use gonex.Lifecycle.Calls.Outcomes.Passing.{looked}
use gonex.Lifecycle.Calls.Outcomes.Startup.{
  IsRefused, IsInterrupted, IsCompleted, begin_start_ok, begin_start_fails,
}

-- The hook 2 fails, all other hooks pass, and the context stays alive.
abbrev env : Env
env = record {
  hook = λ h w. (if nat_eq h 2 then some (foreign 7) else none, w);
  ctx_err = λ n. none;
}

-- Shutdown hooks 1, 2 and 3, and the stop hook 4.
abbrev hooked : Lifecycle
hooked = record new { on_start = 1 ∷ 2 ∷ []; on_shutdown = 1 ∷ 2 ∷ 3 ∷ []; on_stop = 4 ∷ [] }

abbrev world : World
world = record { life = hooked; clock = 0 }

begin_shutdown_runs_all_example :
    let w1 = record world { life = (begin_shutdown_enter hooked).1 } in
    let w2 = after_all env (1 ∷ 2 ∷ 3 ∷ []) w1 in
    begin_shutdown_locked env world ≡ (
      first_failure (outcomes env (1 ∷ 2 ∷ 3 ∷ []) w1),
      record w2 {
        life = finish_shutdown_attempt (first_failure (outcomes env (1 ∷ 2 ∷ 3 ∷ []) w1)) w2.life;
      },
    )
unfolding new
begin_shutdown_runs_all_example = begin_shutdown_runs_all env world refl refl refl refl

-- The startup hook 2 fails.
abbrev interrupted : World
interrupted = (Calls.begin_start env world).1

begin_start_fails_example :
    (IsRefused env world (foreign 7) × (interrupted ≡ looked world))
    ⊎ ((hooked.start_hooks_run ≡ false) × IsInterrupted env world (foreign 7) interrupted)
unfolding Calls.begin_start poll Calls.begin_start_locked begin_start_enter new begin_start_leave
    Calls.run_startup run_until_error
begin_start_fails_example = begin_start_fails env world interrupted (foreign 7) refl

-- A world whose startup hooks pass.
abbrev fine : World
fine = record { life = record new { on_start = 1 ∷ 3 ∷ [] }; clock = 0 }

abbrev completed : World
completed = (Calls.begin_start env fine).1

begin_start_ok_example :
    ((fine.life.start_hooks_run ≡ true) × (completed ≡ looked fine))
    ⊎ ((fine.life.start_hooks_run ≡ false) × IsCompleted env fine completed)
unfolding Calls.begin_start poll Calls.begin_start_locked begin_start_enter new begin_start_leave
    Calls.run_startup run_until_error
begin_start_ok_example = begin_start_ok env fine completed refl

stop_first_example :
    let e = shutdown_failure env world in
    let w1 = shut_down env world in
    let w2 = stopping e (record w1 { clock = suc w1.clock }) in
    let err = or_else e (first_failure (outcomes env hooked.on_stop w2)) in
    ((stop env world).0 ≡ err) × IsStopped (stop env world).1.life e err
unfolding new outcomes first_failure
stop_first_example =
    stop_first env world (λ n. refl) (λ h w. refl) (refl, refl, refl, refl, refl, refl) refl

stop_again_example :
    ((stop_times env 2 (stop env world).1).life ≡ (stop env world).1.life)
    × ((stop env (stop_times env 2 (stop env world).1)).0 ≡ (stop env world).0)
unfolding new outcomes first_failure
stop_again_example =
    stop_again env world 2 (λ n. refl) (λ h w. refl) (refl, refl, refl, refl, refl, refl) refl

-- The shutdown hook 2 calls `Stop` and passes its error on; the other hooks pass.
abbrev calling : Env
calling = record { hook = λ h w. if nat_eq h 2 then stop env w else (none, w); ctx_err = λ n. none }

stop_blocked_example :
    let x = phase_in_progress Phase.shutdown in
    let over = shut_down calling world in
    (stop calling world ≡ (some x, over))
    × (over.life.shutdown_hooks_run ≡ true)
    × ((stop_times calling 2 over).life ≡ over.life)
    × ((stop calling (stop_times calling 2 over)).0 ≡ some x)
unfolding new outcomes first_failure stop Calls.begin_shutdown begin_shutdown_locked
    begin_shutdown_enter poll
stop_blocked_example =
    stop_blocked calling world (phase_in_progress Phase.shutdown) 2 (λ n. refl)
      (refl, refl, refl, refl, refl, refl) refl refl
