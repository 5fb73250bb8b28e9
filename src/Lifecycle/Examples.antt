-- ===== src/Lifecycle/Examples.antt =====
-- The theorems on the schedules of lifecycle/lifecycle.go at work on a short one.
use gonex.Common.{◌+◌, ◌<◌, ◌≤◌, ◌≡◌, ◌≢◌, refl, true, false, none, some, nat_eq}
use gonex.Lifecycle.{Phase, add, begin_shutdown_enter, task_finished, wait_returns, go_enter}
use gonex.Lifecycle.Interleaving.{
  System, register, begin_start, begin_shutdown, go, finish, act, Enabled, initial, here, next,
  Reach,
}
use gonex.Lifecycle.Safety.{phases_exclusive, hooks_once, tasks_counted, shutdown_final}

-- A task is started and the shutdown begun.
abbrev shutting : System
shutting = act (act (act initial go) (register Phase.shutdown (some 1))) begin_shutdown

shutting-Reach : Reach shutting
shutting-Reach =
    next begin_shutdown (next (register Phase.shutdown (some 1)) (next go here tt) tt) tt

phases_exclusive_example :
    (shutting.start_calls ≤ 1)
    × (shutting.started_calls ≤ 1)
    × (shutting.shutdown_calls ≤ 1)
    × (shutting.stop_calls ≤ 1)
    × (shutting.start_calls + shutting.started_calls ≤ 1)
    × (0 < shutting.shutdown_calls → shutting.start_calls + shutting.started_calls ≡ 0)
    × (0 < shutting.stop_calls
        → shutting.start_calls + shutting.started_calls + shutting.shutdown_calls ≡ 0)
phases_exclusive_example = phases_exclusive shutting shutting-Reach

hooks_once_example :
    (shutting.shutdown_rounds ≤ 1)
    × (shutting.stop_rounds ≤ 1)
    × (shutting.stop_rounds ≤ shutting.shutdown_rounds)
hooks_once_example = hooks_once shutting shutting-Reach

tasks_counted_example :
    (shutting.panicked ≡ false)
    × (Enabled shutting finish → task_finished shutting.life ≢ none)
    × (wait_returns shutting.life ≡ nat_eq shutting.tasks 0)
tasks_counted_example = tasks_counted shutting shutting-Reach

-- After that, another task, and a startup.
abbrev later : System
later = act (act shutting go) begin_start

shutdown_final_example :
    (later.life.shutdown_once ≡ true)
    × (later.life.tasks_canceled ≡ true)
    × (later.life.started ≡ true → shutting.life.started ≡ true)
    × (later.life.start_hooks_run ≡ true → shutting.life.start_hooks_run ≡ true)
    × (later.tasks ≤ shutting.tasks)
unfolding initial act go_enter add begin_shutdown_enter
shutdown_final_example = shutdown_final shutting-Reach refl (next begin_start (next go here tt) tt)
