-- ===== src/Lifecycle/Safety.antt =====
-- What no schedule of `Lifecycle` calls can break (lifecycle/lifecycle.go).
use gonex.Common.{◌+◌, ◌<◌, ◌≤◌, ◌≡◌, ◌∙◌, ◌≢◌, true, false, none, arith, nat_eq}
use gonex.Lifecycle.{
  Phase, add, begin_start_enter, begin_start_leave, mark_started_enter, mark_started_leave,
  begin_shutdown_enter, finish_shutdown_attempt, stop_enter, stop_leave, go_enter, task_finished,
  wait_returns,
}
use gonex.Lifecycle.Interleaving.{
  System, Action, register, finish, act, Enabled, Run, here, next, Reach, Run-IsValid,
  Reach-IsValid,
}

-- In every schedule the phases do not overlap: at most one call at a time runs the hooks of a phase, the
-- start hooks never run beside the started hooks, no hooks of these two phases run beside the shutdown
-- hooks or the stop hooks, and no shutdown hooks run beside the stop hooks.
pub phases_exclusive :
    (s : System)
    → Reach s
    → (s.start_calls ≤ 1)
      × (s.started_calls ≤ 1)
      × (s.shutdown_calls ≤ 1)
      × (s.stop_calls ≤ 1)
      × (s.start_calls + s.started_calls ≤ 1)
      × (0 < s.shutdown_calls → s.start_calls + s.started_calls ≡ 0)
      × (0 < s.stop_calls → s.start_calls + s.started_calls + s.shutdown_calls ≡ 0)
phases_exclusive s r = ground (arith, Reach-IsValid r)

-- In every schedule the shutdown hooks are begun at most once and so are the stop hooks, and the stop
-- hooks only after the shutdown hooks.
pub hooks_once :
    (s : System)
    → Reach s
    → (s.shutdown_rounds ≤ 1) × (s.stop_rounds ≤ 1) × (s.stop_rounds ≤ s.shutdown_rounds)
hooks_once s r = ground (arith, Reach-IsValid r)

-- In every schedule no goroutine closes `taskDone` twice, and `Wait` returns at once exactly if no
-- task goroutine is alive.
pub tasks_counted :
    (s : System)
    → Reach s
    → (s.panicked ≡ false)
      × (Enabled s finish → task_finished s.life ≢ none)
      × (wait_returns s.life ≡ nat_eq s.tasks 0)
unfolding task_finished wait_returns
tasks_counted s r = ground (arith, Reach-IsValid r)

-- What a step of any goroutine leaves after shutdown began.
record IsShut (s u : System) : Type 0 where
  once : u.life.shutdown_once ≡ true
  started : u.life.started ≡ true → s.life.started ≡ true
  start_hooks_run : u.life.start_hooks_run ≡ true → s.life.start_hooks_run ≡ true
  tasks : u.tasks ≤ s.tasks

act-IsShut : (s : System) (a : Action) → s.life.shutdown_once ≡ true → IsShut s (act s a)
unfolding act add begin_start_enter begin_start_leave mark_started_enter mark_started_leave
    begin_shutdown_enter finish_shutdown_attempt stop_enter stop_leave go_enter task_finished
act-IsShut s (register Phase.start h) o = ground arith
act-IsShut s (register _ h) o = ground arith
act-IsShut s _ o = ground arith

Run-IsShut : {s u : System} → s.life.shutdown_once ≡ true → Run s u → IsShut s u
Run-IsShut o here = record {
  once = o;
  started = λ h. h;
  start_hooks_run = λ h. h;
  tasks = omega arith;
}
Run-IsShut o (next {t} a r e) =
    let before = Run-IsShut o r in
    let last = act-IsShut t a before.once in
    record {
      once = last.once;
      started = λ h. before.started (last.started h);
      start_hooks_run = λ h. before.start_hooks_run (last.start_hooks_run h);
      tasks = omega arith;
    }

-- Once a schedule has begun the shutdown, nothing that follows takes that back: the task context is
-- canceled, no startup phase completes any more, and no task goroutine is added.
pub shutdown_final :
    {s u : System}
    → Reach s
    → s.life.shutdown_once ≡ true
    → Run s u
    → (u.life.shutdown_once ≡ true)
      × (u.life.tasks_canceled ≡ true)
      × (u.life.started ≡ true → s.life.started ≡ true)
      × (u.life.start_hooks_run ≡ true → s.life.start_hooks_run ≡ true)
      × (u.tasks ≤ s.tasks)
shutdown_final {s} {u} r o t =
    let shut = Run-IsShut o t in
    let valid = Run-IsValid (Reach-IsValid r) t in
    (shut.once, valid.canceled ∙ shut.once, shut.started, shut.start_hooks_run, shut.tasks)
