-- ===== src/Lifecycle.antt =====
-- lifecycle/lifecycle.go: the state of a `Lifecycle`, and the parts of its methods that run under the
-- mutex. A method that runs hooks releases the mutex meanwhile, so it has two parts: `…_enter`
-- from `mu.Lock()` to the `mu.Unlock()` before the loop, and `…_leave` after the loop.
pub mod Calls
pub mod Interleaving
pub mod Safety
pub mod Examples
use gonex.Common.{
  ℕ, zero, suc, ◌+◌, ◌-◌, Bool, true, false, ◌||◌, ◌&&◌, Option, none, some, List, [], ◌∷◌, ◌++◌,
  if◌then◌else◌, is_none, nat_eq,
}

pub data Phase : Type 0 where
  start started shutdown stop : Phase

-- `canceled` is context.Canceled; `phase_in_progress` and `startup_in_progress` wrap
-- ErrPhaseInProgress; `foreign` is any error of a hook or a context.
pub data Err : Type 0 where
  canceled startup_in_progress : Err
  phase_in_progress : Phase → Err
  foreign : ℕ → Err

-- errors.Is(err, ErrPhaseInProgress)
abbrev pub is_phase_error : Option Err → Bool
is_phase_error (some startup_in_progress) = true
is_phase_error (some (phase_in_progress _)) = true
is_phase_error _ = false

-- A hook by its number: what it does is the environment's.
abbrev pub Hook : Type 0
Hook = ℕ

-- `done` is whether the channel is closed.
pub record PhaseAttempt : Type 0 where
  pub done : Bool
  pub err : Option Err

-- `task_done` is whether that channel is closed, `tasks_canceled` whether `cancelTasks` was called.
pub record Lifecycle : Type 0 where
  pub on_start : List Hook
  pub on_started : List Hook
  pub on_shutdown : List Hook
  pub on_stop : List Hook
  pub start_hooks_run : Bool
  pub start_running : Bool
  pub start_attempt : Option PhaseAttempt
  pub started : Bool
  pub starting : Bool
  pub started_attempt : Option PhaseAttempt
  pub shutdown : Bool
  pub shutdown_once : Bool
  pub shutdown_hooks_run : Bool
  pub shutdown_running : Bool
  pub shutdown_attempt : Option PhaseAttempt
  pub stop_running : Bool
  pub stop_attempt : Option PhaseAttempt
  pub task_count : ℕ
  pub task_done : Bool
  pub tasks_canceled : Bool

unfoldable pub new : Lifecycle
new = record {
  on_start = [];
  on_started = [];
  on_shutdown = [];
  on_stop = [];
  start_hooks_run = false;
  start_running = false;
  start_attempt = none;
  started = false;
  starting = false;
  started_attempt = none;
  shutdown = false;
  shutdown_once = false;
  shutdown_hooks_run = false;
  shutdown_running = false;
  shutdown_attempt = none;
  stop_running = false;
  stop_attempt = none;
  task_count = 0;
  task_done = true;
  tasks_canceled = false;
}

-- OnStart, OnStarted, OnShutdown and OnStop by way of `add`: a nil hook is ignored.
pub add : Phase → Option Hook → Lifecycle → Lifecycle
add p none l = l
add start (some h) l = record l { on_start = l.on_start ++ h ∷ [] }
add started (some h) l = record l { on_started = l.on_started ++ h ∷ [] }
add shutdown (some h) l = record l { on_shutdown = l.on_shutdown ++ h ∷ [] }
add stop (some h) l = record l { on_stop = l.on_stop ++ h ∷ [] }

-- What the first part of a method decides: to return, or to run these hooks.
pub data Entered : Type 0 where
  return : Option Err → Entered
  run : List Hook → Entered

abbrev pub open_attempt : Option PhaseAttempt
open_attempt = some (record { done = false; err = none })

abbrev pub closed_attempt : Option Err → Option PhaseAttempt
closed_attempt e = some (record { done = true; err = e })

pub begin_start_enter : Lifecycle → Entered × Lifecycle
begin_start_enter l =
    if l.start_hooks_run
    then (return none, l)
    else if l.shutdown_once || l.shutdown
    then (return (some canceled), l)
    else if l.start_running
    then (return (some (phase_in_progress start)), l)
    else (run l.on_start, record l { start_running = true; start_attempt = open_attempt })

-- `firstError` once the mutex is held again: a shutdown that came meanwhile cancels the startup.
abbrev pub after_hooks : Option Err → Lifecycle → Option Err
after_hooks e l = if is_none e && (l.shutdown_once || l.shutdown) then some canceled else e

pub begin_start_leave : Option Err → Lifecycle → Option Err × Lifecycle
begin_start_leave e l =
    let first_error = after_hooks e l in
    (
      first_error,
      record l {
        start_hooks_run = is_none first_error;
        start_running = false;
        start_attempt = none;
      },
    )

pub mark_started_enter : Lifecycle → Entered × Lifecycle
mark_started_enter l =
    if l.started
    then (return none, l)
    else if l.shutdown_once || l.shutdown
    then (return (some canceled), l)
    else if l.starting
    then (return (some (phase_in_progress started)), l)
    else (run l.on_started, record l { starting = true; started_attempt = open_attempt })

pub mark_started_leave : Option Err → Lifecycle → Option Err × Lifecycle
mark_started_leave e l =
    let first_error = after_hooks e l in
    (
      first_error,
      record l { started = is_none first_error; starting = false; started_attempt = none },
    )

-- `if attempt == nil { return fallback }; return attempt.err`
abbrev pub attempt_error : Option PhaseAttempt → Option Err → Option Err
attempt_error none fallback = fallback
attempt_error (some a) fallback = a.err

pub begin_shutdown_enter : Lifecycle → Entered × Lifecycle
begin_shutdown_enter l =
    if l.shutdown_running
    then (return (some (phase_in_progress shutdown)), l)
    else if l.shutdown_hooks_run
    then (return (attempt_error l.shutdown_attempt none), l)
    else if l.start_running || l.starting
    then (
      return (some startup_in_progress),
      record l { shutdown_once = true; tasks_canceled = true },
    )
    else (
      run l.on_shutdown,
      record l {
        shutdown_once = true;
        tasks_canceled = true;
        shutdown_running = true;
        shutdown_attempt = open_attempt;
      },
    )

-- finishShutdownAttempt. Only one attempt is ever open, so the attempt is the recorded one.
pub finish_shutdown_attempt : Option Err → Lifecycle → Lifecycle
finish_shutdown_attempt e l = record l {
  shutdown_running = false;
  shutdown_hooks_run = true;
  shutdown_attempt = closed_attempt e;
}

-- The part of `Stop` after `BeginShutdown` returned `shutdown_err`.
pub stop_enter : Option Err → Lifecycle → Entered × Lifecycle
stop_enter shutdown_err l =
    if l.shutdown_hooks_run
    then (if l.stop_running
        then (return (some (phase_in_progress stop)), l)
        else if l.shutdown
        then (return (attempt_error l.stop_attempt shutdown_err), l)
        else (run l.on_stop, record l { stop_running = true; stop_attempt = open_attempt }))
    else (return shutdown_err, l)

pub stop_leave : Option Err → Lifecycle → Option Err × Lifecycle
stop_leave e l =
    (e, record l { shutdown = true; stop_running = false; stop_attempt = closed_attempt e })

-- The part of `Go` under the mutex; the Boolean is whether a goroutine is started. A nil task and a
-- task after shutdown began are dropped.
pub go_enter : Bool → Lifecycle → Bool × Lifecycle
go_enter has_task l =
    if has_task
    then (if l.shutdown_once || l.shutdown then (false, l) else (
      true,
      record l {
        task_done = if nat_eq l.task_count 0 then false else l.task_done;
        task_count = l.task_count + 1;
      },
    ))
    else (false, l)

-- taskFinished; `none` is the panic of closing a channel that is closed already.
pub task_finished : Lifecycle → Option Lifecycle
task_finished l =
    if nat_eq l.task_count 0
    then some l
    else if nat_eq (l.task_count - 1) 0
    then (if l.task_done
        then none
        else some (record l { task_count = l.task_count - 1; task_done = true }))
    else some (record l { task_count = l.task_count - 1 })

-- Whether `Wait` returns without its context: at once, or because the channel it selects on is closed. That
-- it also returns once the context is done is not modelled.
pub wait_returns : Lifecycle → Bool
wait_returns l = nat_eq l.task_count 0 || l.task_done
