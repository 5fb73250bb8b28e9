-- ===== src/Lifecycle/Interleaving.antt =====
-- Calls of a `Lifecycle` from many goroutines, and from its own hooks: the parts of the methods that
-- hold the mutex (lifecycle/lifecycle.go) run in any order.
use gonex.Common.{
  ℕ, ◌+◌, ◌-◌, ◌<◌, ◌≡◌, Bool, true, false, ◌||◌, ◌⊎◌, Option, none, some, arith, nat_eq, is_none,
}
use gonex.Lifecycle.{
  Phase, Err, Hook, Entered, return, run, Lifecycle, new, add, begin_start_enter, begin_start_leave,
  mark_started_enter, mark_started_leave, begin_shutdown_enter, finish_shutdown_attempt, stop_enter,
  stop_leave, go_enter, task_finished, is_phase_error,
}

abbrev pub to_nat : Bool → ℕ
to_nat true = 1
to_nat false = 0

abbrev pub entered_count : Entered → ℕ
entered_count (return _) = 0
entered_count (run _) = 1

abbrev pub returned_nil : Entered → ℕ
returned_nil (return none) = 1
returned_nil _ = 0

-- A lifecycle with the calls in progress: how many run the hooks of each phase, how many calls of
-- BeginStart have returned nil, how many task goroutines are alive, and how often the shutdown and
-- the stop hooks were begun. `panicked` is a goroutine that closed a closed channel.
pub record System : Type 0 where
  pub life : Lifecycle
  pub start_calls : ℕ
  pub started_calls : ℕ
  pub shutdown_calls : ℕ
  pub stop_calls : ℕ
  pub start_ok : ℕ
  pub tasks : ℕ
  pub shutdown_rounds : ℕ
  pub stop_rounds : ℕ
  pub panicked : Bool

unfoldable pub initial : System
unfolding new
initial = record {
  life = new;
  start_calls = 0;
  started_calls = 0;
  shutdown_calls = 0;
  stop_calls = 0;
  start_ok = 0;
  tasks = 0;
  shutdown_rounds = 0;
  stop_rounds = 0;
  panicked = false;
}

-- What a goroutine does next. `mark_started` wants a BeginStart that returned nil, a `…_leave` a call
-- whose hooks are over, `stop` the error that its BeginShutdown returned.
pub data Action : Type 0 where
  register : Phase → Option Hook → Action
  begin_start mark_started begin_shutdown go finish : Action
  stop start_leave started_leave shutdown_leave stop_leaves : Option Err → Action

unfoldable pub act : System → Action → System
act s (register p h) = record s { life = add p h s.life }
act s begin_start =
    let (e, l) = begin_start_enter s.life in
    record s {
      life = l;
      start_calls = s.start_calls + entered_count e;
      start_ok = s.start_ok + returned_nil e;
    }
act s (start_leave e) =
    let (r, l) = begin_start_leave e s.life in
    record s {
      life = l;
      start_calls = s.start_calls - 1;
      start_ok = s.start_ok + to_nat (is_none r);
    }
act s mark_started =
    let (e, l) = mark_started_enter s.life in
    record s { life = l; started_calls = s.started_calls + entered_count e }
act s (started_leave e) = record s {
  life = (mark_started_leave e s.life).1;
  started_calls = s.started_calls - 1;
}
act s begin_shutdown =
    let (e, l) = begin_shutdown_enter s.life in
    record s {
      life = l;
      shutdown_calls = s.shutdown_calls + entered_count e;
      shutdown_rounds = s.shutdown_rounds + entered_count e;
    }
act s (shutdown_leave e) = record s {
  life = finish_shutdown_attempt e s.life;
  shutdown_calls = s.shutdown_calls - 1;
}
act s (stop shutdown_err) =
    let (e, l) = stop_enter shutdown_err s.life in
    record s {
      life = l;
      stop_calls = s.stop_calls + entered_count e;
      stop_rounds = s.stop_rounds + entered_count e;
    }
act s (stop_leaves e) = record s { life = (stop_leave e s.life).1; stop_calls = s.stop_calls - 1 }
act s go =
    let (spawned, l) = go_enter true s.life in
    record s { life = l; tasks = s.tasks + to_nat spawned }
act s finish = elim (task_finished s.life) [
  | none ↦ record s { panicked = true }
  | some l ↦ record s { life = l; tasks = s.tasks - 1 }
]

-- When a goroutine can take the action.
abbrev pub Enabled : System → Action → Type 0
Enabled s mark_started = 0 < s.start_ok
Enabled s (start_leave e) = 0 < s.start_calls
Enabled s (started_leave e) = 0 < s.started_calls
Enabled s (shutdown_leave e) = 0 < s.shutdown_calls
Enabled s (stop e) = is_phase_error e ≡ false
Enabled s (stop_leaves e) = 0 < s.stop_calls
Enabled s finish = 0 < s.tasks
Enabled s _ = Unit

-- The systems that a schedule reaches from `s`.
pub data Run (s : System) : System → Type 0 where
  here : Run s s
  next : {t : System} (a : Action) → Run s t → Enabled t a → Run s (act t a)

abbrev pub Reach : System → Type 0
Reach = Run initial

pub record IsValid (s : System) : Type 0 where
  pub start_calls : s.start_calls ≡ to_nat s.life.start_running
  pub started_calls : s.started_calls ≡ to_nat s.life.starting
  pub shutdown_calls : s.shutdown_calls ≡ to_nat s.life.shutdown_running
  pub stop_calls : s.stop_calls ≡ to_nat s.life.stop_running
  pub shutdown_rounds :
      s.shutdown_rounds ≡ to_nat (s.life.shutdown_running || s.life.shutdown_hooks_run)
  pub stop_rounds : s.stop_rounds ≡ to_nat (s.life.stop_running || s.life.shutdown)
  pub tasks : s.tasks ≡ s.life.task_count
  pub task_done : s.life.task_done ≡ nat_eq s.life.task_count 0
  pub canceled : s.life.tasks_canceled ≡ s.life.shutdown_once
  pub safe : s.panicked ≡ false
  pub start_ok : 0 < s.start_ok → s.life.start_hooks_run ≡ true
  pub start_fresh : s.life.start_running ≡ true → s.life.start_hooks_run ≡ false
  pub starting_after : s.life.starting ≡ true → s.life.start_hooks_run ≡ true
  pub started_after : s.life.started ≡ true → s.life.start_hooks_run ≡ true
  pub shutting :
      (s.life.shutdown_running ≡ true) ⊎ (s.life.shutdown_hooks_run ≡ true)
      → (s.life.shutdown_once ≡ true) × (s.life.start_running ≡ false) × (s.life.starting ≡ false)
  pub shut_once : s.life.shutdown_running ≡ true → s.life.shutdown_hooks_run ≡ false
  pub stopping :
      (s.life.stop_running ≡ true) ⊎ (s.life.shutdown ≡ true) → s.life.shutdown_hooks_run ≡ true
  pub stop_once : s.life.stop_running ≡ true → s.life.shutdown ≡ false

pub initial-IsValid : IsValid initial
unfolding initial
initial-IsValid = ground arith

pub act-IsValid : (s : System) (a : Action) → IsValid s → Enabled s a → IsValid (act s a)
unfolding act add begin_start_enter begin_start_leave mark_started_enter mark_started_leave
    begin_shutdown_enter finish_shutdown_attempt stop_enter stop_leave go_enter task_finished
act-IsValid s (register Phase.start h) v e = ground arith
act-IsValid s (register _ h) v e = ground arith
act-IsValid s _ v e = ground arith

pub Run-IsValid : {s t : System} → IsValid s → Run s t → IsValid t
Run-IsValid v here = v
Run-IsValid v (next a r e) = act-IsValid _ a (Run-IsValid v r) e

pub Reach-IsValid : {s : System} → Reach s → IsValid s
Reach-IsValid = Run-IsValid initial-IsValid
