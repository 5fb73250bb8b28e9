-- ===== src/Lifecycle/Calls/Outcomes.antt =====
-- What a whole call of lifecycle/lifecycle.go returns and leaves behind.
pub mod Passing
pub mod Startup
pub mod Examples
use gonex.Common.{
  ℕ, suc, ◌≡◌, refl, ◌⊎◌, inl, inr, true, false, ◌||◌, Option, none, some, List, [], ◌∷◌, ◌++◌,
  or_else, arith, ap, sym, subst, ◌∙◌, Option-cases, zero,
}
use gonex.Lifecycle.{
  Err, Hook, Lifecycle, is_phase_error, closed_attempt, begin_start_enter, begin_start_leave,
  begin_shutdown_enter, finish_shutdown_attempt, stop_enter, stop_leave,
}
use gonex.Lifecycle.Calls.{
  World, Env, poll, run_until_error, run_all, begin_start_locked, begin_start,
  begin_shutdown_locked, begin_shutdown, stop_locked, stop,
}

-- The world after every hook was called, in the order of registration.
pub after_all : Env → List Hook → World → World
after_all env [] w = w
after_all env (h ∷ hs) w = after_all env hs (env.hook h w).1

-- What each of these calls returned.
pub outcomes : Env → List Hook → World → List (Option Err)
outcomes env [] w = []
outcomes env (h ∷ hs) w = (env.hook h w).0 ∷ outcomes env hs (env.hook h w).1

pub first_failure : List (Option Err) → Option Err
first_failure [] = none
first_failure (none ∷ es) = first_failure es
first_failure (some x ∷ es) = some x

run_all_lem :
    (env : Env) (hs : List Hook) (e : Option Err) (w : World)
    → run_all env hs e w ≡ (or_else e (first_failure (outcomes env hs w)), after_all env hs w)
unfolding run_all after_all outcomes first_failure
run_all_lem env [] none w = refl
run_all_lem env [] (some x) w = refl
run_all_lem env (h ∷ hs) e w =
    ground (arith, run_all_lem env hs (or_else e (env.hook h w).0) (env.hook h w).1)

-- A shutdown that may begin calls every shutdown hook in order, whatever the hooks return, and the
-- call returns the first of their errors, which the finished attempt keeps.
pub begin_shutdown_runs_all :
    (env : Env) (w : World)
    → w.life.shutdown_running ≡ false
    → w.life.shutdown_hooks_run ≡ false
    → w.life.start_running ≡ false
    → w.life.starting ≡ false
    → let hooks = w.life.on_shutdown in
      let w1 = record w { life = (begin_shutdown_enter w.life).1 } in
      let w2 = after_all env hooks w1 in
      begin_shutdown_locked env w ≡ (
        first_failure (outcomes env hooks w1),
        record w2 {
          life = finish_shutdown_attempt (first_failure (outcomes env hooks w1)) w2.life;
        },
      )
unfolding begin_shutdown_locked begin_shutdown_enter
begin_shutdown_runs_all env w a b c d = rw (a, b, c, d) (rw run_all_lem)

-- What shutdown and stop leave.
abbrev pub IsStopped : Lifecycle → Option Err → Option Err → Type 0
IsStopped l shutdown_err stop_err =
    (l.shutdown_running ≡ false)
    × (l.shutdown_hooks_run ≡ true)
    × (l.shutdown_attempt ≡ closed_attempt shutdown_err)
    × (l.stop_running ≡ false)
    × (l.shutdown ≡ true)
    × (l.stop_attempt ≡ closed_attempt stop_err)

-- A lifecycle in which nothing runs and no shutdown began.
abbrev pub IsIdle : Lifecycle → Type 0
IsIdle l =
    (l.shutdown_running ≡ false)
    × (l.shutdown_hooks_run ≡ false)
    × (l.start_running ≡ false)
    × (l.starting ≡ false)
    × (l.stop_running ≡ false)
    × (l.shutdown ≡ false)

-- Hooks that do not call the lifecycle back.
abbrev pub IsQuiet : Env → Type 0
IsQuiet env = (h : Hook) (w : World) → (env.hook h w).1.life ≡ w.life

abbrev pub IsAlive : Env → Type 0
IsAlive env = (n : ℕ) → env.ctx_err n ≡ none

life-after_all :
    (env : Env) → IsQuiet env → (hs : List Hook) (w : World) → (after_all env hs w).life ≡ w.life
unfolding after_all
life-after_all env q [] w = refl
life-after_all env q (h ∷ hs) w = life-after_all env q hs (env.hook h w).1 ∙ q h w

stop_stopped :
    (env : Env) (w : World) (shutdown_err stop_err : Option Err)
    → IsAlive env
    → is_phase_error shutdown_err ≡ false
    → IsStopped w.life shutdown_err stop_err
    → stop env w ≡ (stop_err, record w { clock = suc (suc w.clock) })
unfolding stop stop_locked begin_shutdown begin_shutdown_locked begin_shutdown_enter stop_enter poll
stop_stopped env w shutdown_err stop_err alive no_phase (a, b, c, d, e, f) =
    ground (arith, alive w.clock, alive (suc w.clock))

-- The world in which the first `Stop` runs the shutdown hooks.
abbrev pub shutting_down : World → World
shutting_down w = record { life = (begin_shutdown_enter w.life).1; clock = suc w.clock }

-- What the shutdown hooks report to the first `Stop`.
abbrev pub shutdown_failure : Env → World → Option Err
shutdown_failure env w = first_failure (outcomes env w.life.on_shutdown (shutting_down w))

-- The world that the shutdown hooks of the first `Stop` leave.
abbrev pub shut_down : Env → World → World
shut_down env w =
    let w2 = after_all env w.life.on_shutdown (shutting_down w) in
    record w2 { life = finish_shutdown_attempt (shutdown_failure env w) w2.life }

begin_shutdown_first :
    (env : Env) (w : World)
    → IsAlive env
    → IsIdle w.life
    → begin_shutdown env w ≡ (shutdown_failure env w, shut_down env w)
unfolding begin_shutdown poll
begin_shutdown_first env w alive (a, b, c, d, _, _) =
    rw (alive w.clock) (begin_shutdown_runs_all env (record w { clock = suc w.clock }) a b c d)

on_stop-begin_shutdown_enter : (l : Lifecycle) → (begin_shutdown_enter l).1.on_stop ≡ l.on_stop
unfolding begin_shutdown_enter
on_stop-begin_shutdown_enter l = ground arith

stop_of_begin_shutdown :
    (env : Env) (w w1 : World) (e : Option Err)
    → IsAlive env
    → begin_shutdown env w ≡ (e, w1)
    → is_phase_error e ≡ false
    → stop env w ≡ stop_locked env e (record w1 { clock = suc w1.clock })
unfolding stop poll
stop_of_begin_shutdown env w w1 e alive h no_phase = ground (arith, alive w1.clock)

-- The world in which `Stop` runs the stop hooks.
abbrev pub stopping : Option Err → World → World
stopping e w = record w { life = (stop_enter e w.life).1 }

stop_locked_first :
    (env : Env) (w : World) (e : Option Err)
    → IsQuiet env
    → w.life.shutdown_running ≡ false
    → w.life.shutdown_hooks_run ≡ true
    → w.life.shutdown_attempt ≡ closed_attempt e
    → w.life.stop_running ≡ false
    → w.life.shutdown ≡ false
    → let err = or_else e (first_failure (outcomes env w.life.on_stop (stopping e w))) in
      ((stop_locked env e w).0 ≡ err) × IsStopped (stop_locked env e w).1.life e err
unfolding stop_locked stop_enter stop_leave
stop_locked_first env w e quiet a b c d f = ground (
  arith,
  run_all_lem env w.life.on_stop e (stopping e w),
  life-after_all env quiet w.life.on_stop (stopping e w),
)

-- The first `Stop` of an idle lifecycle, with hooks that do not call back: unless a shutdown hook
-- reports a phase error, it returns the first error of the shutdown hooks and the stop hooks, and
-- leaves the lifecycle stopped.
pub stop_first :
    (env : Env) (w : World)
    → IsAlive env
    → IsQuiet env
    → IsIdle w.life
    → is_phase_error (shutdown_failure env w) ≡ false
    → let w1 = shut_down env w in
      let w2 = stopping (shutdown_failure env w) (record w1 { clock = suc w1.clock }) in
      let err = or_else (shutdown_failure env w) (first_failure (outcomes env w.life.on_stop w2)) in
      ((stop env w).0 ≡ err) × IsStopped (stop env w).1.life (shutdown_failure env w) err
unfolding finish_shutdown_attempt begin_shutdown_enter
stop_first env w alive quiet idle no_phase =
    let w1 : World = shut_down env w in
    let e : Option Err = shutdown_failure env w in
    let w2 : World = record w1 { clock = suc w1.clock } in
    let same = life-after_all env quiet w.life.on_shutdown (shutting_down w) in
    rw (stop_of_begin_shutdown env w w1 e alive (begin_shutdown_first env w alive idle) no_phase) (
      subst
        (λ hooks.
          let err = or_else e (first_failure (outcomes env hooks (stopping e w2))) in
          ((stop_locked env e w2).0 ≡ err) × IsStopped (stop_locked env e w2).1.life e err)
        (ap (λ (l : Lifecycle). l.on_stop) same ∙ on_stop-begin_shutdown_enter w.life)
        (stop_locked_first env w2 e quiet refl refl refl (ground arith) (ground arith)))

-- The worlds after further calls of `Stop`, one behind the other.
pub stop_times : Env → ℕ → World → World
unfolding stop
stop_times env zero w = w
stop_times env (suc n) w = stop_times env n (stop env w).1

stop_times-stopped :
    (env : Env) (n : ℕ) (w : World) (shutdown_err stop_err : Option Err)
    → IsAlive env
    → is_phase_error shutdown_err ≡ false
    → IsStopped w.life shutdown_err stop_err
    → ((stop_times env n w).life ≡ w.life) × ((stop env (stop_times env n w)).0 ≡ stop_err)
unfolding stop_times
stop_times-stopped env zero w shutdown_err stop_err alive no_phase done = (
  refl,
  ap (λ (r : Option Err × World). r.0)
      (stop_stopped env w shutdown_err stop_err alive no_phase done),
)
stop_times-stopped env (suc n) w shutdown_err stop_err alive no_phase done =
    subst
      (λ (r : Option Err × World).
        ((stop_times env n r.1).life ≡ w.life) × ((stop env (stop_times env n r.1)).0 ≡ stop_err))
      (sym (stop_stopped env w shutdown_err stop_err alive no_phase done))
      (stop_times-stopped env n (record w { clock = suc (suc w.clock) }) shutdown_err stop_err alive
        no_phase done)

-- After the first `Stop` of an idle lifecycle, whose hooks do not call back and whose shutdown hooks report
-- no phase error, every later `Stop`, however many came before it, returns what the first one returned,
-- and leaves the lifecycle alone. The context stays alive.
pub stop_again :
    (env : Env) (w : World) (n : ℕ)
    → IsAlive env
    → IsQuiet env
    → IsIdle w.life
    → is_phase_error (shutdown_failure env w) ≡ false
    → ((stop_times env n (stop env w).1).life ≡ (stop env w).1.life)
      × ((stop env (stop_times env n (stop env w).1)).0 ≡ (stop env w).0)
stop_again env w n alive quiet idle no_phase =
    let (returned, stopped) = stop_first env w alive quiet idle no_phase in
    let (same, again) = stop_times-stopped env n (stop env w).1 _ _ alive no_phase stopped in
    (same, again ∙ sym returned)

-- A shutdown that is over, whose hooks reported the phase error `x`.
abbrev IsBlocked : Err → Lifecycle → Type 0
IsBlocked x l =
    (l.shutdown_running ≡ false)
    × (l.shutdown_hooks_run ≡ true)
    × (l.shutdown_attempt ≡ closed_attempt (some x))

stop_over :
    (env : Env) (w : World) (x : Err)
    → IsAlive env
    → is_phase_error (some x) ≡ true
    → IsBlocked x w.life
    → stop env w ≡ (some x, record w { clock = suc w.clock })
unfolding stop begin_shutdown begin_shutdown_locked begin_shutdown_enter poll
stop_over env w x alive phase (a, b, c) = ground (arith, alive w.clock)

stop_times-blocked :
    (env : Env) (n : ℕ) (w : World) (x : Err)
    → IsAlive env
    → is_phase_error (some x) ≡ true
    → IsBlocked x w.life
    → ((stop_times env n w).life ≡ w.life) × ((stop env (stop_times env n w)).0 ≡ some x)
unfolding stop_times
stop_times-blocked env zero w x alive phase over =
    (refl, ap (λ (r : Option Err × World). r.0) (stop_over env w x alive phase over))
stop_times-blocked env (suc n) w x alive phase over =
    subst
      (λ (r : Option Err × World).
        ((stop_times env n r.1).life ≡ w.life) × ((stop env (stop_times env n r.1)).0 ≡ some x))
      (sym (stop_over env w x alive phase over))
      (stop_times-blocked env n (record w { clock = suc w.clock }) x alive phase over)

stop_with_phase_error :
    (env : Env) (w w1 : World) (x : Err)
    → begin_shutdown env w ≡ (some x, w1)
    → is_phase_error (some x) ≡ true
    → stop env w ≡ (some x, w1)
unfolding stop
stop_with_phase_error env w w1 x h phase = ground arith

-- If a shutdown hook of an idle lifecycle reports a phase error first (it called `Stop`, say, and passed the
-- refusal on), then `Stop` runs all shutdown hooks and returns that error, and so does every later `Stop`,
-- however many: the shutdown is over, `shutdown` stays as the hooks left it, and none changes the lifecycle
-- any more, so the stop hooks are not run. The context stays alive.
pub stop_blocked :
    (env : Env) (w : World) (x : Err) (n : ℕ)
    → IsAlive env
    → IsIdle w.life
    → shutdown_failure env w ≡ some x
    → is_phase_error (some x) ≡ true
    → (stop env w ≡ (some x, shut_down env w))
      × ((shut_down env w).life.shutdown_hooks_run ≡ true)
      × ((stop_times env n (shut_down env w)).life ≡ (shut_down env w).life)
      × ((stop env (stop_times env n (shut_down env w))).0 ≡ some x)
unfolding finish_shutdown_attempt
stop_blocked env w x n alive idle fails phase =
    let over : IsBlocked x (shut_down env w).life = (refl, refl, ap closed_attempt fails) in
    let (same, again) = stop_times-blocked env n (shut_down env w) x alive phase over in
    (
      stop_with_phase_error env w (shut_down env w) x
          (begin_shutdown_first env w alive idle
            ∙ ap (λ (e : Option Err). (e, shut_down env w)) fails)
          phase,
      refl,
      same,
      again,
    )
