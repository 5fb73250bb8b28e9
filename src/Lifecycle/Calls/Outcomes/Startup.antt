-- ===== src/Lifecycle/Calls/Outcomes/Startup.antt =====
-- What BeginStart of lifecycle/lifecycle.go returns, and which startup hooks it has run.
use gonex.Common.{
  suc, ◌≡◌, refl, ◌⊎◌, inl, inr, true, false, ◌||◌, Option, none, some, arith, ap, sym, subst, ◌∙◌,
  Option-cases, Bool-cases,
}
use gonex.Lifecycle.{
  Phase, Err, canceled, phase_in_progress, Lifecycle, open_attempt, begin_start_enter,
  begin_start_leave, Entered, return, run,
}
use gonex.Lifecycle.Calls.{
  World, Env, poll, run_until_error, run_startup, begin_start_locked, begin_start,
}
use gonex.Lifecycle.Calls.Outcomes.Passing.{
  looked, Passes, IsLeft, run_until_error-Passes, run_until_error-IsLeft,
}

-- The world in which `BeginStart` runs the startup hooks.
abbrev pub starting : World → World
starting w = record {
  life = record w.life { start_running = true; start_attempt = open_attempt };
  clock = suc w.clock;
}

-- The world that the last part of `BeginStart` leaves.
abbrev pub start_over : World → World
start_over w = record w {
  life = record w.life { start_hooks_run = false; start_running = false; start_attempt = none };
}

abbrev pub start_done : World → World
start_done w = record w {
  life = record w.life { start_hooks_run = true; start_running = false; start_attempt = none };
}

-- What a `BeginStart` that began the phase and returned `x` has done.
abbrev pub IsInterrupted : Env → World → Err → World → Type 0
IsInterrupted env w x w1 =
    (u : World) × (w1 ≡ start_over u)
    × (IsLeft env w.life.on_start (starting w) x u
        ⊎ ((v : World) × Passes env w.life.on_start (starting w) v
            × (u ≡ looked v)
            × ((env.ctx_err v.clock ≡ some x)
                ⊎ ((env.ctx_err v.clock ≡ none)
                    × ((v.life.shutdown_once || v.life.shutdown) ≡ true)
                    × (x ≡ canceled)))))

-- What a `BeginStart` that began the phase and returned nil has done.
abbrev pub IsCompleted : Env → World → World → Type 0
IsCompleted env w w1 =
    (v : World) × Passes env w.life.on_start (starting w) v
    × (env.ctx_err v.clock ≡ none)
    × ((v.life.shutdown_once || v.life.shutdown) ≡ false)
    × (w1 ≡ start_done (looked v))

-- What one attempt at the startup hooks comes to, by what it returned.
IsAttempt : Env → World → Option Err × World → Type 0
IsAttempt env w (none, w1) = IsCompleted env w w1
IsAttempt env w (some x, w1) = IsInterrupted env w x w1

-- The last part of `BeginStart`, with the error so far.
leaving : Option Err × World → Option Err × World
leaving (e, u) = let (e1, l) = begin_start_leave e u.life in (e1, record u { life = l })

-- The end of `BeginStart`, from what the loop over the hooks gives.
after_loop : Env → Option Err × World → Option Err × World
after_loop env (some x, u) = leaving (some x, u)
after_loop env (none, u) = leaving (poll env u)

after_loop-some :
    (env : Env) (x : Err) (u : World) → after_loop env (some x, u) ≡ (some x, start_over u)
unfolding after_loop leaving begin_start_leave
after_loop-some env x u = refl

after_loop-dead :
    (env : Env) (x : Err) (v : World)
    → env.ctx_err v.clock ≡ some x
    → after_loop env (none, v) ≡ (some x, start_over (looked v))
unfolding after_loop leaving begin_start_leave poll
after_loop-dead env x v dead = ground (arith, dead)

after_loop-shut :
    (env : Env) (v : World)
    → env.ctx_err v.clock ≡ none
    → (v.life.shutdown_once || v.life.shutdown) ≡ true
    → after_loop env (none, v) ≡ (some canceled, start_over (looked v))
unfolding after_loop leaving begin_start_leave poll
after_loop-shut env v alive shut = ground (arith, alive, shut)

after_loop-done :
    (env : Env) (v : World)
    → env.ctx_err v.clock ≡ none
    → (v.life.shutdown_once || v.life.shutdown) ≡ false
    → after_loop env (none, v) ≡ (none, start_done (looked v))
unfolding after_loop leaving begin_start_leave poll
after_loop-done env v alive opened = ground (arith, alive, opened)

after_loop-IsAttempt :
    (env : Env) (w : World) (r : Option Err × World)
    → run_until_error env w.life.on_start (starting w) ≡ r
    → IsAttempt env w (after_loop env r)
unfolding IsAttempt
after_loop-IsAttempt env w (some x, u) ran =
    subst (IsAttempt env w) (sym (after_loop-some env x u))
      (u, refl, inl (run_until_error-IsLeft env w.life.on_start (starting w) u x ran))
after_loop-IsAttempt env w (none, v) ran =
    let passes = run_until_error-Passes env w.life.on_start (starting w) v ran in
    elim (Option-cases (env.ctx_err v.clock)) [
      | inr (x, dead) ↦
          subst (IsAttempt env w) (sym (after_loop-dead env x v dead))
            (looked v, refl, inr (v, passes, refl, inl dead))
      | inl alive ↦ elim (Bool-cases (v.life.shutdown_once || v.life.shutdown)) [
        | inl shut ↦
            subst (IsAttempt env w) (sym (after_loop-shut env v alive shut))
              (looked v, refl, inr (v, passes, refl, inr (alive, shut, refl)))
        | inr opened ↦
            subst (IsAttempt env w) (sym (after_loop-done env v alive opened))
              (v, passes, alive, opened, refl)
      ]
    ]

begin_start_enter-run :
    (l : Lifecycle)
    → l.start_hooks_run ≡ false
    → (l.shutdown_once || l.shutdown) ≡ false
    → l.start_running ≡ false
    → begin_start_enter l
      ≡ (run l.on_start, record l { start_running = true; start_attempt = open_attempt })
unfolding begin_start_enter
begin_start_enter-run l a b c = ground (arith, a, b, c)

-- The end of `BeginStart`, from what its first part under the mutex decides.
after_enter : Env → World → Entered × Lifecycle → Option Err × World
after_enter env w (return e, l) = (e, record w { life = l })
after_enter env w (run hooks, l) =
    after_loop env (run_until_error env hooks (record w { life = l }))

begin_start-after_enter :
    (env : Env) (w : World)
    → env.ctx_err w.clock ≡ none
    → begin_start env w ≡ after_enter env (looked w) (begin_start_enter w.life)
unfolding begin_start begin_start_locked poll after_enter after_loop leaving run_startup
begin_start-after_enter env w alive = ground (arith, alive)

begin_start-loop :
    (env : Env) (w : World)
    → env.ctx_err w.clock ≡ none
    → w.life.start_hooks_run ≡ false
    → (w.life.shutdown_once || w.life.shutdown) ≡ false
    → w.life.start_running ≡ false
    → begin_start env w ≡ after_loop env (run_until_error env w.life.on_start (starting w))
unfolding after_enter
begin_start-loop env w alive a b c =
    begin_start-after_enter env w alive
    ∙ ap (after_enter env (looked w)) (begin_start_enter-run w.life a b c)

declined_dead :
    (env : Env) (w : World) (x : Err)
    → env.ctx_err w.clock ≡ some x
    → begin_start env w ≡ (some x, looked w)
unfolding begin_start poll
declined_dead env w x dead = ground (arith, dead)

declined_run :
    (env : Env) (w : World)
    → env.ctx_err w.clock ≡ none
    → w.life.start_hooks_run ≡ true
    → begin_start env w ≡ (none, looked w)
unfolding begin_start begin_start_locked begin_start_enter poll
declined_run env w alive a = ground (arith, alive, a)

declined_shut :
    (env : Env) (w : World)
    → env.ctx_err w.clock ≡ none
    → w.life.start_hooks_run ≡ false
    → (w.life.shutdown_once || w.life.shutdown) ≡ true
    → begin_start env w ≡ (some canceled, looked w)
unfolding begin_start begin_start_locked begin_start_enter poll
declined_shut env w alive a b = ground (arith, alive, a, b)

declined_running :
    (env : Env) (w : World)
    → env.ctx_err w.clock ≡ none
    → w.life.start_hooks_run ≡ false
    → (w.life.shutdown_once || w.life.shutdown) ≡ false
    → w.life.start_running ≡ true
    → begin_start env w ≡ (some (phase_in_progress Phase.start), looked w)
unfolding begin_start begin_start_locked begin_start_enter poll
declined_running env w alive a b c = ground (arith, alive, a, b, c)

-- Why a call of `BeginStart` was refused at once with `x`.
abbrev pub IsRefused : Env → World → Err → Type 0
IsRefused env w x =
    (env.ctx_err w.clock ≡ some x)
    ⊎ (((w.life.shutdown_once || w.life.shutdown) ≡ true) × (x ≡ canceled))
    ⊎ ((w.life.start_running ≡ true) × (x ≡ phase_in_progress Phase.start))

IsCall : Env → World → Option Err × World → Type 0
IsCall env w (none, w1) =
    ((w.life.start_hooks_run ≡ true) × (w1 ≡ looked w))
    ⊎ ((w.life.start_hooks_run ≡ false) × IsCompleted env w w1)
IsCall env w (some x, w1) =
    (IsRefused env w x × (w1 ≡ looked w))
    ⊎ ((w.life.start_hooks_run ≡ false) × IsInterrupted env w x w1)

IsAttempt-IsCall :
    (env : Env) (w : World) (r : Option Err × World)
    → w.life.start_hooks_run ≡ false
    → IsAttempt env w r
    → IsCall env w r
unfolding IsAttempt IsCall
IsAttempt-IsCall env w (none, w1) fresh h = inr (fresh, h)
IsAttempt-IsCall env w (some x, w1) fresh h = inr (fresh, h)

begin_start-IsCall : (env : Env) (w : World) → IsCall env w (begin_start env w)
unfolding IsCall
begin_start-IsCall env w = elim (Option-cases (env.ctx_err w.clock)) [
  | inr (x, dead) ↦ subst (IsCall env w) (sym (declined_dead env w x dead)) (inl (inl dead, refl))
  | inl alive ↦ elim (Bool-cases w.life.start_hooks_run) [
    | inl a ↦ subst (IsCall env w) (sym (declined_run env w alive a)) (inl (a, refl))
    | inr a ↦ elim (Bool-cases (w.life.shutdown_once || w.life.shutdown)) [
      | inl b ↦
          subst (IsCall env w) (sym (declined_shut env w alive a b))
            (inl (inr (inl (b, refl)), refl))
      | inr b ↦ elim (Bool-cases w.life.start_running) [
        | inl c ↦
            subst (IsCall env w) (sym (declined_running env w alive a b c))
              (inl (inr (inr (c, refl)), refl))
        | inr c ↦
            subst (IsCall env w) (sym (begin_start-loop env w alive a b c))
              (IsAttempt-IsCall env w _ a (after_loop-IsAttempt env w _ refl))
      ]
    ]
  ]
]

-- A `BeginStart` that returns nil has called every startup hook in the order of registration, unless a call
-- before it had: each returned nil with the context alive behind it, the context was alive behind them
-- all, no shutdown had begun by then, and the phase is recorded as run. If the startup hooks had run
-- before, it has called none and left the lifecycle alone.
pub begin_start_ok :
    (env : Env) (w w1 : World)
    → begin_start env w ≡ (none, w1)
    → ((w.life.start_hooks_run ≡ true) × (w1 ≡ looked w))
      ⊎ ((w.life.start_hooks_run ≡ false) × IsCompleted env w w1)
unfolding IsCall
begin_start_ok env w w1 e = subst (IsCall env w) e (begin_start-IsCall env w)

-- A `BeginStart` that returns an error was either refused at once, for the context, a shutdown or another
-- call that runs the hooks, and has changed nothing; or it has begun the phase and left it not run, and
-- one of these holds: a startup hook returned the error or the context had it right behind a hook that
-- returned nil, all hooks before it passed (nil, with the context alive behind), and no later hook was
-- called; or all hooks passed, and the context had the error behind them, or a shutdown had begun and the
-- error is Canceled.
pub begin_start_fails :
    (env : Env) (w w1 : World) (x : Err)
    → begin_start env w ≡ (some x, w1)
    → (IsRefused env w x × (w1 ≡ looked w))
      ⊎ ((w.life.start_hooks_run ≡ false) × IsInterrupted env w x w1)
unfolding IsCall
begin_start_fails env w w1 x e = subst (IsCall env w) e (begin_start-IsCall env w)
