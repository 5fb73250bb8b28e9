-- ===== src/Lifecycle/Calls.antt =====
-- Whole calls of lifecycle/lifecycle.go from one goroutine, with the hooks and the context as an
-- environment: a hook may change the lifecycle (it can call its methods), and the context may be
-- canceled between any two looks at it.
pub mod Outcomes
use gonex.Common.{ℕ, suc, Option, none, some, List, [], ◌∷◌, if◌then◌else◌, or_else}
use gonex.Lifecycle.{
  Err, Hook, return, run, Lifecycle, is_phase_error, begin_start_enter, begin_start_leave,
  mark_started_enter, mark_started_leave, begin_shutdown_enter, finish_shutdown_attempt, stop_enter,
  stop_leave,
}

-- `clock` counts the looks at the context.
pub record World : Type 0 where
  pub life : Lifecycle
  pub clock : ℕ

pub record Env : Type 0 where
  pub hook : Hook → World → Option Err × World
  pub ctx_err : ℕ → Option Err

module _ (env : Env) where
  -- ctx.Err()
  pub poll : World → Option Err × World
  poll w = (env.ctx_err w.clock, record w { clock = suc w.clock })

  abbrev pub locked {ℓ} : {A : Type ℓ} → (Lifecycle → A × Lifecycle) → World → A × World
  locked f w = let (a, l) = f w.life in (a, record w { life = l })

  -- The loop over the startup hooks: it breaks at the first error of a hook or of the context.
  pub run_until_error : List Hook → World → Option Err × World
  run_until_error [] w = (none, w)
  run_until_error (h ∷ hs) w =
      let (e, w1) = env.hook h w in
      let (c, w2) = poll w1 in
      elim e [
        | some x ↦ (some x, w1)
        | none ↦ elim c [ some x ↦ (some x, w2) | none ↦ run_until_error hs w2 ]
      ]

  -- The loop, and the look at the context behind it.
  pub run_startup : List Hook → World → Option Err × World
  run_startup hs w =
      let (e, w1) = run_until_error hs w in elim e [ some x ↦ (some x, w1) | none ↦ poll w1 ]

  -- The loop over the shutdown or stop hooks: all run, and the first error is kept.
  pub run_all : List Hook → Option Err → World → Option Err × World
  run_all [] first_error w = (first_error, w)
  run_all (h ∷ hs) first_error w =
      let (e, w1) = env.hook h w in run_all hs (or_else first_error e) w1

  pub begin_start_locked : World → Option Err × World
  begin_start_locked w =
      let (entered, w1) = locked begin_start_enter w in
      elim entered [
        | return e ↦ (e, w1)
        | run hooks ↦ let (e, w2) = run_startup hooks w1 in locked (begin_start_leave e) w2
      ]

  pub begin_start : World → Option Err × World
  begin_start w =
      let (e, w1) = poll w in elim e [ some x ↦ (some x, w1) | none ↦ begin_start_locked w1 ]

  pub mark_started_locked : World → Option Err × World
  mark_started_locked w =
      let (entered, w1) = locked mark_started_enter w in
      elim entered [
        | return e ↦ (e, w1)
        | run hooks ↦ let (e, w2) = run_startup hooks w1 in locked (mark_started_leave e) w2
      ]

  pub mark_started : World → Option Err × World
  mark_started w =
      let (e, w1) = begin_start w in
      elim e [
        | some x ↦ (some x, w1)
        | none ↦
            let (c, w2) = poll w1 in
            elim c [ some x ↦ (some x, w2) | none ↦ mark_started_locked w2 ]
      ]

  -- Start
  pub start_both : World → Option Err × World
  start_both w =
      let (e, w1) = begin_start w in elim e [ some x ↦ (some x, w1) | none ↦ mark_started w1 ]

  pub begin_shutdown_locked : World → Option Err × World
  begin_shutdown_locked w =
      let (entered, w1) = locked begin_shutdown_enter w in
      elim entered [
        | return e ↦ (e, w1)
        | run hooks ↦
            let (e, w2) = run_all hooks none w1 in
            (e, record w2 { life = finish_shutdown_attempt e w2.life })
      ]

  pub begin_shutdown : World → Option Err × World
  begin_shutdown w =
      let (e, w1) = poll w in elim e [ some x ↦ (some x, w1) | none ↦ begin_shutdown_locked w1 ]

  -- `Stop` once `BeginShutdown` has returned `shutdown_err`, not a phase error, and the context is alive.
  pub stop_locked : Option Err → World → Option Err × World
  stop_locked shutdown_err w =
      let (entered, w1) = locked (stop_enter shutdown_err) w in
      elim entered [
        | return e ↦ (e, w1)
        | run hooks ↦ let (e, w2) = run_all hooks shutdown_err w1 in locked (stop_leave e) w2
      ]

  pub stop : World → Option Err × World
  stop w =
      let (shutdown_err, w1) = begin_shutdown w in
      if is_phase_error shutdown_err
      then (shutdown_err, w1)
      else (let (c, w2) = poll w1 in
          elim c [ some x ↦ (some x, w2) | none ↦ stop_locked shutdown_err w2 ])
