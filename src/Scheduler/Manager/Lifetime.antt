-- ===== src/Scheduler/Manager/Lifetime.antt =====
-- Start, Stop, Wait, Use and SetDefaultLogger of scheduler/scheduler.go, and the part of `run`
-- (scheduler/execution.go) that asks the gate.
use gonex.Common.{ℕ, Bool, true, false, Option, none, some, List, [], ◌∷◌, ◌++◌, if◌then◌else◌}
use gonex.Common.Dict.{Dict}
use gonex.Scheduler.Overlap.{Admission, dropped, Handler, admit}
use gonex.Scheduler.Job.{Middleware}
use gonex.Scheduler.Engine.{ok, failed, Engine}
use gonex.Scheduler.Manager.{
  Err, stopped, started, nil_middleware, engine_create, canceled, JobRecord, Manager, update,
  install, runnable,
}
use gonex.Scheduler.Manager.Operations.{is_stopped}

-- Use: one nil refuses all.
unfoldable pub drop_nils : List (Option Middleware) → Option (List Middleware)
drop_nils [] = some []
drop_nils (none ∷ xs) = none
drop_nils (some x ∷ xs) = elim (drop_nils xs) [ none ↦ none | some ys ↦ some (x ∷ ys) ]

unfoldable pub use_middleware :
    {E : Type 0} → List (Option Middleware) → Manager E → Option Err × Manager E
unfolding drop_nils
use_middleware middleware m = elim (drop_nils middleware) [
  | none ↦ (some nil_middleware, m)
  | some items ↦
      if is_stopped m
      then (some stopped, m)
      else (none, record m { middleware = m.middleware ++ items })
]

-- SetDefaultLogger; `none` is a nil logger.
unfoldable pub set_default_logger : {E : Type 0} → Option ℕ → Manager E → Manager E
set_default_logger none m = m
set_default_logger (some logger) m = if m.logger_configured then m else record m { logger = logger }

-- What a call of `Wait` finds: nothing to wait for or a finished attempt with its error (`some`), or
-- an attempt that is not done, on which it waits beside its context (`none`).
unfoldable pub wait_result : {E : Type 0} → Manager E → Option (Option ℕ)
wait_result m = elim m.stop_attempt [
  | none ↦ some none
  | some attempt ↦ if attempt.done then some attempt.err else none
]

-- `run`, up to the call of the handler: a record that may not run does not reach the gate, and a record
-- that is not published yet waits for that or for its context (`none`).
unfoldable pub run_record :
    {E : Type 0} → JobRecord → Handler → Manager E → Option Admission × Manager E
unfolding runnable
run_record r handler m = elim (runnable r.token m) [
  | some true ↦
      let (admission, g) = admit r.token handler (m.gates r.gate) in
      (some admission, record m { gates = update m.gates r.gate g })
  | some false ↦ (some dropped, m)
  | none ↦ (none, m)
]

module _ (engine : Engine) where
  -- The loop of `Start` over the jobs; the order of the map is that of the entries.
  unfoldable pub install_all :
      Dict JobRecord → engine.State → Option Err × Dict JobRecord × engine.State
  unfolding install
  install_all [] s = (none, [], s)
  install_all ((name, r) ∷ jobs) s =
      let (e, r', s1) = install engine r s in
      let (e', jobs', s2) = install_all jobs s1 in
      elim e [ some x ↦ (some x, (name, r') ∷ jobs, s1) | none ↦ (e', (name, r') ∷ jobs', s2) ]

  -- Start, with what `ctx.Err()` gives. A failed start shuts the engine down and forgets it.
  unfoldable pub start_manager : Option ℕ → Manager engine.State → Option Err × Manager engine.State
  unfolding install_all
  start_manager ctx_err m = elim ctx_err [
    | some e ↦ (some (canceled e), m)
    | none ↦
        if is_stopped m
        then (some stopped, m)
        else if m.started
        then (some started, m)
        else elim engine.new_scheduler [
          | failed e ↦ (some (engine_create e), m)
          | ok s ↦
              let (e, jobs, s') = install_all m.jobs s in
              elim e [
                | some x ↦ (some x, record m { jobs = jobs; inner = none; context_canceled = none })
                | none ↦ (
                  none,
                  record m {
                    jobs = jobs;
                    inner = some s';
                    context_canceled = some false;
                    started = true;
                  },
                )
              ]
        ]
  ]

  -- Stop under the mutex; the goroutine that it starts, if it does, is `stop_end`.
  unfoldable pub stop_begin : Manager engine.State → Bool × Manager engine.State
  stop_begin m =
      if is_stopped m
      then (false, m)
      else (let m1 = record m {
        stopping = true;
        stop_attempt = some (record { done = false; err = none });
        context_canceled = elim m.context_canceled [ none ↦ none | some _ ↦ some true ];
      } in
          elim m.inner [
            | none ↦ (
              false,
              record m1 {
                stopped = true;
                stopping = false;
                stop_attempt = some (record { done = true; err = none });
              },
            )
            | some s ↦ (true, m1)
          ])

  unfoldable pub stop_end : Manager engine.State → Manager engine.State
  stop_end m = elim m.inner [
    | none ↦ m
    | some s ↦
        let (e, s') = engine.shutdown s in
        record m {
          inner = some s';
          stopped = true;
          stopping = false;
          stop_attempt = some (record { done = true; err = e });
        }
  ]
