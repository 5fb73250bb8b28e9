-- ===== src/Scheduler/Execution/Traces.antt =====
-- What a run of scheduler/persistent_execution.go does on every path.
use gonex.Common.{
  ℕ, ◌≡◌, ◌⊎◌, refl, Bool, true, false, not, ◌||◌, ◌&&◌, Option, none, some, List, [], ◌∷◌, ◌++◌,
  arith, is_some, inl, inr,
}
use mathlib.Core.List.{append_assoc}
use gonex.Scheduler.Persistence.{JobDefinition}
use gonex.Scheduler.Execution.{
  RunStatus, RunError, Environment, LockAnswer, acquired, busy, nil_lock, lock_error, lock_panics,
  HandlerAnswer, Event, records_start, runs, unlocks, locks, records_finish, persistent_lock_ttl,
  is_singleton, when, Fault, panics, returns, failed, panicked, skipped, handler_failed, errors_of,
  run_id_failed, start_failed, finish, classify, run_handler, run_locked, recovered, execute,
}

-- The environment gives the lock.
abbrev pub gives_lock : Option LockAnswer → Bool
gives_lock (some acquired) = true
gives_lock _ = false

HandlerAnswer-cases :
    (a : HandlerAnswer) → ((p : ℕ) × (a ≡ panics p)) ⊎ ((e : Option Fault) × (a ≡ returns e))
HandlerAnswer-cases (panics p) = inl (p, refl)
HandlerAnswer-cases (returns e) = inr (e, refl)

module _ (env : Environment) (has_recorder : Bool) where
  -- The events end with `unlocks`, if there is a lock, and the record of some status.
  abbrev Ends : Bool → List Event → List Event → Type 0
  Ends locked before events =
      (status : RunStatus) × (events
        ≡ before ++ (when locked unlocks ++ when has_recorder (records_finish status)))

  finish-Ends :
      (locked : Bool) (status : RunStatus) (errors observed : List RunError) (events : List Event)
      → Ends locked events (finish env has_recorder locked status errors observed events).0
  unfolding finish
  finish-Ends locked status errors observed events =
      (_, append_assoc events (when locked unlocks) (when has_recorder (records_finish _)))

  run_handler-Ends :
      (locked : Bool) (observed : List RunError) (events : List Event)
      → Ends locked (events ++ runs ∷ []) (run_handler env has_recorder locked observed events).0
  unfolding run_handler
  run_handler-Ends locked observed events = elim (HandlerAnswer-cases env.handler) [
    | inl (p, e) ↦
        rw (e, run_handler)
          (finish-Ends locked failed (panicked p ∷ []) observed (events ++ runs ∷ []))
    | inr (err, e) ↦
        let (status, fault) = classify env.ctx_err err in
        rw (e, run_handler)
          (finish-Ends locked status (errors_of handler_failed fault) observed
            (events ++ runs ∷ []))
  ]

-- On every path, a panic of the handler included, a run records its start, tries the lock of a
-- Singleton job, calls the handler if it needs no lock or has got it, gives the lock back exactly if
-- it has got it, and records its end: each of them once, in this order.
pub execute_events :
    (env : Environment) (has_recorder : Bool) (d : JobDefinition)
    → let alone = is_singleton d.execution_mode in
      (status : RunStatus) × ((execute env has_recorder d).0
        ≡ when has_recorder records_start
          ++ (when (alone && is_some env.locker) (locks d.id (persistent_lock_ttl d.timeout))
              ++ (when (not alone || gives_lock env.locker) runs
                  ++ (when (alone && gives_lock env.locker) unlocks
                      ++ when has_recorder (records_finish status)))))
unfolding execute run_locked run_handler finish classify
execute_events env has_recorder d = cases (is_singleton d.execution_mode) has_recorder refl refl
  where
    by_lock :
        (has : Bool) (l : Option LockAnswer)
        → is_singleton d.execution_mode ≡ true
        → has_recorder ≡ has
        → env.locker ≡ l
        → (status : RunStatus) × ((execute env has_recorder d).0
            ≡ when has_recorder records_start
              ++ (when
                    (is_singleton d.execution_mode && is_some env.locker)
                    (locks d.id (persistent_lock_ttl d.timeout))
                  ++ (when (not (is_singleton d.execution_mode) || gives_lock env.locker) runs
                      ++ (when (is_singleton d.execution_mode && gives_lock env.locker) unlocks
                          ++ when has_recorder (records_finish status)))))
    by_lock true (some acquired) a h e =
        let observed =
          errors_of run_id_failed env.run_id ++ errors_of start_failed (recovered env.start) in
        let (status, eq) =
          run_handler-Ends env has_recorder true observed
            (records_start ∷ locks d.id (persistent_lock_ttl d.timeout) ∷ []) in
        (status, ground (arith, eq))
    by_lock false (some acquired) a h e =
        let (status, eq) =
          run_handler-Ends env has_recorder true []
            (locks d.id (persistent_lock_ttl d.timeout) ∷ []) in
        (status, ground (arith, eq))
    by_lock has (some busy) a h e = (skipped, ground arith)
    by_lock has (some nil_lock) a h e = (failed, ground arith)
    by_lock has (some (lock_error x)) a h e = (failed, ground arith)
    by_lock has (some (lock_panics x)) a h e = (failed, ground arith)
    by_lock has none a h e = (failed, ground arith)

    cases :
        (alone has : Bool)
        → is_singleton d.execution_mode ≡ alone
        → has_recorder ≡ has
        → (status : RunStatus) × ((execute env has_recorder d).0
            ≡ when has_recorder records_start
              ++ (when
                    (is_singleton d.execution_mode && is_some env.locker)
                    (locks d.id (persistent_lock_ttl d.timeout))
                  ++ (when (not (is_singleton d.execution_mode) || gives_lock env.locker) runs
                      ++ (when (is_singleton d.execution_mode && gives_lock env.locker) unlocks
                          ++ when has_recorder (records_finish status)))))
    cases false true a h =
        let observed =
          errors_of run_id_failed env.run_id ++ errors_of start_failed (recovered env.start) in
        let (status, eq) = run_handler-Ends env has_recorder false observed (records_start ∷ []) in
        (status, ground (arith, eq))
    cases false false a h =
        let (status, eq) = run_handler-Ends env has_recorder false [] [] in
        (status, ground (arith, eq))
    cases true has a h = by_lock has env.locker a h refl
