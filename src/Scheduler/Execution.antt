-- ===== src/Scheduler/Execution.antt =====
-- scheduler/persistent_execution.go: one run of a persistent job. The run is the sequence of its calls
-- of the recorder, the locker, the handler and the lock, with what each of them answers as an
-- environment. The times of a run record are left out.
pub mod Traces
pub mod Examples
use gonex.Common.{
  ℕ, ◌+◌, ◌/◌, String, Bool, true, false, not, ◌||◌, ◌&&◌, Option, none, some, List, [], ◌∷◌, ◌++◌,
  ltb, if◌then◌else◌, is_some,
}
use gonex.Common.Int.{ℤ, pos, negsuc}
use gonex.Scheduler.Persistence.{ExecutionMode, singleton, JobDefinition}

-- RunStatus
pub data RunStatus : Type 0 where
  running success failed skipped timeout canceled : RunStatus

-- An error of a handler or a context: it wraps context.DeadlineExceeded, context.Canceled, or neither.
pub data Fault : Type 0 where
  deadline_exceeded context_canceled : Fault
  other : ℕ → Fault

-- The parts of the error that `execute` joins.
pub data RunError : Type 0 where
  run_id_failed start_failed finish_failed unlock_failed lock_failed panicked : ℕ → RunError
  locker_required no_lock : RunError
  handler_failed : Fault → RunError

-- How a call of the recorder or of a lock ends.
pub data Response : Type 0 where
  done : Response
  error panics : ℕ → Response

-- How a call of TryLock ends: with a lock, with none, with `true` but a nil lock, or with an error.
pub data LockAnswer : Type 0 where
  acquired busy nil_lock : LockAnswer
  lock_error lock_panics : ℕ → LockAnswer

pub data HandlerAnswer : Type 0 where
  returns : Option Fault → HandlerAnswer
  panics : ℕ → HandlerAnswer

-- What the environment answers; `run_id` is what `newRunID` gives, `ctx_err` the error of the context
-- after the handler.
pub record Environment : Type 0 where
  pub run_id : Option ℕ
  pub start : Response
  pub locker : Option LockAnswer
  pub handler : HandlerAnswer
  pub ctx_err : Option Fault
  pub unlock : Response
  pub finish : Response

pub data Event : Type 0 where
  records_start runs unlocks : Event
  locks : String → ℕ → Event
  records_finish : RunStatus → Event

pub data Ended : Type 0 where
  returned : List RunError → Ended
  repanics : ℕ → Ended

-- callRecorderStart, callRecorderFinish and callUnlock: a panic becomes an error.
unfoldable pub recovered : Response → Option ℕ
recovered done = none
recovered (error e) = some e
recovered (Response.panics e) = some e

-- persistentLockTTL, in nanoseconds.
unfoldable pub persistent_lock_ttl : ℤ → ℕ
persistent_lock_ttl (negsuc n) = 0
persistent_lock_ttl (pos n) =
    let grace = n / 10 in
    if ltb 0 n then n + (if ltb grace 5000000000 then 5000000000 else grace) else 0

abbrev pub is_deadline : Option Fault → Bool
is_deadline (some deadline_exceeded) = true
is_deadline _ = false

abbrev pub is_canceled : Option Fault → Bool
is_canceled (some context_canceled) = true
is_canceled _ = false

abbrev pub is_singleton : ExecutionMode → Bool
is_singleton singleton = true
is_singleton _ = false

abbrev pub errors_of {ℓ} : {A : Type ℓ} → (A → RunError) → Option A → List RunError
errors_of f none = []
errors_of f (some e) = f e ∷ []

abbrev pub or_fault : Option Fault → Fault → Option Fault
or_fault none f = some f
or_fault (some e) f = some e

-- The end of `execute`: the status and the error of a handler that has returned.
unfoldable pub classify : Option Fault → Option Fault → RunStatus × Option Fault
classify ctx_err err =
    if is_deadline ctx_err || is_deadline err
    then (timeout, or_fault err deadline_exceeded)
    else if is_canceled ctx_err || is_canceled err
    then (canceled, or_fault err context_canceled)
    else if is_some err
    then (failed, err)
    else (success, none)

abbrev pub when {ℓ} : {A : Type ℓ} → Bool → A → List A
when true x = x ∷ []
when false x = []

abbrev pub demote : RunStatus → RunStatus
demote success = failed
demote s = s

module _ (env : Environment) (has_recorder : Bool) where
  -- `finish`, with the events and the errors of the recorder so far. It is called once on each path, so
  -- that its guard `finalized` is not seen.
  unfoldable pub finish :
      Bool → RunStatus → List RunError → List RunError → List Event → List Event × List RunError
  unfolding recovered
  finish locked status run_err observed events =
      let unlock_err = if locked then recovered env.unlock else none in
      let status' = if is_some unlock_err then demote status else status in
      let finish_err = if has_recorder then recovered env.finish else none in
      (
        (events ++ when locked unlocks) ++ when has_recorder (records_finish status'),
        (run_err ++ errors_of unlock_failed unlock_err)
            ++ (observed ++ errors_of finish_failed finish_err),
      )

  abbrev pub finished :
      Bool → RunStatus → List RunError → List RunError → List Event → List Event × Ended
  finished locked status run_err observed events =
      let (es, errors) = finish locked status run_err observed events in (es, returned errors)

  -- From the call of the handler on; a panic passes on after the end.
  unfoldable pub run_handler : Bool → List RunError → List Event → List Event × Ended
  unfolding finish classify
  run_handler locked observed events = elim env.handler [
    | panics p ↦
        let (es, errors) = finish locked failed (panicked p ∷ []) observed (events ++ runs ∷ []) in
        (es, repanics p)
    | returns err ↦
        let (status, fault) = classify env.ctx_err err in
        finished locked status (errors_of handler_failed fault) observed (events ++ runs ∷ [])
  ]

  -- The lock of a Singleton job, and what follows.
  unfoldable pub run_locked : List Event → List RunError → List Event → List Event × Ended
  unfolding run_handler
  run_locked attempt observed events = elim env.locker [
    | none ↦ finished false failed (locker_required ∷ []) observed events
    | some answer ↦ elim answer [
      | lock_error e ↦ finished false failed (lock_failed e ∷ []) observed (events ++ attempt)
      | lock_panics e ↦ finished false failed (lock_failed e ∷ []) observed (events ++ attempt)
      | busy ↦ finished false skipped [] observed (events ++ attempt)
      | nil_lock ↦ finished false failed (no_lock ∷ []) observed (events ++ attempt)
      | acquired ↦ run_handler true observed (events ++ attempt)
    ]
  ]

  -- execute
  unfoldable pub execute : JobDefinition → List Event × Ended
  unfolding run_locked recovered persistent_lock_ttl
  execute d =
      let observed =
        if has_recorder
        then errors_of run_id_failed env.run_id ++ errors_of start_failed (recovered env.start)
        else [] in
      let events = when has_recorder records_start in
      if is_singleton d.execution_mode
      then run_locked (locks d.id (persistent_lock_ttl d.timeout) ∷ []) observed events
      else run_handler false observed events
