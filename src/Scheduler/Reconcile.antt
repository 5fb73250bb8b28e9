-- ===== src/Scheduler/Reconcile.antt =====
-- scheduler/reconcile.go: Sync brings the scheduler to the state that the store describes, or undoes
-- what it did. Sync holds `loader.mu` for all of its work.
pub mod Loaded
pub mod Outcomes
pub mod Examples
use gonex.Common.{
  ℕ, suc, String, Bool, true, false, not, ◌||◌, ◌&&◌, ◌==◌, Option, none, some, List, [], ◌∷◌,
  if◌then◌else◌, map,
}
use gonex.Common.Dict
use gonex.Common.Dict.{Dict}
use gonex.Common.Int.{int_eq}
use gonex.Common.Text.{trim_space, is_blank}
use gonex.Scheduler.Job.{Job}
use gonex.Scheduler.Overlap.{Handler}
use gonex.Scheduler.Engine.{Engine}
use gonex.Scheduler.Manager.{Err, job_not_found, Manager}
use gonex.Scheduler.Manager.Operations.{add, replace, remove, validate}
use gonex.Scheduler.Persistence.{
  ExecutionMode, singleton, every_instance, invalid_mode, JobDefinition, PersistentHandler,
  lookup_handler, LoadedJob, Loader,
}
use gonex.Scheduler.Prepare.{
  MutableScheduler, SyncError, canceled, store_failed, handler_missing, runtime, PreparedDefinition,
  Prepared, Listed, ok, failed, Closure, job_for, prepare_definitions,
}

pub data Undo : Type 0 where
  replaces adds : Job → Undo
  removes : String → Undo

-- `errors.Is(err, ErrJobNotFound)`, and what is left of an error then.
abbrev pub unless_not_found : Option Err → Option Err
unless_not_found (some (job_not_found name)) = none
unless_not_found e = e

-- What the loader keeps of a prepared definition.
abbrev pub load : String × PreparedDefinition → String × LoadedJob
load (id, p) = (
  id,
  record { version = p.definition.version; name = p.definition.name; definition = p.definition },
)

module _ (runtime_scheduler : MutableScheduler) (closure : Closure) (loader : Loader) where
  -- runtimeJob
  unfoldable pub runtime_job : JobDefinition → Option Job
  unfolding job_for
  runtime_job d = elim (lookup_handler loader.registry d.handler) [
    | none ↦ none
    | some h ↦ some (job_for closure d h)
  ]

  -- removePersistentJob
  unfoldable pub remove_persistent_job :
      String → runtime_scheduler.State → Option Err × runtime_scheduler.State
  remove_persistent_job name s =
      let (e, s') = runtime_scheduler.remove name s in (unless_not_found e, s')

  -- The work of Sync in progress: the undo operations, the last one first, the scheduler, and the
  -- number of looks at the context.
  pub record Work : Type 0 where
    pub undos : List Undo
    pub state : runtime_scheduler.State
    pub clock : ℕ

  -- A change of the scheduler with its result and its undo operation.
  unfoldable pub changed :
      Undo → Work → Option Err × runtime_scheduler.State → Option SyncError × Work
  changed undo w (some e, s) = (some (runtime e), record w { state = s })
  changed undo w (none, s) = (none, record w { state = s; undos = undo ∷ w.undos })

  module _ (ctx_err : ℕ → Option ℕ) (prepared : Dict PreparedDefinition) where
    -- `if err := ctx.Err(); err != nil { return rollback(err) }`, and the rest of a loop's body.
    unfoldable pub checked : (Work → Option SyncError × Work) → Work → Option SyncError × Work
    checked body w =
        let next = record w { clock = suc w.clock } in
        elim (ctx_err w.clock) [ some e ↦ (some (canceled e), next) | none ↦ body next ]

    abbrev pub with_old_job :
        JobDefinition → (Job → Option SyncError × Work) → Work → Option SyncError × Work
    with_old_job d change w = elim (runtime_job d) [
      | none ↦ (some (handler_missing d.handler), w)
      | some old_job ↦ change old_job
    ]

    -- The body of the first loop: an update of the same identifier and name.
    unfoldable pub replace_step : String × LoadedJob → Work → Option SyncError × Work
    unfolding runtime_job changed
    replace_step (id, old) w = elim (Dict.get prepared id) [
      | none ↦ (none, w)
      | some current ↦
          if not (old.name == current.definition.name)
            || int_eq old.version current.definition.version
          then (none, w)
          else with_old_job old.definition
              (λ old_job.
                changed (replaces old_job) w (runtime_scheduler.replace current.job w.state))
              w
    ]

    -- `exists && old.Name == current.definition.Name`
    abbrev pub keeps_name : Option PreparedDefinition → LoadedJob → Bool
    keeps_name none old = false
    keeps_name (some current) old = old.name == current.definition.name

    -- The body of the second loop: the removal of a job that is gone or has another name.
    unfoldable pub remove_step : String × LoadedJob → Work → Option SyncError × Work
    unfolding runtime_job changed
    remove_step (id, old) w =
        if keeps_name (Dict.get prepared id) old
        then (none, w)
        else with_old_job old.definition
            (λ old_job. changed (adds old_job) w (remove_persistent_job old.name w.state)) w

    abbrev pub kept : Option LoadedJob → PreparedDefinition → Bool
    kept none current = false
    kept (some old) current = old.name == current.definition.name

    -- The body of the third loop: a new job, or one with a new name.
    unfoldable pub add_step : String × PreparedDefinition → Work → Option SyncError × Work
    unfolding changed
    add_step (id, current) w =
        if kept (Dict.get loader.loaded id) current
        then (none, w)
        else changed (removes current.definition.name) w (runtime_scheduler.add current.job w.state)

    -- A loop that ends with the first error.
    unfoldable pub for_each :
        {A : Type 0}
        → (A → Work → Option SyncError × Work)
        → List A
        → Work
        → Option SyncError × Work
    for_each step [] w = (none, w)
    for_each step (x ∷ xs) w =
        let (e, w1) = step x w in elim e [ some err ↦ (some err, w1) | none ↦ for_each step xs w1 ]

    -- The three loops.
    unfoldable pub reconcile : Work → Option SyncError × Work
    unfolding for_each checked replace_step remove_step add_step
    reconcile w =
        let (e1, w1) = for_each (λ x. checked (replace_step x)) loader.loaded w in
        elim e1 [
          | some err ↦ (some err, w1)
          | none ↦
              let (e2, w2) = for_each (λ x. checked (remove_step x)) loader.loaded w1 in
              elim e2 [
                | some err ↦ (some err, w2)
                | none ↦ for_each (λ x. checked (add_step x)) prepared w2
              ]
        ]

  unfoldable pub undo : Undo → runtime_scheduler.State → Option Err × runtime_scheduler.State
  undo (replaces job) s = runtime_scheduler.replace job s
  undo (adds job) s = runtime_scheduler.add job s
  undo (removes name) s = remove_persistent_job name s

  abbrev pub cons_error : Option Err → List SyncError → List SyncError
  cons_error none es = es
  cons_error (some e) es = runtime e ∷ es

  -- The loop of `rollback`: every undo operation runs, and the errors are kept.
  unfoldable pub undo_all :
      List Undo → runtime_scheduler.State → List SyncError × runtime_scheduler.State
  unfolding undo
  undo_all [] s = ([], s)
  undo_all (u ∷ us) s =
      let (e, s1) = undo u s in let (es, s2) = undo_all us s1 in (cons_error e es, s2)

  -- Sync: the errors that it joins, none if it returns nil.
  unfoldable pub sync :
      (ℕ → Option ℕ)
      → Listed
      → runtime_scheduler.State
      → List SyncError × Loader × runtime_scheduler.State
  unfolding prepare_definitions reconcile undo_all
  sync ctx_err listed s = elim (ctx_err 0) [
    | some e ↦ (canceled e ∷ [], loader, s)
    | none ↦ elim listed [
      | failed e ↦ (store_failed e ∷ [], loader, s)
      | ok definitions ↦ elim (ctx_err 1) [
        | some e ↦ (canceled e ∷ [], loader, s)
        | none ↦
            elim (prepare_definitions runtime_scheduler closure loader definitions [] [] [] s) [
              | failed e ↦ (e ∷ [], loader, s)
              | ok prepared ↦ elim (ctx_err 2) [
                | some e ↦ (canceled e ∷ [], loader, s)
                | none ↦
                    let (cause, w) =
                      reconcile ctx_err prepared (record { undos = []; state = s; clock = 3 }) in
                    elim cause [
                      | none ↦ ([], record loader { loaded = map load prepared }, w.state)
                      | some err ↦
                          let (errors, s') = undo_all w.undos w.state in (err ∷ errors, loader, s')
                    ]
              ]
            ]
      ]
    ]
  ]
