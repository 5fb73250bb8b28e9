-- ===== src/Fs/Outputs/Runs.antt =====
-- A pipeline as a whole: without an error all of its outputs are in the project, and where it fails
-- before they are published no file of the project is changed.
use gonex.Common.{
  ℕ, String, List, [], ◌∷◌, Bool, true, Option, none, some, ◌≡◌, ◌≢◌, refl, ◌∙◌, ap, All, not,
  if_cases, subst, arith,
}
use gonex.Fs.Paths.{CleanPath}
use gonex.Fs.Paths.Members.{IsOutside}
use gonex.Fs.Transaction.Views.{close-backup}
use gonex.Fs.Root.{Root, IsLawful, Failure, join, create_root_temp_dir, create_root_temp_dir-view}
use gonex.Fs.Transaction.{Transaction, Result, rollback}
use gonex.Fs.Commit.{
  Progress, Committed, refused, rolled_back, published, publish_all, settle, commit_below, commit,
}
use gonex.Fs.Commit.Atomic.{commit_publishes, commit_rolls_back}
use gonex.Fs.Outputs.{
  PreparedOutput, Pipeline, stage_failed, nothing_staged, committed, commit_staged, run_pipeline,
}
use gonex.Fs.Outputs.Staging.{IsClear, IsStaging, Has}
use gonex.Fs.Outputs.Published.{
  IsDone, IsWell, rollback-view, no_name, stage_name, backup_name, AreFresh, stage_outputs-IsWell,
  stage_outputs-view, IsApart-of_IsStaging, rollback_closed, IsDone-of_Has,
}

-- The pipeline has not published its work and has nothing left to take back: staging failed or was not
-- called for, Commit did not begin, or its rollback reports no error.
abbrev pub HasFailed : Pipeline → Type 0
HasFailed (stage_failed e) = Unit
HasFailed nothing_staged = Unit
HasFailed (committed (refused e)) = Unit
HasFailed (committed (rolled_back cause errors)) = errors ≡ []
HasFailed (committed (published cleanup)) = ⊥

module _ (R : Root) (L : IsLawful R) (stage : String) (entropy : ℕ → Option String) where
  all-IsDone :
      (t : Transaction) (s s1 : R.State) (backup : String) (todo : List PreparedOutput)
      → IsStaging R L stage backup t s
      → All (IsClear stage backup) todo
      → ((output : PreparedOutput)
          → IsClear stage backup output
          → Has R L stage backup t s output
          → IsDone R s1 output)
      → All (Has R L stage backup t s) todo
      → All (IsDone R s1) todo
  all-IsDone t s s1 backup [] h _ each _ = tt
  all-IsDone t s s1 backup (output ∷ todo) h (clear, cs) each (has, hs) =
      (each output clear has, all-IsDone t s s1 backup todo h cs each hs)

  commit_staged_publishes :
      (outputs : List PreparedOutput) (r : Option Failure × Option Transaction × R.State)
      (cleanup : List Failure)
      → stage ≢ (create_root_temp_dir R entropy ".gx-backup-" r.2).1
      → All (IsClear stage (create_root_temp_dir R entropy ".gx-backup-" r.2).1) outputs
      → IsWell R L stage (create_root_temp_dir R entropy ".gx-backup-" r.2).1 outputs r
      → (commit_staged R entropy r).0 ≡ committed (published cleanup)
      → All (IsDone R (commit_staged R entropy r).1) outputs
  unfolding commit_staged IsWell
  commit_staged_publishes outputs (some e, t, s) cleanup apart clear well ok = cc
  commit_staged_publishes outputs (none, none, s) cleanup apart clear well ok = cc
  commit_staged_publishes outputs (none, some t, s) cleanup apart clear (h, has) ok =
      let backup = (create_root_temp_dir R entropy ".gx-backup-" s).1 in
      let result = commit R entropy t s in
      let done : result.0 ≡ published cleanup = cc in
      let s1 = (rollback R result.1 result.2).2 in
      all-IsDone t s s1 backup outputs h clear
        (λ output clear has.
          IsDone-of_Has R L stage backup apart t s s1 output h
            (λ q in_project out.
              let (view, closed) =
                commit_publishes R L entropy t s cleanup q h.prepared
                  (IsApart-of_IsStaging R L stage backup apart t s h) (rw h.same_stage in_project)
                  out done in
              ap (λ s. R.view s q) (rollback_closed R L stage backup apart result.1 result.2 closed)
              ∙ view)
            clear has)
        has

  settle_not_refused :
      (t : Transaction) (r : Result (Progress R.State)) (e : Failure) → (settle R t r).0 ≢ refused e
  unfolding settle
  settle_not_refused t (some err, p) e is = cc
  settle_not_refused t (none, p) e is = cc

  commit_below-refused :
      (t : Transaction) (found : Option Failure × String × R.State) (e : Failure)
      → (commit_below R t found).0 ≡ refused e
      → ((commit_below R t found).1 ≡ t) × ((commit_below R t found).2 ≡ found.2)
  unfolding commit_below
  commit_below-refused t (some err, backup, s) e is = (refl, refl)
  commit_below-refused t (none, backup, s) e is =
      absurd
        (settle_not_refused (record t { backup = some backup }) (publish_all R t backup s) e is)

  commit-refused :
      (t : Transaction) (s : R.State) (e : Failure) (q : CleanPath)
      → (commit R entropy t s).0 ≡ refused e
      → ((commit R entropy t s).1 ≡ t) × (R.view (commit R entropy t s).2 q ≡ R.view s q)
  unfolding commit
  commit-refused t s e q =
      if_cases
        (λ (r : Committed × Transaction × R.State).
          r.0 ≡ refused e → (r.1 ≡ t) × (R.view r.2 q ≡ R.view s q))
        (not t.is_open) _ _ (λ closed is. (refl, refl))
        (λ opened is.
          let (same, state) =
            commit_below-refused t (create_root_temp_dir R entropy ".gx-backup-" s) e is in
          (
            same,
            ap (λ s. R.view s q) state ∙ create_root_temp_dir-view R L entropy ".gx-backup-" s q,
          ))

  settle_transaction :
      (t : Transaction) (r : Result (Progress R.State)) (cause : Failure) (errors : List Failure)
      → (settle R t r).0 ≡ rolled_back cause errors
      → (settle R t r).1 ≡ t
  unfolding settle
  settle_transaction t (some e, p) cause errors is = refl
  settle_transaction t (none, p) cause errors is = cc

  below_rolled_back :
      (t : Transaction) (found : Option Failure × String × R.State) (cause : Failure)
      (errors : List Failure)
      → (commit_below R t found).0 ≡ rolled_back cause errors
      → (commit_below R t found).1 ≡ record t { backup = some found.1 }
  unfolding commit_below
  below_rolled_back t (some err, backup, s) cause errors is = cc
  below_rolled_back t (none, backup, s) cause errors is =
      settle_transaction (record t { backup = some backup }) (publish_all R t backup s) cause errors
        is

  commit_rolled_back_transaction :
      (t : Transaction) (s : R.State) (cause : Failure) (errors : List Failure)
      → (commit R entropy t s).0 ≡ rolled_back cause errors
      → (commit R entropy t s).1
        ≡ record t { backup = some (create_root_temp_dir R entropy ".gx-backup-" s).1 }
  unfolding commit
  commit_rolled_back_transaction t s cause errors =
      if_cases
        (λ (r : Committed × Transaction × R.State).
          r.0 ≡ rolled_back cause errors
          → r.1 ≡ record t { backup = some (create_root_temp_dir R entropy ".gx-backup-" s).1 })
        (not t.is_open) _ _ (λ closed is. cc)
        (λ opened is.
          below_rolled_back t (create_root_temp_dir R entropy ".gx-backup-" s) cause errors is)

  ended :
      (t : Transaction) (s : R.State) (q : CleanPath)
      → stage ≢ (create_root_temp_dir R entropy ".gx-backup-" s).1
      → IsStaging R L stage (create_root_temp_dir R entropy ".gx-backup-" s).1 t s
      → IsOutside stage q
      → IsOutside (create_root_temp_dir R entropy ".gx-backup-" s).1 q
      → (result : Committed) → (commit R entropy t s).0 ≡ result
      → HasFailed (committed result)
      → R.view (rollback R (commit R entropy t s).1 (commit R entropy t s).2).2 q ≡ R.view s q
  ended t s q apart h in_project out (refused e) is failed =
      let (same, view) = commit-refused t s e q is in
      rollback-view R L stage "" _ _ q (rw (same, h.same_stage) in_project)
        (rw same (no_name R L stage "" t.backup q h.no_backup))
      ∙ view
  ended t s q apart h in_project out (rolled_back cause errors) is failed =
      let same = commit_rolled_back_transaction t s cause errors is in
      rollback-view R L stage "" _ _ q (rw (same, h.same_stage) in_project) (
        rw same (λ name e.
          subst (λ (o : Option String). elim o [ none ↦ Unit | some n ↦ IsOutside n q ]) e out))
      ∙ commit_rolls_back R L entropy t s cause q h.prepared
          (IsApart-of_IsStaging R L stage _ apart t s h) (rw h.same_stage in_project) out
          (is ∙ ap (rolled_back cause) failed)
  ended t s q apart h in_project out (published cleanup) is failed = absurd failed

  commit_staged_fails :
      (outputs : List PreparedOutput) (r : Option Failure × Option Transaction × R.State)
      (q : CleanPath)
      → stage ≢ (create_root_temp_dir R entropy ".gx-backup-" r.2).1
      → IsWell R L stage (create_root_temp_dir R entropy ".gx-backup-" r.2).1 outputs r
      → IsOutside stage q
      → IsOutside (create_root_temp_dir R entropy ".gx-backup-" r.2).1 q
      → HasFailed (commit_staged R entropy r).0
      → R.view (commit_staged R entropy r).1 q ≡ R.view r.2 q
  unfolding commit_staged IsWell
  commit_staged_fails outputs (some e, t, s) q apart well in_project out failed = refl
  commit_staged_fails outputs (none, none, s) q apart well in_project out failed = refl
  commit_staged_fails outputs (none, some t, s) q apart (h, has) in_project out failed =
      ended t s q apart h in_project out (commit R entropy t s).0 refl failed

module _ (R : Root) (L : IsLawful R) (entropy : ℕ → Option String) where
  commit_rolled_back_is_open :
      (t : Transaction) (s : R.State) (cause : Failure) (errors : List Failure)
      → (commit R entropy t s).0 ≡ rolled_back cause errors
      → t.is_open ≡ true
  unfolding commit
  commit_rolled_back_is_open t s cause errors =
      if_cases
        (λ (r : Committed × Transaction × R.State).
          r.0 ≡ rolled_back cause errors → t.is_open ≡ true)
        (not t.is_open) _ _ (λ closed is. cc) (λ opened is. ground (arith, opened))

  dropped :
      (t : Transaction) (backup : String) (s : R.State) (x : CleanPath)
      → t.is_open ≡ true
      → (rollback R (record t { backup = some backup }) s).0 ≡ []
      → R.view (rollback R (record t { backup = some backup }) s).2 (backup ∷ x) ≡ none
  unfolding rollback
  dropped t backup s x is_open =
      if_cases
        (λ (r : List Failure × Transaction × R.State). r.0 ≡ [] → R.view r.2 (backup ∷ x) ≡ none)
        (not t.is_open) _ _ (λ closed ok. absurd (ground (arith, closed)))
        (λ opened ok. close-backup R L t backup s x is_open ok)

  -- After a Commit that failed, also where restoring a file failed, the Rollback that a pipeline defers
  -- leaves nothing below the directory of the backups that Commit made, if it returns no error.
  pub deferred_rollback_drops_backups :
      (t : Transaction) (s : R.State) (cause : Failure) (errors : List Failure) (x : CleanPath)
      → (commit R entropy t s).0 ≡ rolled_back cause errors
      → (rollback R (commit R entropy t s).1 (commit R entropy t s).2).0 ≡ []
      → R.view
          (rollback R (commit R entropy t s).1 (commit R entropy t s).2).2
          (join (create_root_temp_dir R entropy ".gx-backup-" s).1 x)
        ≡ none
  unfolding rollback
  deferred_rollback_drops_backups t s cause errors x is =
      let same = commit_rolled_back_transaction R L "" entropy t s cause errors is in
      rw same (
        dropped t (create_root_temp_dir R entropy ".gx-backup-" s).1 (commit R entropy t s).2 x
          (commit_rolled_back_is_open t s cause errors is))

module _ (R : Root) (L : IsLawful R) (stage_entropy backup_entropy : ℕ → Option String)
    (outputs : List PreparedOutput) (dry_run : Bool) (s : R.State)
    (fresh : AreFresh R stage_entropy backup_entropy outputs dry_run s) where
  -- A pipeline whose Commit returns without an error of its work has done all of its outputs: the file
  -- at the clean path of each holds its content, or is gone where the output is a deletion. The random
  -- names of the two directories must differ, and no output may lie in one of them.
  pub pipeline_publishes :
      (cleanup : List Failure)
      → (run_pipeline R stage_entropy backup_entropy outputs dry_run s).0
        ≡ committed (published cleanup)
      → All (IsDone R (run_pipeline R stage_entropy backup_entropy outputs dry_run s).1) outputs
  unfolding run_pipeline
  pipeline_publishes cleanup =
      commit_staged_publishes R L _ backup_entropy outputs _ cleanup fresh.apart fresh.clear
        (stage_outputs-IsWell R L stage_entropy backup_entropy outputs dry_run s _ fresh.clear)

  -- A pipeline that fails before its work is published (while it stages, at the start of Commit, or in the
  -- work of Commit, whose rollback then reports no error) leaves every file of the project as it was,
  -- whichever calls of the operating system failed.
  pub pipeline_fails :
      (q : CleanPath)
      → IsOutside (stage_name R stage_entropy backup_entropy outputs dry_run s) q
      → IsOutside (backup_name R stage_entropy backup_entropy outputs dry_run s) q
      → HasFailed (run_pipeline R stage_entropy backup_entropy outputs dry_run s).0
      → R.view (run_pipeline R stage_entropy backup_entropy outputs dry_run s).1 q ≡ R.view s q
  unfolding run_pipeline
  pipeline_fails q in_project out failed =
      commit_staged_fails R L _ backup_entropy outputs _ q fresh.apart
        (stage_outputs-IsWell R L stage_entropy backup_entropy outputs dry_run s _ fresh.clear)
        in_project out failed
      ∙ stage_outputs-view R L stage_entropy backup_entropy outputs dry_run s _ q fresh.clear
          in_project
