-- ===== src/Fs/Outputs.antt =====
-- StageOutputs of gx/internal/gen/shared/write.go, and the stage, commit and deferred Rollback of the
-- pipelines in gx/internal/gen/service/pipeline.go and controller/pipeline.go.
pub mod Staging
pub mod Loop
pub mod Published
pub mod Runs
use gonex.Common.{
  ℕ, String, List, [], ◌∷◌, Bool, true, false, Option, none, some, ◌||◌, is_empty, if◌then◌else◌,
}
use gonex.Fs.Root.{Root, Failure}
use gonex.Fs.Transaction.{Transaction, new_transaction, write, delete, rollback}
use gonex.Fs.Commit.{Committed, commit}

pub record PreparedOutput : Type 0 where
  pub path : String
  pub content : String
  pub is_delete : Bool

-- What a pipeline makes of its outputs: the error of staging them, nothing to do, or what Commit returns.
pub data Pipeline : Type 0 where
  stage_failed : Failure → Pipeline
  nothing_staged : Pipeline
  committed : Committed → Pipeline

module _ (R : Root) where
  -- The body of the loop of StageOutputs.
  unfoldable pub stage_output :
      PreparedOutput → Transaction → R.State → Option Failure × Transaction × R.State
  unfolding write delete
  stage_output output t s =
      if output.is_delete
      then delete R output.path t s
      else write R output.path output.content 0o644 t s

  -- The loop of StageOutputs.
  unfoldable pub stage_loop :
      List PreparedOutput → Transaction → R.State → Option Failure × Transaction × R.State
  unfolding stage_output
  stage_loop [] t s = (none, t, s)
  stage_loop (output ∷ outputs) t s =
      let (e, t1, s1) = stage_output output t s in
      let rest = stage_loop outputs t1 s1 in elim e [ none ↦ rest | some err ↦ (some err, t1, s1) ]

  -- The end of StageOutputs: an error rolls the transaction back.
  unfoldable pub staged :
      Option Failure × Transaction × R.State → Option Failure × Option Transaction × R.State
  unfolding rollback
  staged (none, t, s) = (none, some t, s)
  staged (some e, t, s) = (some e, none, (rollback R t s).2)

  -- StageOutputs after NewTransaction.
  unfoldable pub stage_into :
      List PreparedOutput
      → Option Failure × Option Transaction × R.State
      → Option Failure × Option Transaction × R.State
  unfolding stage_loop staged
  stage_into outputs (e, none, s) = (e, none, s)
  stage_into outputs (e, some t, s) = staged (stage_loop outputs t s)

  -- StageOutputs; the transaction is nil where there is nothing to do.
  unfoldable pub stage_outputs :
      (ℕ → Option String)
      → List PreparedOutput
      → Bool
      → R.State
      → Option Failure × Option Transaction × R.State
  unfolding stage_into new_transaction
  stage_outputs entropy outputs dry_run s =
      if dry_run || is_empty outputs
      then (none, none, s)
      else stage_into outputs (new_transaction R entropy s)

  -- `commit` of a pipeline and the Rollback that it defers.
  unfoldable pub commit_staged :
      (ℕ → Option String) → Option Failure × Option Transaction × R.State → Pipeline × R.State
  unfolding commit rollback
  commit_staged entropy (some e, t, s) = (stage_failed e, s)
  commit_staged entropy (none, none, s) = (nothing_staged, s)
  commit_staged entropy (none, some t, s) =
      let (result, t1, s1) = commit R entropy t s in (committed result, (rollback R t1 s1).2)

  -- The end of a pipeline, for the random names of both directories.
  unfoldable pub run_pipeline :
      (ℕ → Option String)
      → (ℕ → Option String)
      → List PreparedOutput
      → Bool
      → R.State
      → Pipeline × R.State
  unfolding stage_outputs commit_staged
  run_pipeline stage_entropy backup_entropy outputs dry_run s =
      commit_staged backup_entropy (stage_outputs stage_entropy outputs dry_run s)
