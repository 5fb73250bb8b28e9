-- ===== src/Fs/Outputs/Published.antt =====
-- StageOutputs as a whole, and what a published transaction leaves of its outputs.
use gonex.Common.{
  ℕ, String, List, [], ◌∷◌, Bool, true, false, Option, none, some, ◌≡◌, ◌≢◌, inl, inr, refl, ◌∙◌,
  sym, arith, All, if_cases, if◌then◌else◌, subst, ◌||◌, is_empty, Bool-cases,
}
use gonex.Fs.Paths.{CleanPath, path_eq, clean_project_relative}
use gonex.Fs.Paths.Overlap.{path_eq_iff}
use gonex.Fs.Paths.Members.{mem, IsOutside}
use gonex.Fs.Root.{
  Root, IsLawful, Failure, file, join, create_root_temp_dir, create_root_temp_dir-view,
}
use gonex.Fs.Transaction.{Transaction, opened, new_transaction, rollback}
use gonex.Fs.Transaction.Views.{close-view}
use gonex.Fs.Commit.Whole.{IsApart}
use gonex.Fs.Outputs.{PreparedOutput, stage_loop, staged, stage_into, stage_outputs}
use gonex.Fs.Outputs.Staging.{IsClear, IsStaging, Has, Listed}
use gonex.Fs.Outputs.Loop.{stage_loop-IsStaging, stage_loop-view, stage_loop-Has}

-- The state has what the output says at its path.
abbrev pub IsDone : (R : Root) → R.State → PreparedOutput → Type 0
IsDone R s output =
    (clean : CleanPath) × (clean_project_relative output.path ≡ some clean)
    × (R.view s clean ≡ (if output.is_delete then none else some (file output.content)))

module _ (R : Root) (L : IsLawful R) (stage backup : String) where
  -- A result of StageOutputs.
  unfoldable pub IsWell :
      List PreparedOutput → Option Failure × Option Transaction × R.State → Type 0
  IsWell outputs (none, some t, s) =
      IsStaging R L stage backup t s × All (Has R L stage backup t s) outputs
  IsWell outputs (none, none, s) = Unit
  IsWell outputs (some e, t, s) = Unit

  idle-IsWell : (outputs : List PreparedOutput) (s : R.State) → IsWell outputs (none, none, s)
  unfolding IsWell
  idle-IsWell outputs s = tt

  staged-IsWell :
      (outputs : List PreparedOutput) (r : Option Failure × Transaction × R.State)
      → IsStaging R L stage backup r.1 r.2
      → (r.0 ≡ none → All (Has R L stage backup r.1 r.2) outputs)
      → IsWell outputs (staged R r)
  unfolding staged IsWell
  staged-IsWell outputs (none, t, s) h has = (h, has refl)
  staged-IsWell outputs (some e, t, s) h has = tt

  opened-IsStaging :
      (s : R.State)
      → IsStaging R L stage backup
          (record { stage = stage; backup = none; deletes = []; writes = []; is_open = true })
          s
  opened-IsStaging s = record {
    prepared = record {
      writes = tt;
      deletes = tt;
      disjoint = tt;
      written_outside = tt;
      deleted_outside = tt;
      staged = tt;
    };
    same_stage = refl;
    no_backup = refl;
    written = tt;
    deleted = tt;
  }

  stage_into-IsWell :
      (outputs : List PreparedOutput) (made : Option Failure × String × R.State)
      → made.1 ≡ stage
      → All (IsClear stage backup) outputs
      → IsWell outputs (stage_into R outputs (opened R made))
  unfolding stage_into opened IsWell
  stage_into-IsWell outputs (some e, name, s) same clear = tt
  stage_into-IsWell outputs (none, name, s) same clear =
      let t : Transaction = record {
        stage = name;
        backup = none;
        deletes = [];
        writes = [];
        is_open = true;
      } in
      let h : IsStaging R L stage backup t s = rw same (opened-IsStaging s) in
      staged-IsWell outputs (stage_loop R outputs t s)
        (stage_loop-IsStaging R L stage backup outputs t s clear h)
        (stage_loop-Has R L stage backup outputs t s clear h)

  pub rollback-view :
      (t : Transaction) (s : R.State) (q : CleanPath)
      → IsOutside t.stage q
      → ((name : String) → t.backup ≡ some name → IsOutside name q)
      → R.view (rollback R t s).2 q ≡ R.view s q
  unfolding rollback
  rollback-view t s q in_project out =
      if_cases (λ (r : List Failure × Transaction × R.State). R.view r.2 q ≡ R.view s q) _ _ _
        (λ closed. refl) (λ still. close-view R L t s q in_project out)

  pub no_name :
      (o : Option String) (q : CleanPath)
      → o ≡ none
      → (name : String) → o ≡ some name
      → IsOutside name q
  no_name o q e name k = absurd (ground (arith, e, k))

  staged-view :
      (s : R.State) (q : CleanPath) (r : Option Failure × Transaction × R.State)
      → IsStaging R L stage backup r.1 r.2
      → IsOutside stage q
      → R.view r.2 q ≡ R.view s q
      → R.view (staged R r).2 q ≡ R.view s q
  unfolding staged
  staged-view s q (none, t, s1) h in_project same = same
  staged-view s q (some e, t, s1) h in_project same =
      rollback-view t s1 q (rw h.same_stage in_project) (no_name t.backup q h.no_backup) ∙ same

  stage_into-view :
      (outputs : List PreparedOutput) (made : Option Failure × String × R.State) (q : CleanPath)
      → made.1 ≡ stage
      → All (IsClear stage backup) outputs
      → IsOutside stage q
      → R.view (stage_into R outputs (opened R made)).2 q ≡ R.view made.2 q
  unfolding stage_into opened
  stage_into-view outputs (some e, name, s) q same clear in_project = L.close-view s q
  stage_into-view outputs (none, name, s) q same clear in_project =
      let t : Transaction = record {
        stage = name;
        backup = none;
        deletes = [];
        writes = [];
        is_open = true;
      } in
      let h : IsStaging R L stage backup t s = rw same (opened-IsStaging s) in
      staged-view s q (stage_loop R outputs t s)
        (stage_loop-IsStaging R L stage backup outputs t s clear h) in_project
        (stage_loop-view R L stage backup outputs t s q clear h in_project)

module _ (R : Root) (stage_entropy backup_entropy : ℕ → Option String)
    (outputs : List PreparedOutput) (dry_run : Bool) (s : R.State) where
  -- The names of the two directories of the transaction.
  abbrev pub stage_name : String
  stage_name = (create_root_temp_dir R stage_entropy ".gx-stage-" s).1

  abbrev pub after_staging : Option Failure × Option Transaction × R.State
  after_staging = stage_outputs R stage_entropy outputs dry_run s

  abbrev pub backup_name : String
  backup_name = (create_root_temp_dir R backup_entropy ".gx-backup-" after_staging.2).1

  -- What is assumed of the random names: the directories differ, and no output lies in one of them.
  pub record AreFresh : Type 0 where
    pub apart : stage_name ≢ backup_name
    pub clear : All (IsClear stage_name backup_name) outputs

module _ (R : Root) (L : IsLawful R) (stage_entropy backup_entropy : ℕ → Option String)
    (outputs : List PreparedOutput) (dry_run : Bool) (s : R.State) where
  pub stage_outputs-IsWell :
      (backup : String)
      → All (IsClear (stage_name R stage_entropy backup_entropy outputs dry_run s) backup) outputs
      → IsWell R L
          (stage_name R stage_entropy backup_entropy outputs dry_run s)
          backup
          outputs
          (after_staging R stage_entropy backup_entropy outputs dry_run s)
  unfolding stage_outputs new_transaction
  stage_outputs-IsWell backup clear =
      if_cases
        (IsWell R L (stage_name R stage_entropy backup_entropy outputs dry_run s) backup outputs)
        (dry_run || is_empty outputs) (none, none, s)
        (stage_into R outputs (opened R (create_root_temp_dir R stage_entropy ".gx-stage-" s)))
        (λ idle.
          idle-IsWell R L (stage_name R stage_entropy backup_entropy outputs dry_run s) backup
            outputs s)
        (λ busy.
          stage_into-IsWell R L (stage_name R stage_entropy backup_entropy outputs dry_run s) backup
            outputs (create_root_temp_dir R stage_entropy ".gx-stage-" s) refl clear)

  pub stage_outputs-view :
      (backup : String) (q : CleanPath)
      → All (IsClear (stage_name R stage_entropy backup_entropy outputs dry_run s) backup) outputs
      → IsOutside (stage_name R stage_entropy backup_entropy outputs dry_run s) q
      → R.view (after_staging R stage_entropy backup_entropy outputs dry_run s).2 q ≡ R.view s q
  unfolding stage_outputs new_transaction
  stage_outputs-view backup q clear in_project =
      if_cases (λ (r : Option Failure × Option Transaction × R.State). R.view r.2 q ≡ R.view s q)
        (dry_run || is_empty outputs) (none, none, s)
        (stage_into R outputs (opened R (create_root_temp_dir R stage_entropy ".gx-stage-" s)))
        (λ idle. refl)
        (λ busy.
          stage_into-view R L (stage_name R stage_entropy backup_entropy outputs dry_run s) backup
            outputs (create_root_temp_dir R stage_entropy ".gx-stage-" s) q refl clear in_project
          ∙ create_root_temp_dir-view R L stage_entropy ".gx-stage-" s q)

module _ (R : Root) (L : IsLawful R) (stage backup : String) (apart : stage ≢ backup) where
  pub IsApart-of_IsStaging :
      (t : Transaction) (s : R.State) → IsStaging R L stage backup t s → IsApart R t backup
  IsApart-of_IsStaging t s h = record {
    stage = (λ e. apart (sym h.same_stage ∙ e));
    written = h.written;
    deleted = h.deleted;
  }

  listed_not_deleted :
      (x : CleanPath) (writes deletes : List CleanPath)
      → All (λ d. mem d writes ≡ false) deletes
      → mem x writes ≡ true
      → mem x deletes ≡ false
  listed_not_deleted x writes [] h listed = refl
  listed_not_deleted x writes (d ∷ deletes) (k, h) listed = elim (Bool-cases (path_eq x d)) [
    | inl same ↦ absurd (
        ground
          (arith, listed, subst (λ z. mem z writes ≡ false) (sym ((path_eq_iff x d).0 same)) k))
    | inr differ ↦ ground (arith, listed_not_deleted x writes deletes h listed)
  ]

  pub rollback_closed : (t : Transaction) (s : R.State) → t.is_open ≡ false → (rollback R t s).2 ≡ s
  unfolding rollback
  rollback_closed t s closed = ground arith

  published_entry :
      (deletes : Bool) (clean : CleanPath) (content : String) (t : Transaction) (s : R.State)
      → IsStaging R L stage backup t s
      → Listed R L stage backup deletes clean content t s
      → (if mem clean t.deletes
          then none
          else if mem clean t.writes
          then R.view s (join t.stage clean)
          else R.view s clean)
        ≡ (if deletes then none else some (file content))
  published_entry true clean content t s h listed = rw listed refl
  published_entry false clean content t s h (listed, stands) =
      rw (listed_not_deleted clean t.writes t.deletes h.prepared.disjoint listed, listed, stands)
        refl

  pub IsDone-of_Has :
      (t : Transaction) (s s1 : R.State) (output : PreparedOutput)
      → IsStaging R L stage backup t s
      → ((q : CleanPath)
          → IsOutside stage q
          → IsOutside backup q
          → R.view s1 q ≡ (
              if mem q t.deletes
              then none
              else if mem q t.writes
              then R.view s (join t.stage q)
              else R.view s q))
      → IsClear stage backup output
      → Has R L stage backup t s output
      → IsDone R s1 output
  unfolding Has
  IsDone-of_Has t s s1 output h views clear (clean, cleaned, listed) = (
    clean,
    cleaned,
    views clean (clear clean cleaned).0 (clear clean cleaned).1
        ∙ published_entry output.is_delete clean output.content t s h listed,
  )
