-- ===== src/Fs/Commit/Atomic.antt =====
-- Commit as a whole: it publishes all that is staged, or takes back what it has done.
use gonex.Common.{
  ℕ, String, List, [], false, Option, none, some, ◌≡◌, refl, ◌∙◌, ap, not, if_cases, subst,
  if◌then◌else◌,
}
use gonex.Fs.Paths.{CleanPath}
use gonex.Fs.Paths.Members.{mem}
use gonex.Fs.Paths.Members.{IsOutside}
use gonex.Fs.Root.{Root, IsLawful, Failure, join, create_root_temp_dir, create_root_temp_dir-view}
use gonex.Fs.Transaction.{Transaction, Result, close}
use gonex.Fs.Transaction.Views.{close-view, close-is_open}
use gonex.Fs.Transaction.Prepared.{IsPrepared, IsPrepared-view}
use gonex.Fs.Commit.{
  Progress, Committed, rolled_back, published, publish_all, take_back, commit, settle, commit_below,
}
use gonex.Fs.Commit.Restore.{take_back-view}
use gonex.Fs.Commit.Whole.{IsApart, publish_all-CanUndo, publish_all-view}

module _ (R : Root) (L : IsLawful R) where
  settle_rolled_back :
      (t : Transaction) (r : Result (Progress R.State)) (cause : Failure)
      → (settle R t r).0 ≡ rolled_back cause []
      → ((take_back R r.1).0 ≡ []) × ((settle R t r).2 ≡ (take_back R r.1).1)
  unfolding settle
  settle_rolled_back t (some cause1, p) cause e = (cc, refl)
  settle_rolled_back t (none, p) cause e = cc

  commit_below_rolls_back :
      (t : Transaction) (found : Option Failure × String × R.State) (cause : Failure)
      (q : CleanPath)
      → IsPrepared R t found.2
      → IsApart R t found.1
      → IsOutside t.stage q
      → IsOutside found.1 q
      → (commit_below R t found).0 ≡ rolled_back cause []
      → R.view (commit_below R t found).2 q ≡ R.view found.2 q
  unfolding commit_below
  commit_below_rolls_back t (some err, backup, s) cause q prepared fits in_project out e = cc
  commit_below_rolls_back t (none, backup, s) cause q prepared fits in_project out e =
      let (undone, same) =
        settle_rolled_back (record t { backup = some backup }) (publish_all R t backup s) cause e in
      ap (λ s. R.view s q) same
      ∙ take_back-view R L t.stage backup (R.view s) (publish_all R t backup s).1 q
          (publish_all-CanUndo R L t backup s prepared fits) undone in_project out

  -- If the work of Commit fails, so that it is taken back, and taking it back reports no error, then every
  -- file of the project is as it was before the call, whichever calls of the operating system failed.
  pub commit_rolls_back :
      (entropy : ℕ → Option String) (t : Transaction) (s : R.State) (cause : Failure)
      (q : CleanPath)
      → IsPrepared R t s
      → IsApart R t (create_root_temp_dir R entropy ".gx-backup-" s).1
      → IsOutside t.stage q
      → IsOutside (create_root_temp_dir R entropy ".gx-backup-" s).1 q
      → (commit R entropy t s).0 ≡ rolled_back cause []
      → R.view (commit R entropy t s).2 q ≡ R.view s q
  unfolding commit
  commit_rolls_back entropy t s cause q prepared fits in_project out =
      if_cases
        (λ (r : Committed × Transaction × R.State).
          r.0 ≡ rolled_back cause [] → R.view r.2 q ≡ R.view s q)
        (not t.is_open) _ _ (λ closed e. cc)
        (λ opened e.
          let same = create_root_temp_dir-view R L entropy ".gx-backup-" s in
          commit_below_rolls_back t (create_root_temp_dir R entropy ".gx-backup-" s) cause q
            (IsPrepared-view R L t s _ same prepared) fits in_project out e
          ∙ same q)

  settle_published :
      (t : Transaction) (r : Result (Progress R.State)) (cleanup : List Failure)
      → (settle R t r).0 ≡ published cleanup
      → (r.0 ≡ none)
        × ((settle R t r).1.is_open ≡ false)
        × ((settle R t r).2 ≡ (close R t r.1.state).2)
  unfolding settle
  settle_published t (some cause, p) cleanup e = cc
  settle_published t (none, p) cleanup e = (refl, close-is_open R L t p.state, refl)

  commit_below_publishes :
      (t : Transaction) (found : Option Failure × String × R.State) (cleanup : List Failure)
      (q : CleanPath)
      → IsPrepared R t found.2
      → IsApart R t found.1
      → IsOutside t.stage q
      → IsOutside found.1 q
      → (commit_below R t found).0 ≡ published cleanup
      → (R.view (commit_below R t found).2 q ≡ (
          if mem q t.deletes
          then none
          else if mem q t.writes
          then R.view found.2 (join t.stage q)
          else R.view found.2 q))
        × ((commit_below R t found).1.is_open ≡ false)
  unfolding commit_below
  commit_below_publishes t (some err, backup, s) cleanup q prepared fits in_project out e = cc
  commit_below_publishes t (none, backup, s) cleanup q prepared fits in_project out e =
      let t1 = record t { backup = some backup } in
      let (ok, closed, same) = settle_published t1 (publish_all R t backup s) cleanup e in
      (
        ap (λ s. R.view s q) same
            ∙ close-view R L t1 _ q in_project (λ name e.
              subst (λ (o : Option String). elim o [ none ↦ Unit | some n ↦ IsOutside n q ]) e out)
            ∙ publish_all-view R L t backup s prepared fits q in_project out ok,
        closed,
      )

  -- If Commit returns without an error of its work, then the transaction is closed, and a file of the
  -- project holds what was staged for it if it was written, is gone if it was deleted, and is as it
  -- was before the call if it was neither. Errors of cleaning up do not matter.
  pub commit_publishes :
      (entropy : ℕ → Option String) (t : Transaction) (s : R.State) (cleanup : List Failure)
      (q : CleanPath)
      → IsPrepared R t s
      → IsApart R t (create_root_temp_dir R entropy ".gx-backup-" s).1
      → IsOutside t.stage q
      → IsOutside (create_root_temp_dir R entropy ".gx-backup-" s).1 q
      → (commit R entropy t s).0 ≡ published cleanup
      → (R.view (commit R entropy t s).2 q ≡ (
          if mem q t.deletes
          then none
          else if mem q t.writes
          then R.view s (join t.stage q)
          else R.view s q))
        × ((commit R entropy t s).1.is_open ≡ false)
  unfolding commit
  commit_publishes entropy t s cleanup q prepared fits in_project out =
      if_cases
        (λ (r : Committed × Transaction × R.State).
          r.0 ≡ published cleanup
          → (R.view r.2 q ≡ (
              if mem q t.deletes
              then none
              else if mem q t.writes
              then R.view s (join t.stage q)
              else R.view s q))
            × (r.1.is_open ≡ false))
        (not t.is_open) _ _ (λ closed e. cc)
        (λ opened e.
          let same = create_root_temp_dir-view R L entropy ".gx-backup-" s in
          let (view, closed) =
            commit_below_publishes t (create_root_temp_dir R entropy ".gx-backup-" s) cleanup q
              (IsPrepared-view R L t s _ same prepared) fits in_project out e in
          (view ∙ rw (same (join t.stage q), same q) refl, closed))
