-- ===== src/Fs/Commit.antt =====
-- gx/internal/gen/fs/transaction.go: Commit publishes the staged files and carries out the removals, and
-- takes back what it did when a call fails.
pub mod Turns
pub mod Backups
pub mod Installs
pub mod Undo
pub mod Loops
pub mod Restore
pub mod Published
pub mod Sorting
pub mod Whole
pub mod Atomic
use Prim.Native.String
use text.Mathlib.Text.{is_lt}
use gonex.Common.{
  ℕ, String, List, [], ◌∷◌, ◌++◌, Bool, true, false, Option, none, some, not, if◌then◌else◌,
}
use gonex.Fs.Paths.{CleanPath, joined}
use gonex.Fs.Root.{
  Info, symlink, other, missing, inspect_failed, symlink, directory, other, removed, Removed,
  absent, remove_failed, Root, Failure, transaction_closed, inspect, existing_directory,
  backup_failed, install_failed, restore_failed, join, dir, validate_root_path,
  create_root_temp_dir,
}
use gonex.Fs.Transaction.{Transaction, Result, ◌>>◌, checked, close}

pub record BackupEntry : Type 0 where
  pub backup : CleanPath
  pub destination : CleanPath

-- sort.Strings
insert : CleanPath → List CleanPath → List CleanPath
insert path [] = path ∷ []
insert path (first ∷ paths) =
    if is_lt (String.compare (joined first) (joined path))
    then first ∷ insert path paths
    else path ∷ first ∷ paths

unfoldable pub sort : List CleanPath → List CleanPath
unfolding insert
sort [] = []
sort (path ∷ paths) = insert path (sort paths)

-- What a call of Commit returns: an error before its work, the error of its work joined with those
-- of taking it back, or the errors of closing the transaction.
pub data Committed : Type 0 where
  refused : Failure → Committed
  rolled_back : Failure → List Failure → Committed
  published : List Failure → Committed

-- What Commit has done so far: `installed` and `backedUp`, the last one first.
pub record Progress (State : Type 0) : Type 0 where
  pub state : State
  pub installed : List CleanPath
  pub backed_up : List BackupEntry

module _ (R : Root) where
  -- A piece of code that looks at the root or changes it, within Commit.
  abbrev pub on_state : (R.State → Result R.State) → Progress R.State → Result (Progress R.State)
  on_state body p = let (e, s) = body p.state in (e, record p { state = s })

  unfoldable pub revalidate : CleanPath → Progress R.State → Result (Progress R.State)
  revalidate path = on_state (λ s. validate_root_path R s path)

  unfoldable pub make_parents : Failure → CleanPath → Progress R.State → Result (Progress R.State)
  make_parents e path = on_state (λ s. checked e (R.mkdir_all s (dir path)))

  -- The Rename of a file to its backup.
  unfoldable pub store_backup : String → CleanPath → Progress R.State → Result (Progress R.State)
  store_backup backup relative p =
      let (ok, s) = R.rename p.state relative (join backup relative) in
      if ok
      then (
        none,
        record p {
          state = s;
          backed_up =
              record { backup = join backup relative; destination = relative } ∷ p.backed_up;
        },
      )
      else (some backup_failed, record p { state = s })

  -- The end of a turn that backs a file up, from the MkdirAll on.
  unfoldable pub move_to_backup : String → CleanPath → Progress R.State → Result (Progress R.State)
  unfolding make_parents revalidate store_backup ◌>>◌
  move_to_backup backup relative p =
      make_parents backup_failed (join backup relative) p
      >> revalidate relative
      >> store_backup backup relative

  -- What a turn does about what Lstat found.
  unfoldable pub backup_found :
      String → CleanPath → Info → Progress R.State → Result (Progress R.State)
  unfolding move_to_backup
  backup_found backup relative missing p = (none, p)
  backup_found backup relative inspect_failed p = (some inspect, p)
  backup_found backup relative directory p = (some existing_directory, p)
  backup_found backup relative symlink p = move_to_backup backup relative p
  backup_found backup relative other p = move_to_backup backup relative p

  -- The Lstat of a turn, and the backup of what it finds.
  unfoldable pub backup_existing : String → CleanPath → Progress R.State → Result (Progress R.State)
  unfolding backup_found
  backup_existing backup relative p =
      let (info, s) = R.lstat p.state relative in
      backup_found backup relative info (record p { state = s })

  -- The Rename of the staged file.
  unfoldable pub publish : String → CleanPath → Progress R.State → Result (Progress R.State)
  publish stage relative p =
      let (ok, s) = R.rename p.state (join stage relative) relative in
      if ok
      then (none, record p { state = s; installed = relative ∷ p.installed })
      else (some install_failed, record p { state = s })

  -- A turn of the loop over `files`.
  unfoldable pub install :
      String → String → CleanPath → Progress R.State → Result (Progress R.State)
  unfolding backup_existing publish revalidate make_parents ◌>>◌
  install stage backup relative p =
      revalidate relative p
      >> backup_existing backup relative
      >> make_parents install_failed relative
      >> revalidate relative
      >> revalidate (join stage relative)
      >> publish stage relative

  -- A turn of the loop over `transaction.deletes`.
  unfoldable pub take_away : String → CleanPath → Progress R.State → Result (Progress R.State)
  unfolding backup_existing revalidate ◌>>◌
  take_away backup relative p = revalidate relative p >> backup_existing backup relative

  -- A `for` loop that returns at the first error.
  unfoldable pub for_each :
      (CleanPath → Progress R.State → Result (Progress R.State))
      → List CleanPath
      → Progress R.State
      → Result (Progress R.State)
  unfolding ◌>>◌
  for_each body [] p = (none, p)
  for_each body (path ∷ paths) p = body path p >> for_each body paths

  -- `err != nil && !os.IsNotExist(err)`
  unfoldable pub after_remove : Removed → R.State → Result R.State
  after_remove removed s = (none, s)
  after_remove absent s = (none, s)
  after_remove remove_failed s = (some restore_failed, s)

  -- A turn of the first loop of `rollback`.
  unfoldable pub remove_installed : CleanPath → R.State → Result R.State
  unfolding after_remove ◌>>◌
  remove_installed relative s =
      validate_root_path R s relative
      >> (λ s. let (answer, s1) = R.remove s relative in after_remove answer s1)

  -- A turn of the second loop of `rollback`, up to the Rename.
  unfoldable pub restore_parents : BackupEntry → R.State → Result R.State
  unfolding ◌>>◌
  restore_parents entry s =
      validate_root_path R s entry.destination
      >> (λ s. checked restore_failed (R.mkdir_all s (dir entry.destination)))

  -- A turn of the second loop of `rollback`.
  unfoldable pub restore_entry : BackupEntry → R.State → Result R.State
  unfolding restore_parents ◌>>◌
  restore_entry entry s =
      restore_parents entry s
      >> (λ s. checked restore_failed (R.rename s entry.backup entry.destination))

  -- A loop that collects the errors of its turns and goes on.
  unfoldable pub collect_errors {ℓ} :
      {A : Type ℓ} → (A → R.State → Result R.State) → List A → R.State → List Failure × R.State
  collect_errors body [] s = ([], s)
  collect_errors body (x ∷ xs) s =
      let (e, s1) = body x s in
      let (errors, s2) = collect_errors body xs s1 in
      (elim e [ none ↦ errors | some err ↦ err ∷ errors ], s2)

  -- The function `rollback` of Commit, whose loops run from the last element to the first.
  unfoldable pub take_back : Progress R.State → List Failure × R.State
  unfolding remove_installed restore_entry collect_errors
  take_back p =
      let (removing, s1) = collect_errors remove_installed p.installed p.state in
      let (restoring, s2) = collect_errors restore_entry p.backed_up s1 in
      (removing ++ restoring, s2)

  -- The two loops of Commit.
  unfoldable pub publish_all : Transaction → String → R.State → Result (Progress R.State)
  unfolding install take_away for_each sort ◌>>◌
  publish_all t backup s =
      for_each (install t.stage backup) (sort t.writes)
        (record { state = s; installed = []; backed_up = [] })
      >> for_each (take_away backup) t.deletes

  -- The end of Commit, after its loops.
  unfoldable pub settle :
      Transaction → Result (Progress R.State) → Committed × Transaction × R.State
  unfolding take_back close
  settle t (some cause, p) = let (errors, s) = take_back p in (rolled_back cause errors, t, s)
  settle t (none, p) = let (cleanup, t1, s) = close R t p.state in (published cleanup, t1, s)

  -- Commit after createRootTempDir.
  unfoldable pub commit_below :
      Transaction → Option Failure × String × R.State → Committed × Transaction × R.State
  unfolding publish_all settle
  commit_below t (some err, backup, s) = (refused err, t, s)
  commit_below t (none, backup, s) =
      settle (record t { backup = some backup }) (publish_all t backup s)

  -- Commit
  unfoldable pub commit :
      (ℕ → Option String) → Transaction → R.State → Committed × Transaction × R.State
  unfolding commit_below
  commit entropy t s =
      if not t.is_open
      then (refused transaction_closed, t, s)
      else commit_below t (create_root_temp_dir R entropy ".gx-backup-" s)
