-- ===== src/Fs/Transaction.antt =====
-- gx/internal/gen/fs/transaction.go: files and removals are staged below the root and published by Commit,
-- which Fs/Commit.antt models. Here: NewTransaction, Delete, Write, Rollback and close. The receiver is
-- not nil.
pub mod Views
pub mod Staging
pub mod Prepared
pub mod Deleting
use gonex.Common.{
  ℕ, String, List, [], ◌∷◌, ◌++◌, Bool, true, false, Option, none, some, ◌||◌, not, if◌then◌else◌,
  nat_eq, or_else,
}
use gonex.Fs.Paths.{CleanPath, clean_project_relative, joined, path_overlaps}
use gonex.Fs.Root.{
  Info, missing, inspect_failed, symlink, directory, other, Removed, removed, absent, remove_failed,
  Root, Failure, transaction_closed, escapes_root, inspect, conflicts_with_delete,
  conflicts_with_write, existing_directory, staging_failed, backup_failed, install_failed,
  restore_failed, cleanup_failed, join, dir, validate_root_path, create_root_temp_dir,
}

-- `rootHandle` is nil exactly if the transaction is closed. The keys of `writes` are listed once each.
pub record Transaction : Type 0 where
  pub stage : String
  pub backup : Option String
  pub deletes : List CleanPath
  pub writes : List CleanPath
  pub is_open : Bool

-- An error, nil as none, with the state that a piece of code leaves; and the code behind
-- `if err != nil { return … }`.
abbrev pub Result {ℓ} : Type ℓ → Type ℓ
Result S = Option Failure × S

infixl 5 ◌>>◌
unfoldable pub ◌>>◌ {ℓ} : {S : Type ℓ} → Result S → (S → Result S) → Result S
(none, s) >> next = next s
(some e, s) >> next = (some e, s)

-- The result of a call that reports only an error.
abbrev pub checked {ℓ} : {S : Type ℓ} → Failure → Bool × S → Result S
checked e (true, s) = (none, s)
checked e (false, s) = (some e, s)

-- `for path := range paths { if pathOverlaps(path, clean) { return error } }`
abbrev pub overlaps_any : List CleanPath → CleanPath → Bool
overlaps_any [] clean = false
overlaps_any (path ∷ paths) clean = path_overlaps path clean || overlaps_any paths clean

abbrev pub guard {ℓ} : {S : Type ℓ} → Failure → Bool → S → Result S
guard e refused s = if refused then (some e, s) else (none, s)

-- `if err := …; err != nil { errors = append(errors, …) }`
abbrev pub add_error : Bool → Failure → List Failure → List Failure
add_error ok e errors = if ok then errors else e ∷ errors

module _ (R : Root) where
  -- The Lstat of Delete and Write.
  unfoldable pub refuse_directory : CleanPath → R.State → Result R.State
  refuse_directory clean s =
      let (info, s1) = R.lstat s clean in
      elim info [
        | directory ↦ (some existing_directory, s1)
        | inspect_failed ↦ (some inspect, s1)
        | _ ↦ (none, s1)
      ]

  -- The checks of Delete.
  unfoldable pub check_delete : CleanPath → Transaction → R.State → Result R.State
  unfolding refuse_directory ◌>>◌
  check_delete clean t s =
      validate_root_path R s clean
      >> guard conflicts_with_delete (overlaps_any t.deletes clean)
      >> guard conflicts_with_write (overlaps_any t.writes clean)
      >> refuse_directory clean

  -- The end of Delete.
  unfoldable pub add_delete :
      CleanPath → Transaction → Result R.State → Option Failure × Transaction × R.State
  add_delete clean t (some e, s) = (some e, t, s)
  add_delete clean t (none, s) = (none, record t { deletes = t.deletes ++ clean ∷ [] }, s)

  -- Delete
  unfoldable pub delete : String → Transaction → R.State → Option Failure × Transaction × R.State
  unfolding check_delete add_delete
  delete relative t s =
      if not t.is_open
      then (some transaction_closed, t, s)
      else elim (clean_project_relative relative) [
        | none ↦ (some escapes_root, t, s)
        | some clean ↦ add_delete clean t (check_delete clean t s)
      ]

  -- `file.Write` and `file.Sync`, of which an error closes the file.
  unfoldable pub or_close : CleanPath → Result R.State → Result R.State
  or_close path (none, s) = (none, s)
  or_close path (some e, s) = (some e, (R.close_file s path).1)

  -- The file that Write stages.
  unfoldable pub stage_file : CleanPath → String → ℕ → R.State → Result R.State
  unfolding or_close ◌>>◌
  stage_file path content permission s =
      checked staging_failed (R.mkdir_all s (dir path))
      >> (λ s.
          checked staging_failed
            (R.open_file s path (if nat_eq permission 0 then 0o644 else permission)))
      >> (λ s. or_close path (checked staging_failed (R.write s path content)))
      >> (λ s. or_close path (checked staging_failed (R.sync s path)))
      >> (λ s. checked staging_failed (R.close_file s path))

  -- The checks of Write.
  unfoldable pub check_write : CleanPath → Transaction → R.State → Result R.State
  unfolding refuse_directory ◌>>◌
  check_write clean t s =
      validate_root_path R s clean
      >> refuse_directory clean
      >> guard conflicts_with_delete (overlaps_any t.deletes clean)
      >> guard conflicts_with_write (overlaps_any t.writes clean)

  -- The end of Write.
  unfoldable pub add_write :
      CleanPath → Transaction → Result R.State → Option Failure × Transaction × R.State
  add_write clean t (some e, s) = (some e, t, s)
  add_write clean t (none, s) = (none, record t { writes = clean ∷ t.writes }, s)

  -- Write
  unfoldable pub write :
      String → String → ℕ → Transaction → R.State → Option Failure × Transaction × R.State
  unfolding check_write stage_file add_write ◌>>◌
  write relative content permission t s =
      if not t.is_open
      then (some transaction_closed, t, s)
      else elim (clean_project_relative relative) [
        | none ↦ (some escapes_root, t, s)
        | some clean ↦
            add_write clean t
              (check_write clean t s >> stage_file (join t.stage clean) content permission)
      ]

  -- NewTransaction after createRootTempDir.
  unfoldable pub opened :
      Option Failure × String × R.State → Option Failure × Option Transaction × R.State
  opened (some err, stage, s) = (some err, none, (R.close s).1)
  opened (none, stage, s) = (
    none,
    some (record { stage = stage; backup = none; deletes = []; writes = []; is_open = true }),
    s,
  )

  -- NewTransaction, on the opened root
  unfoldable pub new_transaction :
      (ℕ → Option String) → R.State → Option Failure × Option Transaction × R.State
  unfolding opened
  new_transaction entropy s = opened (create_root_temp_dir R entropy ".gx-stage-" s)

  -- The removal of the directory of the backups, where there is one.
  abbrev remove_backup : Option String → R.State → Bool × R.State
  remove_backup none s = (true, s)
  remove_backup (some backup) s = R.remove_all s (backup ∷ [])

  -- close; the name of the stage is never empty
  unfoldable pub close : Transaction → R.State → List Failure × Transaction × R.State
  close t s =
      if not t.is_open
      then ([], t, s)
      else let (stage_ok, s1) = R.remove_all s (t.stage ∷ []) in
        let (backup_ok, s2) = remove_backup t.backup s1 in
        let (close_ok, s3) = R.close s2 in
        let errors =
          add_error stage_ok cleanup_failed
            (add_error backup_ok cleanup_failed (add_error close_ok cleanup_failed [])) in
        (errors, record t { is_open = false }, s3)

  -- Rollback
  unfoldable pub rollback : Transaction → R.State → List Failure × Transaction × R.State
  unfolding close
  rollback t s = if not t.is_open then ([], t, s) else close t s
