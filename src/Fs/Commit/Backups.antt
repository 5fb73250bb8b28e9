-- ===== src/Fs/Commit/Backups.antt =====
-- The backup of what stands at a path, within a turn of Commit's loops.
use gonex.Common.{
  String, Bool, true, false, none, some, ◌≡◌, ◌≢◌, refl, ◌∙◌, inl, inr, ap, sym, if_cases,
}
use gonex.Fs.Paths.{CleanPath}
use gonex.Fs.Root.{
  Info, missing, inspect_failed, symlink, directory, other, Root, IsLawful, Failure, backup_failed,
  join, dir, validate_root_path, validate_root_path-view,
}
use gonex.Fs.Transaction.{Result, ◌>>◌, checked}
use gonex.Fs.Commit.{
  Progress, on_state, revalidate, make_parents, store_backup, move_to_backup, backup_found,
  backup_existing, take_away,
}
use gonex.Fs.Commit.Turns.{IsSame, IsSame-refl, IsSame-trans, Backup, quiet_first, Backup-moves}

module _ (R : Root) (L : IsLawful R) where
  on_state-IsSame :
      (body : R.State → Result R.State) (p : Progress R.State)
      → ((q : CleanPath) → R.view (body p.state).1 q ≡ R.view p.state q)
      → IsSame R p (on_state R body p).1
  on_state-IsSame body p h = record { views = h; installs = refl; backups = refl }

  pub revalidate-IsSame : (q : CleanPath) (p : Progress R.State) → IsSame R p (revalidate R q p).1
  unfolding revalidate
  revalidate-IsSame q p =
      on_state-IsSame (λ s. validate_root_path R s q) p (validate_root_path-view R L p.state q)

  checked-state : (e : Failure) (r : Bool × R.State) → (checked e r).1 ≡ r.1
  checked-state e (true, s) = refl
  checked-state e (false, s) = refl

  pub make_parents-IsSame :
      (e : Failure) (q : CleanPath) (p : Progress R.State) → IsSame R p (make_parents R e q p).1
  unfolding make_parents
  make_parents-IsSame e q p =
      on_state-IsSame (λ s. checked e (R.mkdir_all s (dir q))) p
        λ q1.
          ap (λ s. R.view s q1) (checked-state e (R.mkdir_all p.state (dir q)))
          ∙ L.mkdir_all-view p.state (dir q) q1

  pub then-IsSame :
      (p : Progress R.State) (r : Result (Progress R.State))
      (next : Progress R.State → Result (Progress R.State))
      → IsSame R p r.1
      → ((p1 : Progress R.State) → IsSame R p1 (next p1).1)
      → IsSame R p (r >> next).1
  unfolding ◌>>◌
  then-IsSame p (none, p1) next h k = IsSame-trans R p p1 (next p1).1 h (k p1)
  then-IsSame p (some e, p1) next h k = h

  store_backup-Backup :
      (backup : String) (relative : CleanPath) (p : Progress R.State)
      → R.view p.state relative ≢ none
      → Backup R backup relative p (store_backup R backup relative p)
  unfolding store_backup
  store_backup-Backup backup relative p stood =
      if_cases (Backup R backup relative p) _ _ _
        (λ ok. inr (
          refl,
          record {
            stood = stood;
            views = λ q. L.rename-view p.state relative (join backup relative) q stood ok;
            installs = refl;
            backups = refl;
          },
        ))
        (λ failed. inl (
          record {
            views = λ q. L.rename_failed p.state relative (join backup relative) q failed;
            installs = refl;
            backups = refl;
          },
          λ e. cc,
        ))

  -- A backup that is due, behind steps that change nothing.
  DueBackup : String → CleanPath → Progress R.State → Result (Progress R.State) → Type 0
  DueBackup backup relative p r = R.view p.state relative ≢ none → Backup R backup relative p r

  quiet_then_due :
      (backup : String) (relative : CleanPath) (p : Progress R.State)
      (r : Result (Progress R.State)) (next : Progress R.State → Result (Progress R.State))
      → IsSame R p r.1
      → ((p1 : Progress R.State) → DueBackup backup relative p1 (next p1))
      → DueBackup backup relative p (r >> next)
  unfolding DueBackup
  quiet_then_due backup relative p r next same h =
      quiet_first R (DueBackup backup relative)
        (λ p p1 r same h stood.
          Backup-moves R backup relative p p1 r same
            (h (λ gone. stood (sym (same.views relative) ∙ gone))))
        (λ p p1 same e stood. inl (same, λ e. cc)) p r next same h

  move_to_backup-Backup :
      (backup : String) (relative : CleanPath) (p : Progress R.State)
      → R.view p.state relative ≢ none
      → Backup R backup relative p (move_to_backup R backup relative p)
  unfolding move_to_backup DueBackup
  move_to_backup-Backup backup relative p stood =
      quiet_then_due backup relative p _ _
        (then-IsSame p _ _ (make_parents-IsSame backup_failed (join backup relative) p)
          (revalidate-IsSame relative))
        (store_backup-Backup backup relative) stood

  backup_found-Backup :
      (backup : String) (relative : CleanPath) (info : Info) (p : Progress R.State)
      → (info ≡ missing → R.view p.state relative ≡ none)
      → (info ≡ symlink → R.view p.state relative ≢ none)
      → (info ≡ other → R.view p.state relative ≢ none)
      → Backup R backup relative p (backup_found R backup relative info p)
  unfolding backup_found
  backup_found-Backup backup relative missing p gone h k = inl (IsSame-refl R p, λ e. gone refl)
  backup_found-Backup backup relative inspect_failed p gone h k = inl (IsSame-refl R p, λ e. cc)
  backup_found-Backup backup relative directory p gone h k = inl (IsSame-refl R p, λ e. cc)
  backup_found-Backup backup relative symlink p gone h k =
      move_to_backup-Backup backup relative p (h refl)
  backup_found-Backup backup relative other p gone h k =
      move_to_backup-Backup backup relative p (k refl)

  backup_existing-Backup :
      (backup : String) (relative : CleanPath) (p : Progress R.State)
      → Backup R backup relative p (backup_existing R backup relative p)
  unfolding backup_existing
  backup_existing-Backup backup relative p =
      let s = p.state in
      let same = L.lstat-view s relative in
      Backup-moves R backup relative p (record p { state = (R.lstat s relative).1 }) _
        (record { views = same; installs = refl; backups = refl })
        (backup_found-Backup backup relative (R.lstat s relative).0 _
          (λ e. same relative ∙ L.lstat-missing s relative e)
          (λ e gone. L.lstat-symlink s relative e (sym (same relative) ∙ gone))
          (λ e gone. L.lstat-other s relative e (sym (same relative) ∙ gone)))

  pub take_away-Backup :
      (backup : String) (relative : CleanPath) (p : Progress R.State)
      → Backup R backup relative p (take_away R backup relative p)
  unfolding take_away
  take_away-Backup backup relative p =
      quiet_first R (Backup R backup relative) (Backup-moves R backup relative)
        (λ p p1 same e. inl (same, λ e. cc)) p _ _ (revalidate-IsSame relative p)
        (backup_existing-Backup backup relative)
