-- ===== src/Fs/Commit/Restore.antt =====
-- The function `rollback` of Commit: without an error it leaves the files that were there before.
use mathlib.Core.Path.{fun_ext}
use gonex.Common.{
  String, List, [], ◌∷◌, ◌++◌, true, false, Option, none, some, ◌≡◌, ◌≢◌, refl, ◌∙◌, sym, arith, ap,
  if◌then◌else◌,
}
use gonex.Fs.Paths.{CleanPath, path_eq}
use gonex.Fs.Paths.Overlap.{path_eq_iff}
use gonex.Fs.Paths.Members.{path_eq_sym}
use gonex.Fs.Paths.Members.{IsOutside, join-outside, join_eq, outside-join}
use gonex.Fs.Root.{
  Root, IsLawful, Failure, Removed, removed, absent, remove_failed, restore_failed, join, dir,
  validate_root_path, validate_root_path-view,
}
use gonex.Fs.Transaction.{Result}
use gonex.Fs.Transaction.Views.{
  SameView, IsQuiet, Anywhere, then-IsQuiet, checked-IsQuiet, then_ok, checked_ok,
}
use gonex.Fs.Commit.{
  BackupEntry, Progress, remove_installed, restore_parents, restore_entry, after_remove,
  collect_errors, take_back,
}
use gonex.Fs.Commit.Undo.{View, backed, HasBackups, IsUndoable}

-- The views after the two moves of a rollback.
abbrev taken_out : CleanPath → View → View
taken_out relative view q = if path_eq q relative then none else view q

abbrev put_back : String → CleanPath → View → View
put_back backup relative view q =
    if path_eq q relative
    then view (join backup relative)
    else if path_eq q (join backup relative)
    then none
    else view q

module _ (stage backup : String) where
  HasBackups-taken_out :
      (relative : CleanPath) (view : View) (entries : List BackupEntry)
      → IsOutside backup relative
      → HasBackups stage backup view entries
      → HasBackups stage backup (taken_out relative view) entries
  HasBackups-taken_out relative view [] out h = tt
  HasBackups-taken_out relative view (entry ∷ entries) out (e, o, there, once, h) = (
    e,
    o,
    (λ gone. there (ground (arith, join-outside backup entry.destination relative out))),
    once,
    HasBackups-taken_out relative view entries out h,
  )

  HasBackups-put_back :
      (relative : CleanPath) (view : View) (entries : List BackupEntry)
      → IsOutside backup relative
      → backed relative entries ≡ false
      → HasBackups stage backup view entries
      → HasBackups stage backup (put_back backup relative view) entries
  HasBackups-put_back relative view [] out new h = tt
  HasBackups-put_back relative view (entry ∷ entries) out new (e, o, there, once, h) = (
    e,
    o,
    (λ gone. there (
        ground (
          arith,
          join-outside backup entry.destination relative out,
          join_eq backup entry.destination relative,
          path_eq_sym relative entry.destination,
        ))),
    once,
    HasBackups-put_back relative view entries out (ground arith) h,
  )

  module _ (before : View) where
    IsUndoable-taken_out :
        (relative : CleanPath) (view : View) (installed : List CleanPath)
        (entries : List BackupEntry)
        → IsUndoable stage backup before view (relative ∷ installed) entries
        → IsUndoable stage backup before (taken_out relative view) installed entries
    IsUndoable-taken_out relative view installed entries h = record {
      backups = HasBackups-taken_out relative view entries h.outside.0 h.backups;
      outside = h.outside.1;
      undoes = λ q away away'. ground (
        arith,
        h.undoes q away away',
        path_eq_iff q relative,
        join-outside backup q relative h.outside.0,
      );
    }

    IsUndoable-put_back :
        (entry : BackupEntry) (view : View) (entries : List BackupEntry)
        → IsUndoable stage backup before view [] (entry ∷ entries)
        → IsUndoable stage backup before (put_back backup entry.destination view) [] entries
    IsUndoable-put_back entry view entries h =
        let (e, out, there, once, rest) = h.backups in
        record {
          backups = HasBackups-put_back entry.destination view entries out once rest;
          outside = tt;
          undoes = λ q away away'. ground (
            arith,
            h.undoes q away away',
            path_eq_iff q entry.destination,
            join_eq backup q entry.destination,
            join-outside backup q entry.destination out,
            outside-join backup q entry.destination away',
          );
        }

append_empty : (xs ys : List Failure) → xs ++ ys ≡ [] → (xs ≡ []) × (ys ≡ [])
append_empty [] ys h = (refl, h)
append_empty (x ∷ xs) ys h = cc

no_errors :
    (e : Option Failure) (errors : List Failure)
    → elim e as (λ _. List Failure) [ none ↦ errors | some err ↦ err ∷ errors ] ≡ []
    → (e ≡ none) × (errors ≡ [])
no_errors none errors h = (refl, h)
no_errors (some e) errors h = cc

module _ (R : Root) (L : IsLawful R) where
  after_remove_ok {κ} :
      (C : R.State → Type κ) (r : Removed × R.State)
      → (r.0 ≡ removed → C r.1)
      → (r.0 ≡ absent → C r.1)
      → (after_remove R r.0 r.1).0 ≡ none
      → C (after_remove R r.0 r.1).1
  unfolding after_remove
  after_remove_ok C (removed, s) h k ok = h refl
  after_remove_ok C (absent, s) h k ok = k refl
  after_remove_ok C (remove_failed, s) h k ok = cc

  remove_installed-view :
      (relative : CleanPath) (s : R.State) (q : CleanPath)
      → (remove_installed R relative s).0 ≡ none
      → R.view (remove_installed R relative s).1 q ≡ taken_out relative (R.view s) q
  unfolding remove_installed
  remove_installed-view relative s q =
      let s1 = (validate_root_path R s relative).1 in
      then_ok (λ s1. R.view s1 q ≡ taken_out relative (R.view s) q)
        (validate_root_path R s relative) _
        (λ _.
          after_remove_ok (λ s1. R.view s1 q ≡ taken_out relative (R.view s) q)
            (R.remove s1 relative)
            (λ e.
              L.remove-view s1 relative q e ∙ rw (validate_root_path-view R L s relative q) refl)
            (λ e.
              L.remove-absent s1 relative q e ∙ rw (validate_root_path-view R L s relative q) refl))

  restore_parents-IsQuiet :
      (entry : BackupEntry) (s : R.State) → IsQuiet R Anywhere s (restore_parents R entry s)
  unfolding restore_parents
  restore_parents-IsQuiet entry s =
      then-IsQuiet R Anywhere s _ _
        (record { views = λ q at. validate_root_path-view R L s entry.destination q })
        (λ s1.
          checked-IsQuiet R Anywhere restore_failed s1 (R.mkdir_all s1 (dir entry.destination))
            (λ q at. L.mkdir_all-view s1 (dir entry.destination) q))

  rename_back-view :
      (backup : String) (entry : BackupEntry) (s s1 : R.State) (q : CleanPath)
      → entry.backup ≡ join backup entry.destination
      → R.view s (join backup entry.destination) ≢ none
      → SameView R s s1
      → (R.rename s1 entry.backup entry.destination).0 ≡ true
      → R.view (R.rename s1 entry.backup entry.destination).1 q
        ≡ put_back backup entry.destination (R.view s) q
  rename_back-view backup entry s s1 q e stood same ok =
      L.rename-view s1 entry.backup entry.destination q
        (λ gone. stood (ap (R.view s) (sym e) ∙ sym (same entry.backup) ∙ gone)) ok
      ∙ rw (same entry.backup, same q, e) refl

  restore_entry-view :
      (backup : String) (entry : BackupEntry) (s : R.State) (q : CleanPath)
      → entry.backup ≡ join backup entry.destination
      → R.view s (join backup entry.destination) ≢ none
      → (restore_entry R entry s).0 ≡ none
      → R.view (restore_entry R entry s).1 q ≡ put_back backup entry.destination (R.view s) q
  unfolding restore_entry
  restore_entry-view backup entry s q e stood =
      let C : R.State → Type 0 =
        λ s1. R.view s1 q ≡ put_back backup entry.destination (R.view s) q in
      then_ok C (restore_parents R entry s) _ (λ _. checked_ok C restore_failed _ (
        rename_back-view backup entry s (restore_parents R entry s).1 q e stood
          (λ q. (restore_parents-IsQuiet entry s).views q tt)))

  collect_errors_rule {ℓ κ} :
      {A : Type ℓ} (body : A → R.State → Result R.State) (I : List A → R.State → Type κ)
      → ((x : A) (xs : List A) (s : R.State)
          → I (x ∷ xs) s
          → (body x s).0 ≡ none
          → I xs (body x s).1)
      → (xs : List A) (s : R.State) → I xs s
      → (collect_errors R body xs s).0 ≡ []
      → I [] (collect_errors R body xs s).1
  unfolding collect_errors
  collect_errors_rule body I turn [] s h ok = h
  collect_errors_rule body I turn (x ∷ xs) s h ok =
      let (first, others) = no_errors (body x s).0 (collect_errors R body xs (body x s).1).0 ok in
      collect_errors_rule body I turn xs (body x s).1 (turn x xs s h first) others

  -- A rollback that returns no error leaves the files as they were before.
  pub take_back-view :
      (stage backup : String) (before : View) (p : Progress R.State) (q : CleanPath)
      → IsUndoable stage backup before (R.view p.state) p.installed p.backed_up
      → (take_back R p).0 ≡ []
      → IsOutside stage q
      → IsOutside backup q
      → R.view (take_back R p).1 q ≡ before q
  unfolding take_back
  take_back-view stage backup before p q h ok in_project out =
      let removal = collect_errors R (remove_installed R) p.installed p.state in
      let (removing, restoring) =
        append_empty removal.0 (collect_errors R (restore_entry R) p.backed_up removal.1).0 ok in
      let cleared =
        collect_errors_rule (remove_installed R)
          (λ installed s. IsUndoable stage backup before (R.view s) installed p.backed_up)
          (λ relative installed s h ok.
            rw (fun_ext (λ q. remove_installed-view relative s q ok)) (
              IsUndoable-taken_out stage backup before relative (R.view s) installed p.backed_up h))
          p.installed p.state h removing in
      let restored =
        collect_errors_rule (restore_entry R)
          (λ entries s. IsUndoable stage backup before (R.view s) [] entries)
          (λ entry entries s h ok.
            rw (fun_ext (λ q. restore_entry-view backup entry s q h.backups.0 h.backups.2 ok))
              (IsUndoable-put_back stage backup before entry (R.view s) entries h))
          p.backed_up removal.1 cleared restoring in
      restored.undoes q in_project out
