-- ===== src/Fs/Commit/Undo.antt =====
-- What Commit keeps true, so that it can take back what it has done.
use gonex.Common.{
  String, List, [], ◌∷◌, Bool, false, Option, none, ◌≡◌, ◌≢◌, ◌||◌, refl, arith, eq_iff,
  if◌then◌else◌, All,
}
use gonex.Fs.Paths.{CleanPath, path_eq}
use gonex.Fs.Paths.Overlap.{path_eq_iff}
use gonex.Fs.Paths.Members.{mem, path_eq_refl, path_eq_sym}
use gonex.Fs.Paths.Members.{IsOutside, join-outside, join_eq, outside-join}
use gonex.Fs.Root.{Entry, join}
use gonex.Fs.Commit.{BackupEntry}

-- The path is the destination of an entry.
abbrev pub backed : CleanPath → List BackupEntry → Bool
backed q [] = false
backed q (entry ∷ entries) = path_eq q entry.destination || backed q entries

abbrev pub View : Type 0
View = CleanPath → Option Entry

-- What a rollback makes of the root.
abbrev pub undone : String → View → List CleanPath → List BackupEntry → View
undone backup view installed entries q =
    if backed q entries then view (join backup q) else if mem q installed then none else view q

-- The views after the two moves of a turn.
abbrev pub moved_away : String → CleanPath → View → View
moved_away backup relative view q =
    if path_eq q (join backup relative)
    then view relative
    else if path_eq q relative
    then none
    else view q

abbrev pub moved_in : String → CleanPath → View → View
moved_in stage relative view q =
    if path_eq q relative
    then view (join stage relative)
    else if path_eq q (join stage relative)
    then none
    else view q

module _ (stage backup : String) where
  -- The entries name different files, and each backup is there.
  abbrev pub HasBackups : View → List BackupEntry → Type 0
  HasBackups view [] = Unit
  HasBackups view (entry ∷ entries) =
      (entry.backup ≡ join backup entry.destination)
      × IsOutside backup entry.destination
      × (view (join backup entry.destination) ≢ none)
      × (backed entry.destination entries ≡ false)
      × HasBackups view entries

  module _ (before : View) where
    pub record IsUndoable (view : View) (installed : List CleanPath) (entries : List BackupEntry)
        : Type 0 where
      pub backups : HasBackups view entries
      pub outside : All (IsOutside backup) installed
      pub undoes :
          (q : CleanPath)
          → IsOutside stage q
          → IsOutside backup q
          → undone backup view installed entries q ≡ before q

  join_apart : (p q : CleanPath) → stage ≢ backup → path_eq (join backup p) (join stage q) ≡ false
  join_apart p q apart = ground (arith, eq_iff backup stage)

  HasBackups-moved_away :
      (relative : CleanPath) (view : View) (entries : List BackupEntry)
      → IsOutside backup relative
      → backed relative entries ≡ false
      → HasBackups view entries
      → HasBackups (moved_away backup relative view) entries
  HasBackups-moved_away relative view [] out new h = tt
  HasBackups-moved_away relative view (entry ∷ entries) out new (e, o, there, once, h) = (
    e,
    o,
    (λ gone. there (
        ground (
          arith,
          join_eq backup entry.destination relative,
          join-outside backup entry.destination relative out,
          path_eq_sym relative entry.destination,
        ))),
    once,
    HasBackups-moved_away relative view entries out (ground arith) h,
  )

  HasBackups-moved_in :
      (relative : CleanPath) (view : View) (entries : List BackupEntry)
      → stage ≢ backup
      → IsOutside backup relative
      → HasBackups view entries
      → HasBackups (moved_in stage relative view) entries
  HasBackups-moved_in relative view [] apart out h = tt
  HasBackups-moved_in relative view (entry ∷ entries) apart out (e, o, there, once, h) = (
    e,
    o,
    (λ gone. there (
        ground (
          arith,
          join_apart entry.destination relative apart,
          join-outside backup entry.destination relative out,
        ))),
    once,
    HasBackups-moved_in relative view entries apart out h,
  )

  module _ (before : View) (apart : stage ≢ backup) (relative : CleanPath)
      (in_project : IsOutside stage relative) (out : IsOutside backup relative) (view : View)
      (installed : List CleanPath) (entries : List BackupEntry)
      (h : IsUndoable before view installed entries) where
    pub IsUndoable-moved_away :
        view relative ≢ none
        → backed relative entries ≡ false
        → mem relative installed ≡ false
        → IsUndoable before
            (moved_away backup relative view)
            installed
            (record { backup = join backup relative; destination = relative } ∷ entries)
    IsUndoable-moved_away stood new fresh = record {
      backups = (
        refl,
        out,
        (λ gone. stood (ground (arith, path_eq_refl (join backup relative)))),
        new,
        HasBackups-moved_away relative view entries out new h.backups,
      );
      outside = h.outside;
      undoes = λ q away away'. ground (
        arith,
        h.undoes q away away',
        path_eq_iff q relative,
        join_eq backup q relative,
        join-outside backup q relative out,
        outside-join backup q relative away',
      );
    }

    pub IsUndoable-moved_in :
        view relative ≡ none
        → IsUndoable before (moved_in stage relative view) (relative ∷ installed) entries
    IsUndoable-moved_in gone = record {
      backups = HasBackups-moved_in relative view entries apart out h.backups;
      outside = (out, h.outside);
      undoes = λ q away away'. ground (
        arith,
        h.undoes q away away',
        path_eq_iff q relative,
        join_apart q relative apart,
        join-outside backup q relative out,
        outside-join stage q relative away,
      );
    }
