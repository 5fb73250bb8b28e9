-- ===== src/Fs/Commit/Whole.antt =====
-- The two loops of Commit one behind the other.
use gonex.Common.{String, List, [], ◌∷◌, false, none, ◌≡◌, ◌≢◌, refl, ◌∙◌, All, if◌then◌else◌}
use gonex.Fs.Paths.{CleanPath}
use gonex.Fs.Paths.Members.{mem}
use gonex.Fs.Paths.Members.{IsOutside}
use gonex.Fs.Root.{Root, IsLawful, join}
use gonex.Fs.Transaction.{Transaction, Result}
use gonex.Fs.Transaction.Views.{then_ok}
use gonex.Fs.Commit.Published.{install_all-view, take_away_all-view}
use gonex.Fs.Transaction.Prepared.{IsPrepared}
use gonex.Fs.Commit.{Progress, publish_all, for_each, install, take_away, sort}
use gonex.Fs.Commit.Loops.{
  IsPending, IsStaged, CanUndo, install_all-CanUndo, install_all-IsPending, take_away_all-CanUndo,
  then_keeps,
}
use gonex.Fs.Commit.Sorting.{sort-AreDistinct, All-sort, mem-sort}

module _ (R : Root) where
  -- The random name of the directory of the backups is not in use by the transaction.
  pub record IsApart (t : Transaction) (backup : String) : Type 0 where
    pub stage : t.stage ≢ backup
    pub written : All (IsOutside backup) t.writes
    pub deleted : All (IsOutside backup) t.deletes

module _ (R : Root) (L : IsLawful R) (t : Transaction) (backup : String) (s : R.State)
    (prepared : IsPrepared R t s) (fits : IsApart R t backup) where
  start : Progress R.State
  start = record { state = s; installed = []; backed_up = [] }

  start-CanUndo : CanUndo R L t.stage backup fits.stage (R.view s) start
  unfolding start
  start-CanUndo = record { backups = tt; outside = tt; undoes = λ q away away'. refl }

  both_outside :
      (paths : List CleanPath)
      → All (IsOutside t.stage) paths
      → All (IsOutside backup) paths
      → All (IsPending R L t.stage backup fits.stage start) paths
  unfolding start
  both_outside [] _ _ = tt
  both_outside (x ∷ paths) (h, hs) (k, ks) =
      (record { in_project = h; out = k; new = refl; fresh = refl }, both_outside paths hs ks)

  installed_all : Result (Progress R.State)
  installed_all = for_each R (install R t.stage backup) (sort t.writes) start

  writes-IsPending : All (IsPending R L t.stage backup fits.stage start) (sort t.writes)
  writes-IsPending =
      All-sort _ t.writes (both_outside t.writes prepared.written_outside fits.written)

  writes-IsStaged : All (IsStaged R L t.stage backup fits.stage start) (sort t.writes)
  unfolding start
  writes-IsStaged = All-sort _ t.writes prepared.staged

  still-IsPending :
      (paths : List CleanPath)
      → All (λ x. mem x t.writes ≡ false) paths
      → All (IsPending R L t.stage backup fits.stage start) paths
      → All (IsPending R L t.stage backup fits.stage installed_all.1) paths
  unfolding installed_all
  still-IsPending [] _ _ = tt
  still-IsPending (x ∷ paths) (h, hs) (k, ks) = (
    install_all-IsPending R L t.stage backup fits.stage x (sort t.writes) start
        (mem-sort x t.writes ∙ h) (sort-AreDistinct t.writes prepared.writes) writes-IsPending
        writes-IsStaged k,
    still-IsPending paths hs ks,
  )

  pub publish_all-CanUndo :
      CanUndo R L t.stage backup fits.stage (R.view s) (publish_all R t backup s).1
  unfolding publish_all start installed_all
  publish_all-CanUndo =
      let canUndo =
        install_all-CanUndo R L t.stage backup fits.stage (R.view s) (sort t.writes) start
          (sort-AreDistinct t.writes prepared.writes) writes-IsPending writes-IsStaged
          start-CanUndo in
      then_keeps R L t.stage backup fits.stage (CanUndo R L t.stage backup fits.stage (R.view s))
        installed_all (for_each R (take_away R backup) t.deletes) canUndo
        (take_away_all-CanUndo R L t.stage backup fits.stage (R.view s) t.deletes installed_all.1
          prepared.deletes
          (still-IsPending t.deletes prepared.disjoint
            (both_outside t.deletes prepared.deleted_outside fits.deleted)))

  -- The files after loops without an error.
  pub publish_all-view :
      (q : CleanPath)
      → IsOutside t.stage q
      → IsOutside backup q
      → (publish_all R t backup s).0 ≡ none
      → R.view (publish_all R t backup s).1.state q ≡ (
          if mem q t.deletes
          then none
          else if mem q t.writes
          then R.view s (join t.stage q)
          else R.view s q)
  unfolding publish_all installed_all start
  publish_all-view q in_project out =
      then_ok
        (λ (p : Progress R.State). R.view p.state q ≡ (
          if mem q t.deletes
          then none
          else if mem q t.writes
          then R.view s (join t.stage q)
          else R.view s q))
        installed_all (for_each R (take_away R backup) t.deletes)
        (λ ok rest.
          take_away_all-view R L t.stage backup fits.stage t.deletes installed_all.1 q out rest
          ∙ rw
              (
                install_all-view R L t.stage backup fits.stage (sort t.writes) start q
                    (sort-AreDistinct t.writes prepared.writes)
                    (All-sort _ t.writes prepared.written_outside)
                    (All-sort _ t.writes fits.written) (All-sort _ t.writes prepared.staged)
                    in_project out ok,
                mem-sort q t.writes,
              )
              refl)
