-- ===== src/Fs/Commit/Published.antt =====
-- What Commit's loops leave of the files when they end without an error.
use gonex.Common.{
  String, List, [], ◌∷◌, false, none, ◌≡◌, ◌≢◌, ◌⊎◌, inl, inr, refl, ◌∙◌, sym, arith, All,
  if◌then◌else◌, Bool-cases, subst, ◌||◌,
}
use gonex.Fs.Paths.{CleanPath, path_eq}
use gonex.Fs.Paths.Overlap.{path_eq_iff}
use gonex.Fs.Paths.Members.{mem, AreDistinct}
use gonex.Fs.Paths.Members.{IsOutside, join-outside, outside-join}
use gonex.Fs.Root.{Root, IsLawful, join}
use gonex.Fs.Transaction.{Result}
use gonex.Fs.Transaction.Views.{then_ok}
use gonex.Fs.Commit.{Progress, install, take_away, for_each}
use gonex.Fs.Commit.Turns.{IsSame, IsBackedUp, Backup, Install}
use gonex.Fs.Commit.Backups.{take_away-Backup}
use gonex.Fs.Commit.Installs.{install-Install, staged_stays}
use gonex.Fs.Commit.Loops.{staged-Install, All_others}

module _ (R : Root) (L : IsLawful R) (stage backup : String) (apart : stage ≢ backup) where
  begun-view :
      (relative : CleanPath) (p p1 : Progress R.State) (q : CleanPath)
      → IsOutside backup q
      → path_eq q relative ≡ false
      → IsSame R p p1 ⊎ IsBackedUp R backup relative p p1
      → R.view p1.state q ≡ R.view p.state q
  begun-view relative p p1 q out differ (inl same) = same.views q
  begun-view relative p p1 q out differ (inr turn) =
      turn.views q ∙ rw (outside-join backup q relative out, differ) refl

  Install-view :
      (relative : CleanPath) (p : Progress R.State) (r : Result (Progress R.State)) (q : CleanPath)
      → IsOutside stage relative
      → IsOutside stage q
      → IsOutside backup q
      → Install R stage backup relative p r
      → r.0 ≡ none
      → R.view r.1.state q
        ≡ (if path_eq q relative then R.view p.state (join stage relative) else R.view p.state q)
  Install-view relative p r q out in_project away (p1, from, inl (failed, _)) ok =
      absurd (failed ok)
  Install-view relative p r q out in_project away (p1, from, inr (_, _, turn)) ok =
      turn.views q
      ∙ ground (
        arith,
        outside-join stage q relative in_project,
        begun-view relative p p1 q away,
        staged_stays R L stage backup relative p p1 relative apart
            (join-outside stage relative relative out) from,
        from,
      )

  turned :
      (x : CleanPath) (files : List CleanPath) (p : Progress R.State)
      (r : Result (Progress R.State)) (q : CleanPath)
      → mem x files ≡ false
      → IsOutside stage x
      → IsOutside stage q
      → IsOutside backup q
      → Install R stage backup x p r
      → r.0 ≡ none
      → (if mem q files then R.view r.1.state (join stage q) else R.view r.1.state q)
        ≡ (if path_eq q x || mem q files then R.view p.state (join stage q) else R.view p.state q)
  turned x files p r q new o in_project away result ok = elim (Bool-cases (path_eq q x)) [
    | inl same ↦ ground (
      arith,
      Install-view x p r q o in_project away result ok,
      path_eq_iff q x,
      subst (λ y. mem y files ≡ false) (sym ((path_eq_iff q x).0 same)) new,
    )
    | inr differ ↦ ground (
      arith,
      Install-view x p r q o in_project away result ok,
      staged-Install R L stage backup apart x q differ p r o result,
    )
  ]

  staged_others :
      (x : CleanPath) (files : List CleanPath) (p : Progress R.State)
      → IsOutside stage x
      → IsOutside backup x
      → R.view p.state (join stage x) ≢ none
      → mem x files ≡ false
      → All (λ y. R.view p.state (join stage y) ≢ none) files
      → All (λ y. R.view (install R stage backup x p).1.state (join stage y) ≢ none) files
  staged_others x files p o b staged new =
      All_others R L stage backup apart _ _ x files
        (λ y differ k gone. k (
          sym (
            staged-Install R L stage backup apart x y differ p _ o
              (install-Install R L stage backup x p o b apart staged))
          ∙ gone))
        new

  pub install_all-view :
      (files : List CleanPath) (p : Progress R.State) (q : CleanPath)
      → AreDistinct files
      → All (IsOutside stage) files
      → All (IsOutside backup) files
      → All (λ x. R.view p.state (join stage x) ≢ none) files
      → IsOutside stage q
      → IsOutside backup q
      → (for_each R (install R stage backup) files p).0 ≡ none
      → R.view (for_each R (install R stage backup) files p).1.state q
        ≡ (if mem q files then R.view p.state (join stage q) else R.view p.state q)
  unfolding for_each
  install_all-view [] p q _ _ _ _ in_project away = λ ok. refl
  install_all-view (x ∷ files) p q (new, distinct) (o, os) (b, bs) (staged, ss) in_project away =
      let r : Result (Progress R.State) = install R stage backup x p in
      let result = install-Install R L stage backup x p o b apart staged in
      then_ok
        (λ p1. R.view p1.state q ≡ (
          if path_eq q x || mem q files then R.view p.state (join stage q) else R.view p.state q))
        r (for_each R (install R stage backup) files)
        (λ ok rest.
          install_all-view files r.1 q distinct os bs (staged_others x files p o b staged new ss)
            in_project away rest
          ∙ turned x files p r q new o in_project away result ok)

  -- The loop over `transaction.deletes`.
  take_away-view :
      (relative : CleanPath) (p : Progress R.State) (r : Result (Progress R.State)) (q : CleanPath)
      → IsOutside backup q
      → Backup R backup relative p r
      → r.0 ≡ none
      → R.view r.1.state q ≡ (if path_eq q relative then none else R.view p.state q)
  take_away-view relative p r q away (inl (same, gone)) ok =
      same.views q ∙ ground (arith, gone ok, path_eq_iff q relative)
  take_away-view relative p r q away (inr (_, turn)) ok =
      turn.views q ∙ rw (outside-join backup q relative away) refl

  pub take_away_all-view :
      (paths : List CleanPath) (p : Progress R.State) (q : CleanPath)
      → IsOutside backup q
      → (for_each R (take_away R backup) paths p).0 ≡ none
      → R.view (for_each R (take_away R backup) paths p).1.state q
        ≡ (if mem q paths then none else R.view p.state q)
  unfolding for_each
  take_away_all-view [] p q away = λ ok. refl
  take_away_all-view (x ∷ paths) p q away =
      let r : Result (Progress R.State) = take_away R backup x p in
      then_ok
        (λ p1. R.view p1.state q ≡ (if path_eq q x || mem q paths then none else R.view p.state q))
        r (for_each R (take_away R backup) paths)
        (λ ok rest.
          take_away_all-view paths r.1 q away rest
          ∙ ground (arith, take_away-view x p r q away (take_away-Backup R L backup x p) ok))
