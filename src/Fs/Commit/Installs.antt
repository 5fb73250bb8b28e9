-- ===== src/Fs/Commit/Installs.antt =====
-- A turn of the loop over the staged files, as a whole.
use gonex.Common.{
  String, ◌∷◌, false, none, some, ◌≡◌, ◌≢◌, refl, ◌∙◌, arith, ◌⊎◌, inl, inr, ap, sym, if_cases,
  eq_iff,
}
use gonex.Fs.Paths.{CleanPath, path_eq}
use gonex.Fs.Paths.Members.{path_eq_refl, path_eq_sym}
use gonex.Fs.Paths.Members.{IsOutside, outside-join}
use gonex.Fs.Root.{Root, IsLawful, install_failed, join}
use gonex.Fs.Transaction.{Result, ◌>>◌}
use gonex.Fs.Commit.{Progress, publish, install, take_away}
use gonex.Fs.Commit.Turns.{
  IsSame, IsSame-refl, IsSame-trans, IsBackedUp, IsPublished, Backup, Install,
}
use gonex.Fs.Commit.Backups.{revalidate-IsSame, make_parents-IsSame, take_away-Backup}

module _ (R : Root) (L : IsLawful R) where
  -- The turn up to the publication.
  Ready : String → CleanPath → Progress R.State → Result (Progress R.State) → Type 0
  Ready backup relative p r =
      (p1 : Progress R.State) × (IsSame R p p1 ⊎ IsBackedUp R backup relative p p1)
      × IsSame R p1 r.1
      × (r.0 ≡ none → R.view p1.state relative ≡ none)

  Ready-of_Backup :
      (backup : String) (relative : CleanPath) (p : Progress R.State)
      (r : Result (Progress R.State))
      → IsOutside backup relative
      → Backup R backup relative p r
      → Ready backup relative p r
  unfolding Ready
  Ready-of_Backup backup relative p r out (inl (same, gone)) =
      (p, inl (IsSame-refl R p), same, gone)
  Ready-of_Backup backup relative p r out (inr (e, h)) = (
    r.1,
    inr h,
    IsSame-refl R r.1,
    λ e.
        h.views relative
        ∙ rw (outside-join backup relative relative out, path_eq_refl relative) refl,
  )

  then-Ready :
      (backup : String) (relative : CleanPath) (p : Progress R.State)
      (r : Result (Progress R.State)) (next : Progress R.State → Result (Progress R.State))
      → Ready backup relative p r
      → ((p1 : Progress R.State) → IsSame R p1 (next p1).1)
      → Ready backup relative p (r >> next)
  unfolding Ready ◌>>◌
  then-Ready backup relative p (none, p2) next (p1, from, same, gone) quiet =
      (p1, from, IsSame-trans R p1 p2 (next p2).1 same (quiet p2), λ e. gone refl)
  then-Ready backup relative p (some e, p2) next h quiet = h

  pub staged_stays :
      (stage backup : String) (relative : CleanPath) (p p1 : Progress R.State) (q : CleanPath)
      → stage ≢ backup
      → path_eq (join stage q) relative ≡ false
      → IsSame R p p1 ⊎ IsBackedUp R backup relative p p1
      → R.view p1.state (join stage q) ≡ R.view p.state (join stage q)
  staged_stays stage backup relative p p1 q apart other_path (inl same) = same.views (join stage q)
  staged_stays stage backup relative p p1 q apart other_path (inr h) =
      h.views (join stage q) ∙ ground (arith, other_path, eq_iff stage backup)

  publish_next :
      (stage : String) (relative : CleanPath) (p1 p2 : Progress R.State)
      → IsSame R p1 p2
      → R.view p1.state (join stage relative) ≢ none
      → R.view p1.state relative ≡ none
      → (((publish R stage relative p2).0 ≢ none) × IsSame R p1 (publish R stage relative p2).1)
        ⊎ (((publish R stage relative p2).0 ≡ none)
            × (R.view p1.state relative ≡ none)
            × IsPublished R stage relative p1 (publish R stage relative p2).1)
  unfolding publish
  publish_next stage relative p1 p2 same staged gone =
      if_cases
        (λ (r : Result (Progress R.State)).
          ((r.0 ≢ none) × IsSame R p1 r.1)
          ⊎ ((r.0 ≡ none)
              × (R.view p1.state relative ≡ none)
              × IsPublished R stage relative p1 r.1))
        _ _ _
        (λ ok. inr (
          refl,
          gone,
          record {
            views = λ q.
                L.rename-view p2.state (join stage relative) relative q
                  (λ e. staged (sym (same.views (join stage relative)) ∙ e)) ok
                ∙ rw (same.views (join stage relative), same.views q) refl;
            installs = ap (λ l. relative ∷ l) same.installs;
            backups = same.backups;
          },
        ))
        (λ failed. inl (
          λ e. cc,
          IsSame-trans R p1 p2 _ same (record {
            views = λ q. L.rename_failed p2.state (join stage relative) relative q failed;
            installs = refl;
            backups = refl;
          }),
        ))

  publish-IsPublished :
      (stage backup : String) (relative : CleanPath) (p : Progress R.State)
      (r : Result (Progress R.State))
      → IsOutside stage relative
      → IsOutside backup relative
      → stage ≢ backup
      → R.view p.state (join stage relative) ≢ none
      → Ready backup relative p r
      → Install R stage backup relative p (r >> publish R stage relative)
  unfolding Ready ◌>>◌ publish
  publish-IsPublished stage backup relative p (some e, p2) out out' apart staged
        (p1, from, same, gone) =
      (p1, from, inl (λ e. cc, same))
  publish-IsPublished stage backup relative p (none, p2) out out' apart staged
        (p1, from, same, gone) =
      let there : R.view p1.state (join stage relative) ≢ none = λ e. staged (
        sym (
          staged_stays stage backup relative p p1 relative apart
            (path_eq_sym (join stage relative) relative ∙ outside-join stage relative relative out)
            from)
        ∙ e) in
      (p1, from, publish_next stage relative p1 p2 same there (gone refl))

  pub install-Install :
      (stage backup : String) (relative : CleanPath) (p : Progress R.State)
      → IsOutside stage relative
      → IsOutside backup relative
      → stage ≢ backup
      → R.view p.state (join stage relative) ≢ none
      → Install R stage backup relative p (install R stage backup relative p)
  unfolding install take_away
  install-Install stage backup relative p out out' apart staged =
      publish-IsPublished stage backup relative p _ out out' apart staged (
        then-Ready backup relative p _ _
          (then-Ready backup relative p _ _
            (then-Ready backup relative p _ _
              (Ready-of_Backup backup relative p _ out' (take_away-Backup R L backup relative p))
              (make_parents-IsSame R L install_failed relative))
            (revalidate-IsSame R L relative))
          (revalidate-IsSame R L (join stage relative)))
