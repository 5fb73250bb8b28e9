-- ===== src/Fs/Commit/Turns.antt =====
-- What a turn of Commit's loops does to the root and to the lists of what can be taken back.
use gonex.Common.{String, ◌∷◌, none, some, ◌≡◌, ◌≢◌, refl, ◌∙◌, ◌⊎◌, inl, inr, if◌then◌else◌, sym}
use gonex.Fs.Paths.{CleanPath, path_eq}
use gonex.Fs.Root.{Root, join}
use gonex.Fs.Transaction.{Result, ◌>>◌}
use gonex.Fs.Commit.{Progress}

module _ (R : Root) where
  -- The second progress is the first one, but for directories and for what the system counts.
  pub record IsSame (p p1 : Progress R.State) : Type 0 where
    pub views : (q : CleanPath) → R.view p1.state q ≡ R.view p.state q
    pub installs : p1.installed ≡ p.installed
    pub backups : p1.backed_up ≡ p.backed_up

  pub IsSame-refl : (p : Progress R.State) → IsSame p p
  IsSame-refl p = record { views = λ q. refl; installs = refl; backups = refl }

  pub IsSame-trans : (p p1 p2 : Progress R.State) → IsSame p p1 → IsSame p1 p2 → IsSame p p2
  IsSame-trans p p1 p2 h k = record {
    views = λ q. k.views q ∙ h.views q;
    installs = k.installs ∙ h.installs;
    backups = k.backups ∙ h.backups;
  }

  -- `relative` stood at its place and now stands in the directory of the backups.
  pub record IsBackedUp (backup : String) (relative : CleanPath) (p p1 : Progress R.State)
      : Type 0 where
    pub stood : R.view p.state relative ≢ none
    pub views :
        (q : CleanPath)
        → R.view p1.state q ≡ (
            if path_eq q (join backup relative)
            then R.view p.state relative
            else if path_eq q relative
            then none
            else R.view p.state q)
    pub installs : p1.installed ≡ p.installed
    pub backups :
        p1.backed_up
        ≡ record { backup = join backup relative; destination = relative } ∷ p.backed_up

  -- The staged file stands at its place.
  pub record IsPublished (stage : String) (relative : CleanPath) (p p1 : Progress R.State)
      : Type 0 where
    pub views :
        (q : CleanPath)
        → R.view p1.state q ≡ (
            if path_eq q relative
            then R.view p.state (join stage relative)
            else if path_eq q (join stage relative)
            then none
            else R.view p.state q)
    pub installs : p1.installed ≡ relative ∷ p.installed
    pub backups : p1.backed_up ≡ p.backed_up

  -- The result of looking for what stands at `relative` and backing it up.
  abbrev pub Backup : String → CleanPath → Progress R.State → Result (Progress R.State) → Type 0
  Backup backup relative p r =
      (IsSame p r.1 × (r.0 ≡ none → R.view p.state relative ≡ none))
      ⊎ ((r.0 ≡ none) × IsBackedUp backup relative p r.1)

  -- The result of a turn of the first loop.
  abbrev pub Install :
      String → String → CleanPath → Progress R.State → Result (Progress R.State) → Type 0
  Install stage backup relative p r =
      (p1 : Progress R.State) × (IsSame p p1 ⊎ IsBackedUp backup relative p p1)
      × (((r.0 ≢ none) × IsSame p1 r.1)
          ⊎ ((r.0 ≡ none) × (R.view p1.state relative ≡ none) × IsPublished stage relative p1 r.1))

  pub quiet_first {κ} :
      (C : Progress R.State → Result (Progress R.State) → Type κ)
      → ((p p1 : Progress R.State) (r : Result (Progress R.State)) → IsSame p p1 → C p1 r → C p r)
      → ((p p1 : Progress R.State) → IsSame p p1 → (e : _) → C p (some e, p1))
      → (p : Progress R.State) (r : Result (Progress R.State))
        (next : Progress R.State → Result (Progress R.State))
      → IsSame p r.1
      → ((p1 : Progress R.State) → C p1 (next p1))
      → C p (r >> next)
  unfolding ◌>>◌
  quiet_first C moves fails p (none, p1) next same h = moves p p1 (next p1) same (h p1)
  quiet_first C moves fails p (some e, p1) next same h = fails p p1 same e

  pub Backup-moves :
      (backup : String) (relative : CleanPath) (p p1 : Progress R.State)
      (r : Result (Progress R.State))
      → IsSame p p1
      → Backup backup relative p1 r
      → Backup backup relative p r
  Backup-moves backup relative p p1 r same (inl (h, k)) =
      inl (IsSame-trans p p1 r.1 same h, λ e. sym (same.views relative) ∙ k e)
  Backup-moves backup relative p p1 r same (inr (e, h)) = inr (
    e,
    record {
      stood = λ gone. h.stood (same.views relative ∙ gone);
      views = λ q. rw (h.views q, same.views relative, same.views q) refl;
      installs = h.installs ∙ same.installs;
      backups = h.backups ∙ rw same.backups refl;
    },
  )
