-- ===== src/Fs/Commit/Loops.antt =====
-- The loops of Commit, turn by turn: what is done can be taken back.
use mathlib.Core.Path.{fun_ext}
use gonex.Common.{
  String, List, [], ◌∷◌, false, none, some, ◌≡◌, ◌≢◌, ◌⊎◌, inl, inr, ◌∙◌, sym, arith, All,
}
use gonex.Fs.Paths.{CleanPath, path_eq}
use gonex.Fs.Paths.Members.{mem, AreDistinct, path_eq_sym}
use gonex.Fs.Paths.Members.{IsOutside, join-outside, join_eq}
use gonex.Fs.Root.{Root, IsLawful, join}
use gonex.Fs.Transaction.{Result, ◌>>◌}
use gonex.Fs.Commit.{Progress, install, take_away, for_each}
use gonex.Fs.Commit.Turns.{IsSame, IsBackedUp, IsPublished, Backup, Install}
use gonex.Fs.Commit.Backups.{take_away-Backup}
use gonex.Fs.Commit.Installs.{install-Install, staged_stays}
use gonex.Fs.Commit.Undo.{View, backed, IsUndoable, IsUndoable-moved_away, IsUndoable-moved_in}

module _ (R : Root) (L : IsLawful R) (stage backup : String) (apart : stage ≢ backup) where
  -- A path of the project that no turn has dealt with yet.
  pub record IsPending (p : Progress R.State) (x : CleanPath) : Type 0 where
    pub in_project : IsOutside stage x
    pub out : IsOutside backup x
    pub new : backed x p.backed_up ≡ false
    pub fresh : mem x p.installed ≡ false

  abbrev pub IsStaged : Progress R.State → CleanPath → Type 0
  IsStaged p x = R.view p.state (join stage x) ≢ none

  module _ (before : View) where
    abbrev pub CanUndo : Progress R.State → Type 0
    CanUndo p = IsUndoable stage backup before (R.view p.state) p.installed p.backed_up

    CanUndo-same : (p p1 : Progress R.State) → IsSame R p p1 → CanUndo p → CanUndo p1
    CanUndo-same p p1 same h = rw (fun_ext same.views, same.installs, same.backups) h

    CanUndo-backed_up :
        (relative : CleanPath) (p p1 : Progress R.State)
        → IsPending p relative
        → IsBackedUp R backup relative p p1
        → CanUndo p
        → CanUndo p1
    CanUndo-backed_up relative p p1 pending turn h =
        rw (fun_ext turn.views, turn.installs, turn.backups)
          (IsUndoable-moved_away stage backup before apart relative pending.in_project pending.out
            (R.view p.state) p.installed p.backed_up h turn.stood pending.new pending.fresh)

    CanUndo-published :
        (relative : CleanPath) (p p1 : Progress R.State)
        → IsOutside stage relative
        → IsOutside backup relative
        → R.view p.state relative ≡ none
        → IsPublished R stage relative p p1
        → CanUndo p
        → CanUndo p1
    CanUndo-published relative p p1 out out' gone turn h =
        rw (fun_ext turn.views, turn.installs, turn.backups)
          (IsUndoable-moved_in stage backup before apart relative out out' (R.view p.state)
            p.installed p.backed_up h gone)

    CanUndo-Backup :
        (relative : CleanPath) (p : Progress R.State) (r : Result (Progress R.State))
        → IsPending p relative
        → Backup R backup relative p r
        → CanUndo p
        → CanUndo r.1
    CanUndo-Backup relative p r pending (inl (same, _)) h = CanUndo-same p r.1 same h
    CanUndo-Backup relative p r pending (inr (_, turn)) h =
        CanUndo-backed_up relative p r.1 pending turn h

    CanUndo-Install :
        (relative : CleanPath) (p : Progress R.State) (r : Result (Progress R.State))
        → IsPending p relative
        → Install R stage backup relative p r
        → CanUndo p
        → CanUndo r.1
    CanUndo-Install relative p r pending (p1, inl same, inl (_, same')) h =
        CanUndo-same p1 r.1 same' (CanUndo-same p p1 same h)
    CanUndo-Install relative p r pending (p1, inl same, inr (_, gone, turn)) h =
        CanUndo-published relative p1 r.1 pending.in_project pending.out gone turn
          (CanUndo-same p p1 same h)
    CanUndo-Install relative p r pending (p1, inr away, inl (_, same')) h =
        CanUndo-same p1 r.1 same' (CanUndo-backed_up relative p p1 pending away h)
    CanUndo-Install relative p r pending (p1, inr away, inr (_, gone, turn)) h =
        CanUndo-published relative p1 r.1 pending.in_project pending.out gone turn
          (CanUndo-backed_up relative p p1 pending away h)

  module _ (relative x : CleanPath) (differ : path_eq x relative ≡ false) where
    IsPending-same : (p p1 : Progress R.State) → IsSame R p p1 → IsPending p x → IsPending p1 x
    IsPending-same p p1 same h = record {
      in_project = h.in_project;
      out = h.out;
      new = rw same.backups h.new;
      fresh = rw same.installs h.fresh;
    }

    IsPending-backed_up :
        (p p1 : Progress R.State)
        → IsBackedUp R backup relative p p1
        → IsPending p x
        → IsPending p1 x
    IsPending-backed_up p p1 turn h = record {
      in_project = h.in_project;
      out = h.out;
      new = rw turn.backups (ground (arith, h.new));
      fresh = rw turn.installs h.fresh;
    }

    IsPending-published :
        (p p1 : Progress R.State)
        → IsPublished R stage relative p p1
        → IsPending p x
        → IsPending p1 x
    IsPending-published p p1 turn h = record {
      in_project = h.in_project;
      out = h.out;
      new = rw turn.backups h.new;
      fresh = rw turn.installs (ground (arith, h.fresh));
    }

    IsPending-Backup :
        (p : Progress R.State) (r : Result (Progress R.State))
        → Backup R backup relative p r
        → IsPending p x
        → IsPending r.1 x
    IsPending-Backup p r (inl (same, _)) h = IsPending-same p r.1 same h
    IsPending-Backup p r (inr (_, turn)) h = IsPending-backed_up p r.1 turn h

    IsPending-begun :
        (p p1 : Progress R.State)
        → IsSame R p p1 ⊎ IsBackedUp R backup relative p p1
        → IsPending p x
        → IsPending p1 x
    IsPending-begun p p1 (inl same) h = IsPending-same p p1 same h
    IsPending-begun p p1 (inr turn) h = IsPending-backed_up p p1 turn h

    IsPending-Install :
        (p : Progress R.State) (r : Result (Progress R.State))
        → Install R stage backup relative p r
        → IsPending p x
        → IsPending r.1 x
    IsPending-Install p r (p1, from, inl (_, same)) h =
        IsPending-same p1 r.1 same (IsPending-begun p p1 from h)
    IsPending-Install p r (p1, from, inr (_, _, turn)) h =
        IsPending-published p1 r.1 turn (IsPending-begun p p1 from h)

    -- A turn leaves the staged files of the others.
    pub staged-Install :
        (p : Progress R.State) (r : Result (Progress R.State))
        → IsOutside stage relative
        → Install R stage backup relative p r
        → R.view r.1.state (join stage x) ≡ R.view p.state (join stage x)
    staged-Install p r out (p1, from, inl (_, same)) =
        same.views (join stage x)
        ∙ staged_stays R L stage backup relative p p1 x apart (join-outside stage x relative out)
            from
    staged-Install p r out (p1, from, inr (_, _, turn)) =
        turn.views (join stage x)
        ∙ rw (join-outside stage x relative out, join_eq stage x relative, differ)
            (staged_stays R L stage backup relative p p1 x apart (join-outside stage x relative out)
              from)

  pub All_others :
      (P Q : CleanPath → Type 0) (relative : CleanPath) (paths : List CleanPath)
      → ((x : CleanPath) → path_eq x relative ≡ false → P x → Q x)
      → mem relative paths ≡ false
      → All P paths
      → All Q paths
  All_others P Q relative [] h _ _ = tt
  All_others P Q relative (x ∷ paths) h new (k, ks) = (
    h x (ground (arith, path_eq_sym x relative)) k,
    All_others P Q relative paths h (ground arith) ks,
  )

  pub then_keeps :
      (C : Progress R.State → Type 0) (r : Result (Progress R.State))
      (next : Progress R.State → Result (Progress R.State))
      → C r.1
      → (C r.1 → C (next r.1).1)
      → C (r >> next).1
  unfolding ◌>>◌
  then_keeps C (none, p) next h k = k h
  then_keeps C (some e, p) next h k = h

  abbrev turn : CleanPath → Progress R.State → Result (Progress R.State)
  turn = install R stage backup

  -- A turn leaves what the later turns need.
  IsPending-others :
      (x : CleanPath) (files : List CleanPath) (p : Progress R.State)
      → IsOutside stage x
      → mem x files ≡ false
      → All (IsPending p) files
      → All (IsStaged p) files
      → Install R stage backup x p (turn x p)
      → All (IsPending (turn x p).1) files × All (IsStaged (turn x p).1) files
  IsPending-others x files p out new ps ss result = (
    All_others (IsPending p) (IsPending (turn x p).1) x files
        (λ y differ. IsPending-Install x y differ p (turn x p) result) new ps,
    All_others (IsStaged p) (IsStaged (turn x p).1) x files
        (λ y differ staged gone.
          staged (sym (staged-Install x y differ p (turn x p) out result) ∙ gone))
        new ss,
  )

  -- The loop over `files`.
  pub install_all-CanUndo :
      (before : View) (files : List CleanPath) (p : Progress R.State)
      → AreDistinct files
      → All (IsPending p) files
      → All (IsStaged p) files
      → CanUndo before p
      → CanUndo before (for_each R turn files p).1
  unfolding for_each
  install_all-CanUndo before [] p _ _ _ h = h
  install_all-CanUndo before (x ∷ files) p (new, distinct) (pending, ps) (staged, ss) h =
      let result =
        install-Install R L stage backup x p pending.in_project pending.out apart staged in
      let others = IsPending-others x files p pending.in_project new ps ss result in
      then_keeps (CanUndo before) (turn x p) (for_each R turn files)
        (CanUndo-Install before x p (turn x p) pending result h)
        (install_all-CanUndo before files (turn x p).1 distinct others.0 others.1)

  pub install_all-IsPending :
      (y : CleanPath) (files : List CleanPath) (p : Progress R.State)
      → mem y files ≡ false
      → AreDistinct files
      → All (IsPending p) files
      → All (IsStaged p) files
      → IsPending p y
      → IsPending (for_each R turn files p).1 y
  unfolding for_each
  install_all-IsPending y [] p _ _ _ _ h = h
  install_all-IsPending y (x ∷ files) p out (new, distinct) (pending, ps) (staged, ss) h =
      let result =
        install-Install R L stage backup x p pending.in_project pending.out apart staged in
      let others = IsPending-others x files p pending.in_project new ps ss result in
      then_keeps (λ p. IsPending p y) (turn x p) (for_each R turn files)
        (IsPending-Install x y (ground arith) p (turn x p) result h)
        (install_all-IsPending y files (turn x p).1 (ground arith) distinct others.0 others.1)

  -- The loop over `transaction.deletes`.
  pub take_away_all-CanUndo :
      (before : View) (paths : List CleanPath) (p : Progress R.State)
      → AreDistinct paths
      → All (IsPending p) paths
      → CanUndo before p
      → CanUndo before (for_each R (take_away R backup) paths p).1
  unfolding for_each
  take_away_all-CanUndo before [] p _ _ h = h
  take_away_all-CanUndo before (x ∷ paths) p (new, distinct) (pending, ps) h =
      let r : Result (Progress R.State) = take_away R backup x p in
      let result = take_away-Backup R L backup x p in
      then_keeps (CanUndo before) r (for_each R (take_away R backup) paths)
        (CanUndo-Backup before x p r pending result h)
        (take_away_all-CanUndo before paths r.1 distinct (
          All_others (IsPending p) (IsPending r.1) x paths
            (λ y differ. IsPending-Backup x y differ p r result) new ps))
