-- ===== src/Fs/Transaction/Prepared.antt =====
-- What Write and Delete keep true of a transaction, and what they leave of the project.
use mathlib.Core.Path.{fun_ext}
use gonex.Common.{
  ℕ, String, List, [], ◌∷◌, ◌++◌, true, false, Option, none, some, ◌≡◌, ◌≢◌, refl, ◌∙◌, sym, ap,
  subst, Bool-cases, arith, All, ◌⊎◌, inl, inr, not, if_cases, option_cases,
}
use gonex.Fs.Paths.{CleanPath, path_eq, clean_project_relative}
use gonex.Fs.Paths.Overlap.{path_eq_iff}
use gonex.Fs.Paths.Members.{mem, AreDistinct, path_eq_sym, IsOutside, outside-join, join_eq}
use gonex.Fs.Root.{Root, IsLawful, Failure, file, join}
use gonex.Fs.Transaction.{Transaction, Result, ◌>>◌, stage_file, check_write, add_write, write}
use gonex.Fs.Transaction.Views.{SameView, Anywhere, IsQuiet, then-IsQuiet, Ensures, then_ensures}
use gonex.Fs.Transaction.Staging.{
  IsFree, check_write-IsQuiet, stage_file-IsQuiet, stage_file_ensures, check_write_ensures,
}

module _ (R : Root) where
  -- What Write and Delete have staged: different files of the project, each file to be written being
  -- there below the directory of the staged files.
  pub record IsPrepared (t : Transaction) (s : R.State) : Type 0 where
    pub writes : AreDistinct t.writes
    pub deletes : AreDistinct t.deletes
    pub disjoint : All (λ x. mem x t.writes ≡ false) t.deletes
    pub written_outside : All (IsOutside t.stage) t.writes
    pub deleted_outside : All (IsOutside t.stage) t.deletes
    pub staged : All (λ x. R.view s (join t.stage x) ≢ none) t.writes

  -- The outcomes of Write: an error and the transaction as it was, or the clean path recorded and the
  -- content staged.
  abbrev pub Written :
      String → String → Transaction → Option Failure × Transaction × R.State → Type 0
  Written relative content t r =
      ((r.0 ≢ none) × (r.1 ≡ t))
      ⊎ ((clean : CleanPath) × (clean_project_relative relative ≡ some clean)
          × (r.0 ≡ none)
          × (r.1 ≡ record t { writes = clean ∷ t.writes })
          × (R.view r.2 (join t.stage clean) ≡ some (file content)))

  -- The outcomes of Delete.
  abbrev pub Deleted : String → Transaction → Option Failure × Transaction × R.State → Type 0
  Deleted relative t r =
      ((r.0 ≢ none) × (r.1 ≡ t))
      ⊎ ((clean : CleanPath) × (clean_project_relative relative ≡ some clean)
          × (r.0 ≡ none)
          × (r.1 ≡ record t { deletes = t.deletes ++ clean ∷ [] }))

module _ (R : Root) (L : IsLawful R) where
  pub IsPrepared-view :
      (t : Transaction) (s s1 : R.State)
      → ((q : CleanPath) → R.view s1 q ≡ R.view s q)
      → IsPrepared R t s
      → IsPrepared R t s1
  IsPrepared-view t s s1 same h = record {
    writes = h.writes;
    deletes = h.deletes;
    disjoint = h.disjoint;
    written_outside = h.written_outside;
    deleted_outside = h.deleted_outside;
    staged = rw (fun_ext same) h.staged;
  }

  Staging : CleanPath → String → Transaction → R.State → Result R.State → Type 0
  Staging clean content t s r =
      ((q : CleanPath) → path_eq q (join t.stage clean) ≡ false → R.view r.1 q ≡ R.view s q)
      × (IsFree R L clean t ⊎ SameView R s r.1)
      × (r.0 ≡ none → IsFree R L clean t × (R.view r.1 (join t.stage clean) ≡ some (file content)))

  checks_first :
      (C : Type 0) (s : R.State) (r : Result R.State) (next : R.State → Result R.State)
      → IsQuiet R Anywhere s r
      → Ensures (λ (s : R.State). C) r
      → C ⊎ SameView R s (r >> next).1
  unfolding ◌>>◌
  checks_first C s (none, s1) next quiet ok = inl (ok.holds refl)
  checks_first C s (some e, s1) next quiet ok = inr (λ q. quiet.views q tt)

  check_then_stage :
      (clean : CleanPath) (content : String) (permission : ℕ) (t : Transaction) (s : R.State)
      → Staging clean content t s
          (check_write R clean t s >> stage_file R (join t.stage clean) content permission)
  unfolding Staging
  check_then_stage clean content permission t s =
      let path = join t.stage clean in
      let At : CleanPath → Type 0 = λ q. path_eq q path ≡ false in
      let Free : R.State → Type 0 = λ s. IsFree R L clean t in
      let Done : R.State → Type 0 =
        λ s. IsFree R L clean t × (R.view s path ≡ some (file content)) in
      (
        (then-IsQuiet R At s (check_write R clean t s) (stage_file R path content permission)
            (record { views = λ q at. (check_write-IsQuiet R L clean t s).views q tt })
            (stage_file-IsQuiet R L path content permission)).views,
        checks_first (IsFree R L clean t) s (check_write R clean t s)
            (stage_file R path content permission) (check_write-IsQuiet R L clean t s)
            (check_write_ensures R L clean t s),
        (then_ensures Free Done (check_write R clean t s) (stage_file R path content permission)
            (check_write_ensures R L clean t s)
            (λ s1 free. record {
              holds = λ ok. (free, (stage_file_ensures R L path content permission s1).holds ok);
            })).holds,
      )

  others_staged :
      (stage : String) (clean : CleanPath) (s s1 : R.State) (paths : List CleanPath)
      → ((q : CleanPath) → path_eq q (join stage clean) ≡ false → R.view s1 q ≡ R.view s q)
      → mem clean paths ≡ false
      → All (λ x. R.view s (join stage x) ≢ none) paths
      → All (λ x. R.view s1 (join stage x) ≢ none) paths
  others_staged stage clean s s1 [] same new h = tt
  others_staged stage clean s s1 (x ∷ paths) same new (k, h) = (
    (λ gone. k (
        sym (same (join stage x) (join_eq stage x clean ∙ ground (arith, path_eq_sym x clean)))
        ∙ gone)),
    others_staged stage clean s s1 paths same (ground arith) h,
  )

  all_disjoint :
      (clean : CleanPath) (writes deletes : List CleanPath)
      → mem clean deletes ≡ false
      → All (λ x. mem x writes ≡ false) deletes
      → All (λ x. mem x (clean ∷ writes) ≡ false) deletes
  all_disjoint clean writes [] new h = tt
  all_disjoint clean writes (x ∷ deletes) new (k, h) =
      (ground (arith, path_eq_sym x clean), all_disjoint clean writes deletes (ground arith) h)

  add_write-IsPrepared :
      (clean : CleanPath) (content : String) (t : Transaction) (s : R.State) (r : Result R.State)
      → IsOutside t.stage clean
      → IsPrepared R t s
      → Staging clean content t s r
      → IsPrepared R (add_write R clean t r).1 (add_write R clean t r).2
  unfolding add_write Staging
  add_write-IsPrepared clean content t s (some e, s1) out h (same, inr all_same, staged) =
      IsPrepared-view t s s1 all_same h
  add_write-IsPrepared clean content t s (some e, s1) out h (same, inl (_, unwritten), staged) =
      record {
        writes = h.writes;
        deletes = h.deletes;
        disjoint = h.disjoint;
        written_outside = h.written_outside;
        deleted_outside = h.deleted_outside;
        staged = others_staged t.stage clean s s1 t.writes same unwritten h.staged;
      }
  add_write-IsPrepared clean content t s (none, s1) out h (same, _, staged) =
      let ((undeleted, unwritten), stands) = staged refl in
      record {
        writes = (unwritten, h.writes);
        deletes = h.deletes;
        disjoint = all_disjoint clean t.writes t.deletes undeleted h.disjoint;
        written_outside = (out, h.written_outside);
        deleted_outside = h.deleted_outside;
        staged = ((λ gone. cc), others_staged t.stage clean s s1 t.writes same unwritten h.staged);
      }

  add_write-Written :
      (relative : String) (clean : CleanPath) (content : String) (t : Transaction) (s : R.State)
      (r : Result R.State)
      → clean_project_relative relative ≡ some clean
      → Staging clean content t s r
      → Written R relative content t (add_write R clean t r)
  unfolding add_write Staging
  add_write-Written relative clean content t s (some e, s1) cleaned h = inl (λ e. cc, refl)
  add_write-Written relative clean content t s (none, s1) cleaned (_, _, staged) =
      inr (clean, cleaned, refl, refl, (staged refl).1)

  add_write-state :
      (clean : CleanPath) (t : Transaction) (r : Result R.State) → (add_write R clean t r).2 ≡ r.1
  unfolding add_write
  add_write-state clean t (some e, s1) = refl
  add_write-state clean t (none, s1) = refl

  listed_apart :
      (x y : CleanPath) (paths : List CleanPath)
      → mem x paths ≡ true
      → mem y paths ≡ false
      → path_eq x y ≡ false
  listed_apart x y paths h k = elim (Bool-cases (path_eq x y)) [
    | inl same ↦
        absurd
          (ground (arith, h, subst (λ z. mem z paths ≡ false) (sym ((path_eq_iff x y).0 same)) k))
    | inr differ ↦ differ
  ]

  add_write-view :
      (clean : CleanPath) (content : String) (t : Transaction) (s : R.State) (r : Result R.State)
      (q : CleanPath)
      → IsOutside t.stage q
      → Staging clean content t s r
      → R.view (add_write R clean t r).2 q ≡ R.view s q
  unfolding add_write Staging
  add_write-view clean content t s r q out h =
      ap (λ s. R.view s q) (add_write-state clean t r) ∙ h.0 q (outside-join t.stage q clean out)

  -- Write keeps a transaction prepared and leaves the files of the project alone, also where it fails;
  -- then the transaction stays as it was. Without an error the clean path is recorded, and the staged
  -- file holds the content. The path to be written must not lie in the directory of the staged files.
  pub write_stages :
      (relative content : String) (permission : ℕ) (t : Transaction) (s : R.State) (q : CleanPath)
      → IsPrepared R t s
      → ((clean : CleanPath)
          → clean_project_relative relative ≡ some clean
          → IsOutside t.stage clean)
      → IsOutside t.stage q
      → IsPrepared R
          (write R relative content permission t s).1
          (write R relative content permission t s).2
        × (R.view (write R relative content permission t s).2 q ≡ R.view s q)
        × Written R relative content t (write R relative content permission t s)
  unfolding write
  write_stages relative content permission t s q prepared outside out =
      let Good : Option Failure × Transaction × R.State → Type 0 =
        λ r. IsPrepared R r.1 r.2 × (R.view r.2 q ≡ R.view s q) × Written R relative content t r in
      if_cases Good (not t.is_open) _ _ (λ closed. (prepared, refl, inl (λ e. cc, refl)))
        (λ opened.
          option_cases Good (clean_project_relative relative) _ _
            (λ clean cleaned.
              let h = check_then_stage clean content permission t s in
              (
                add_write-IsPrepared clean content t s _ (outside clean cleaned) prepared h,
                add_write-view clean content t s _ q out h,
                add_write-Written relative clean content t s _ cleaned h,
              ))
            (λ escaped. (prepared, refl, inl (λ e. cc, refl))))

  staged_kept :
      (clean : CleanPath) (content : String) (t : Transaction) (s : R.State) (r : Result R.State)
      (x : CleanPath)
      → Staging clean content t s r
      → mem x t.writes ≡ true
      → R.view (add_write R clean t r).2 (join t.stage x) ≡ R.view s (join t.stage x)
  unfolding add_write Staging
  staged_kept clean content t s (e, s1) x (same, inr all_same, _) listed =
      ap (λ s. R.view s (join t.stage x)) (add_write-state clean t (e, s1))
      ∙ all_same (join t.stage x)
  staged_kept clean content t s (e, s1) x (same, inl (_, unwritten), _) listed =
      ap (λ s. R.view s (join t.stage x)) (add_write-state clean t (e, s1))
      ∙ same (join t.stage x)
          (join_eq t.stage x clean ∙ listed_apart x clean t.writes listed unwritten)

  -- Write leaves what is staged for the other paths.
  pub write-staged :
      (relative content : String) (permission : ℕ) (t : Transaction) (s : R.State) (x : CleanPath)
      → mem x t.writes ≡ true
      → R.view (write R relative content permission t s).2 (join t.stage x)
        ≡ R.view s (join t.stage x)
  unfolding write
  write-staged relative content permission t s x listed =
      let Good : Option Failure × Transaction × R.State → Type 0 =
        λ r. R.view r.2 (join t.stage x) ≡ R.view s (join t.stage x) in
      if_cases Good (not t.is_open) _ _ (λ closed. refl)
        (λ opened.
          option_cases Good (clean_project_relative relative) _ _
            (λ clean cleaned.
              staged_kept clean content t s _ x (check_then_stage clean content permission t s)
                listed)
            (λ escaped. refl))
