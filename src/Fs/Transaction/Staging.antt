-- ===== src/Fs/Transaction/Staging.antt =====
-- Write and Delete: what they stage, and that they leave the files of the project alone.
use Prim.Native.String.{◌∷◌}
use gonex.Common.{
  ℕ, String, List, [], ◌∷◌, Bool, true, false, none, some, ◌≡◌, refl, ◌∙◌, arith, if◌then◌else◌,
  eq_iff, nat_eq, ap,
}
use gonex.Fs.Paths.{CleanPath, path_eq, joined, path_overlaps}
use gonex.Fs.Paths.Overlap.{path_eq_iff}
use gonex.Fs.Paths.Members.{mem, path_eq_sym}
use gonex.Fs.Root.{
  Root, IsLawful, Failure, file, staging_failed, dir, validate_root_path, validate_root_path-view,
  conflicts_with_delete, conflicts_with_write,
}
use gonex.Fs.Transaction.{
  Transaction, Result, checked, overlaps_any, guard, refuse_directory, check_delete, or_close,
  stage_file, check_write,
}
use gonex.Fs.Transaction.Views.{
  Anywhere, IsQuiet, then-IsQuiet, checked-IsQuiet, Ensures, then_ensures, last_ensures,
}

path_overlaps_self : (p q : CleanPath) → path_overlaps p q ≡ false → path_eq p q ≡ false
unfolding path_overlaps
path_overlaps_self p q h = ground (arith, path_eq_iff p q, eq_iff (joined p) (joined q))

overlaps_any-mem :
    (paths : List CleanPath) (q : CleanPath) → overlaps_any paths q ≡ false → mem q paths ≡ false
overlaps_any-mem [] q h = refl
overlaps_any-mem (p ∷ paths) q h =
    ground (arith, overlaps_any-mem paths q, path_overlaps_self p q, path_eq_sym p q)

guard_ok :
    {S : Type 0} (e : Failure) (refused : Bool) (s : S)
    → (guard e refused s).0 ≡ none
    → refused ≡ false
guard_ok e true s h = cc
guard_ok e false s h = refl

guard_state : {S : Type 0} (e : Failure) (refused : Bool) (s : S) → (guard e refused s).1 ≡ s
guard_state e true s = refl
guard_state e false s = refl

module _ (R : Root) (L : IsLawful R) where
  validate-IsQuiet : (p : CleanPath) (s : R.State) → IsQuiet R Anywhere s (validate_root_path R s p)
  validate-IsQuiet p s = record { views = λ q at. validate_root_path-view R L s p q }

  refuse_directory-view :
      (p : CleanPath) (s : R.State) (q : CleanPath)
      → R.view (refuse_directory R p s).1 q ≡ R.view s q
  unfolding refuse_directory
  refuse_directory-view p s q = ground (arith, L.lstat-view s p q)

  refuse_directory-IsQuiet :
      (p : CleanPath) (s : R.State) → IsQuiet R Anywhere s (refuse_directory R p s)
  refuse_directory-IsQuiet p s = record { views = λ q at. refuse_directory-view p s q }

  guard-IsQuiet :
      (e : Failure) (refused : Bool) (s : R.State) → IsQuiet R Anywhere s (guard e refused s)
  guard-IsQuiet e refused s = record {
    views = λ q at. ap (λ s. R.view s q) (guard_state e refused s);
  }

  pub check_write-IsQuiet :
      (clean : CleanPath) (t : Transaction) (s : R.State)
      → IsQuiet R Anywhere s (check_write R clean t s)
  unfolding check_write
  check_write-IsQuiet clean t s =
      then-IsQuiet R Anywhere s _ _
        (then-IsQuiet R Anywhere s _ _
          (then-IsQuiet R Anywhere s _ _ (validate-IsQuiet clean s)
            (refuse_directory-IsQuiet clean))
          (guard-IsQuiet conflicts_with_delete (overlaps_any t.deletes clean)))
        (guard-IsQuiet conflicts_with_write (overlaps_any t.writes clean))

  pub check_delete-IsQuiet :
      (clean : CleanPath) (t : Transaction) (s : R.State)
      → IsQuiet R Anywhere s (check_delete R clean t s)
  unfolding check_delete
  check_delete-IsQuiet clean t s =
      then-IsQuiet R Anywhere s _ _
        (then-IsQuiet R Anywhere s _ _
          (then-IsQuiet R Anywhere s _ _ (validate-IsQuiet clean s)
            (guard-IsQuiet conflicts_with_delete (overlaps_any t.deletes clean)))
          (guard-IsQuiet conflicts_with_write (overlaps_any t.writes clean)))
        (refuse_directory-IsQuiet clean)

  or_close-IsQuiet :
      (At : CleanPath → Type 0) (path : CleanPath) (s : R.State) (r : Result R.State)
      → IsQuiet R At s r
      → IsQuiet R At s (or_close R path r)
  unfolding or_close
  or_close-IsQuiet At path s (none, s1) h = h
  or_close-IsQuiet At path s (some e, s1) h = record {
    views = λ q at. L.close_file-view s1 path q ∙ h.views q at;
  }

  -- Staging one file changes no other.
  pub stage_file-IsQuiet :
      (path : CleanPath) (content : String) (permission : ℕ) (s : R.State)
      → IsQuiet R (λ q. path_eq q path ≡ false) s (stage_file R path content permission s)
  unfolding stage_file
  stage_file-IsQuiet path content permission s =
      let At : CleanPath → Type 0 = λ q. path_eq q path ≡ false in
      then-IsQuiet R At s _ _
        (then-IsQuiet R At s _ _
          (then-IsQuiet R At s _ _
            (then-IsQuiet R At s _ _
              (checked-IsQuiet R At staging_failed s (R.mkdir_all s (dir path))
                (λ q at. L.mkdir_all-view s (dir path) q))
              (λ s.
                checked-IsQuiet R At staging_failed s (R.open_file s path _)
                  (L.open_file-other s path _)))
            (λ s. or_close-IsQuiet At path s _ (
              checked-IsQuiet R At staging_failed s (R.write s path content)
                (L.write-other s path content))))
          (λ s.
            or_close-IsQuiet At path s _ (
              checked-IsQuiet R At staging_failed s (R.sync s path)
                (λ q at. L.sync-view s path q))))
        (λ s.
          checked-IsQuiet R At staging_failed s (R.close_file s path)
            (λ q at. L.close_file-view s path q))

  kept : (C : R.State → Type 0) (r : Result R.State) → C r.1 → Ensures C r
  kept C r h = record { holds = λ ok. h }

  checked_ensures :
      (C : R.State → Type 0) (e : Failure) (r : Bool × R.State)
      → (r.0 ≡ true → C r.1)
      → Ensures C (checked e r)
  checked_ensures C e (true, s) h = record { holds = λ ok. h refl }
  checked_ensures C e (false, s) h = record { holds = λ ok. cc }

  or_close_ensures :
      (C : R.State → Type 0) (path : CleanPath) (r : Result R.State)
      → Ensures C r
      → Ensures C (or_close R path r)
  unfolding or_close
  or_close_ensures C path (none, s) h = h
  or_close_ensures C path (some e, s) h = record { holds = λ ok. cc }

  -- A staged file holds its content.
  pub stage_file_ensures :
      (path : CleanPath) (content : String) (permission : ℕ) (s : R.State)
      → Ensures (λ s. R.view s path ≡ some (file content)) (stage_file R path content permission s)
  unfolding stage_file
  stage_file_ensures path content permission s =
      let Empty : R.State → Type 0 = λ s. R.view s path ≡ some (file "") in
      let Full : R.State → Type 0 = λ s. R.view s path ≡ some (file content) in
      then_ensures Full Full _ _
        (then_ensures Full Full _ _
          (then_ensures Empty Full _ _
            (last_ensures Empty _ _ (λ s.
              checked_ensures Empty staging_failed
                (R.open_file s path (if nat_eq permission 0 then 0o644 else permission))
                (L.open_file-view s path _)))
            (λ s h. or_close_ensures Full path _ (
              checked_ensures Full staging_failed (R.write s path content)
                (L.write-view s path content h))))
          (λ s h. or_close_ensures Full path _ (
            checked_ensures Full staging_failed (R.sync s path)
              (λ ok. L.sync-view s path path ∙ h))))
        (λ s h.
          checked_ensures Full staging_failed (R.close_file s path)
            (λ ok. L.close_file-view s path path ∙ h))

  guard_ensures :
      (C : R.State → Type 0) (e : Failure) (refused : Bool) (s : R.State)
      → (refused ≡ false → C s)
      → Ensures C (guard e refused s)
  guard_ensures C e true s h = record { holds = λ ok. cc }
  guard_ensures C e false s h = record { holds = λ ok. h refl }

  -- The path does not overlap what is staged.
  abbrev pub IsFree : CleanPath → Transaction → Type 0
  IsFree clean t = (mem clean t.deletes ≡ false) × (mem clean t.writes ≡ false)

  pub check_write_ensures :
      (clean : CleanPath) (t : Transaction) (s : R.State)
      → Ensures (λ s. IsFree clean t) (check_write R clean t s)
  unfolding check_write
  check_write_ensures clean t s =
      let First : R.State → Type 0 = λ s. mem clean t.deletes ≡ false in
      let Both : R.State → Type 0 = λ s. IsFree clean t in
      then_ensures First Both _ _
        (last_ensures First _ _ (λ s.
          guard_ensures First conflicts_with_delete (overlaps_any t.deletes clean) s
            (overlaps_any-mem t.deletes clean)))
        (λ s h.
          guard_ensures Both conflicts_with_write (overlaps_any t.writes clean) s
            (λ ok. (h, overlaps_any-mem t.writes clean ok)))

  pub check_delete_ensures :
      (clean : CleanPath) (t : Transaction) (s : R.State)
      → Ensures (λ s. IsFree clean t) (check_delete R clean t s)
  unfolding check_delete
  check_delete_ensures clean t s =
      let First : R.State → Type 0 = λ s. mem clean t.deletes ≡ false in
      let Both : R.State → Type 0 = λ s. IsFree clean t in
      then_ensures Both Both _ _
        (then_ensures First Both _ _
          (last_ensures First _ _ (λ s.
            guard_ensures First conflicts_with_delete (overlaps_any t.deletes clean) s
              (overlaps_any-mem t.deletes clean)))
          (λ s h.
            guard_ensures Both conflicts_with_write (overlaps_any t.writes clean) s
              (λ ok. (h, overlaps_any-mem t.writes clean ok))))
        (λ s h. kept Both (refuse_directory R clean s) h)
