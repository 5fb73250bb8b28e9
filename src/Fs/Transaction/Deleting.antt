-- ===== src/Fs/Transaction/Deleting.antt =====
-- Delete: what it records, and that it changes no file.
use gonex.Common.{
  String, List, [], ◌∷◌, ◌++◌, ◌||◌, false, Option, none, some, ◌≡◌, inl, inr, refl, ◌∙◌, ap, arith,
  All-append, not, if_cases, option_cases,
}
use gonex.Fs.Paths.{CleanPath, path_eq, clean_project_relative}
use gonex.Fs.Paths.Members.{mem, AreDistinct, path_eq_sym, IsOutside}
use gonex.Fs.Root.{Root, IsLawful, Failure}
use gonex.Fs.Transaction.{Transaction, Result, add_delete, delete}
use gonex.Fs.Transaction.Views.{Anywhere, Ensures, IsQuiet}
use gonex.Fs.Transaction.Staging.{IsFree, check_delete-IsQuiet, check_delete_ensures}
use gonex.Fs.Transaction.Prepared.{IsPrepared, IsPrepared-view, Deleted}

pub mem-snoc :
    (q : CleanPath) (paths : List CleanPath) (x : CleanPath)
    → mem q (paths ++ x ∷ []) ≡ (mem q paths || path_eq q x)
mem-snoc q [] x = ground arith
mem-snoc q (p ∷ paths) x = ground (arith, mem-snoc q paths x)

append-AreDistinct :
    (paths : List CleanPath) (x : CleanPath)
    → mem x paths ≡ false
    → AreDistinct paths
    → AreDistinct (paths ++ x ∷ [])
append-AreDistinct [] x new h = (refl, tt)
append-AreDistinct (p ∷ paths) x new (once, h) = (
  mem-snoc p paths x ∙ ground (arith, path_eq_sym x p),
  append-AreDistinct paths x (ground arith) h,
)

module _ (R : Root) (L : IsLawful R) where
  add_delete-IsPrepared :
      (clean : CleanPath) (t : Transaction) (s : R.State) (r : Result R.State)
      → IsOutside t.stage clean
      → IsPrepared R t s
      → IsQuiet R Anywhere s r
      → Ensures (λ s. IsFree R L clean t) r
      → IsPrepared R (add_delete R clean t r).1 (add_delete R clean t r).2
  unfolding add_delete
  add_delete-IsPrepared clean t s (some e, s1) out h quiet free =
      IsPrepared-view R L t s s1 (λ q. quiet.views q tt) h
  add_delete-IsPrepared clean t s (none, s1) out h quiet free =
      let (undeleted, unwritten) = free.holds refl in
      let staged = (IsPrepared-view R L t s s1 (λ q. quiet.views q tt) h).staged in
      record {
        writes = h.writes;
        deletes = append-AreDistinct t.deletes clean undeleted h.deletes;
        disjoint = All-append _ t.deletes (clean ∷ []) h.disjoint (unwritten, tt);
        written_outside = h.written_outside;
        deleted_outside = All-append _ t.deletes (clean ∷ []) h.deleted_outside (out, tt);
        staged = staged;
      }

  add_delete-Deleted :
      (relative : String) (clean : CleanPath) (t : Transaction) (r : Result R.State)
      → clean_project_relative relative ≡ some clean
      → Deleted R relative t (add_delete R clean t r)
  unfolding add_delete
  add_delete-Deleted relative clean t (some e, s1) cleaned = inl (λ e. cc, refl)
  add_delete-Deleted relative clean t (none, s1) cleaned = inr (clean, cleaned, refl, refl)

  add_delete-state :
      (clean : CleanPath) (t : Transaction) (r : Result R.State) → (add_delete R clean t r).2 ≡ r.1
  unfolding add_delete
  add_delete-state clean t (some e, s1) = refl
  add_delete-state clean t (none, s1) = refl

  -- Delete keeps a transaction prepared and changes no file, staged or not; where it fails the
  -- transaction stays as it was, and else the clean path is recorded.
  pub delete_stages :
      (relative : String) (t : Transaction) (s : R.State) (q : CleanPath)
      → IsPrepared R t s
      → ((clean : CleanPath)
          → clean_project_relative relative ≡ some clean
          → IsOutside t.stage clean)
      → IsPrepared R (delete R relative t s).1 (delete R relative t s).2
        × (R.view (delete R relative t s).2 q ≡ R.view s q)
        × Deleted R relative t (delete R relative t s)
  unfolding delete
  delete_stages relative t s q prepared outside =
      let Good : Option Failure × Transaction × R.State → Type 0 =
        λ r. IsPrepared R r.1 r.2 × (R.view r.2 q ≡ R.view s q) × Deleted R relative t r in
      if_cases Good (not t.is_open) _ _ (λ closed. (prepared, refl, inl (λ e. cc, refl)))
        (λ opened.
          option_cases Good (clean_project_relative relative) _ _
            (λ clean cleaned.
              let quiet = check_delete-IsQuiet R L clean t s in
              (
                add_delete-IsPrepared clean t s _ (outside clean cleaned) prepared quiet
                    (check_delete_ensures R L clean t s),
                ap (λ s. R.view s q) (add_delete-state clean t _) ∙ quiet.views q tt,
                add_delete-Deleted relative clean t _ cleaned,
              ))
            (λ escaped. (prepared, refl, inl (λ e. cc, refl))))
