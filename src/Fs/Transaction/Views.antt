-- ===== src/Fs/Transaction/Views.antt =====
-- What a chain of calls leaves of the files: rules for the steps that change none, and for a chain
-- that ends without an error.
use gonex.Common.{
  Bool, true, false, none, some, ◌≡◌, refl, ◌∙◌, Option, String, List, [], ◌∷◌, not, if_cases,
  arith, eq_iff,
}
use gonex.Fs.Paths.{CleanPath}
use gonex.Fs.Paths.Overlap.{is_within}
use gonex.Fs.Root.{Root, IsLawful, Failure, cleanup_failed}
use gonex.Fs.Transaction.{Transaction, Result, ◌>>◌, checked, close, remove_backup, add_error}

module _ (R : Root) where
  -- The same files stand in both states.
  abbrev pub SameView : R.State → R.State → Type 0
  SameView s s1 = (q : CleanPath) → R.view s1 q ≡ R.view s q

  -- A piece of code has changed no file of a kind of paths.
  pub record IsQuiet (At : CleanPath → Type 0) (s : R.State) (r : Result R.State) : Type 0 where
    pub views : (q : CleanPath) → At q → R.view r.1 q ≡ R.view s q

  pub then-IsQuiet :
      (At : CleanPath → Type 0) (s : R.State) (r : Result R.State) (next : R.State → Result R.State)
      → IsQuiet At s r
      → ((s1 : R.State) → IsQuiet At s1 (next s1))
      → IsQuiet At s (r >> next)
  unfolding ◌>>◌
  then-IsQuiet At s (none, s1) next h k = record {
    views = λ q at. (k s1).views q at ∙ h.views q at;
  }
  then-IsQuiet At s (some e, s1) next h k = h

  pub checked-IsQuiet :
      (At : CleanPath → Type 0) (e : Failure) (s : R.State) (r : Bool × R.State)
      → ((q : CleanPath) → At q → R.view r.1 q ≡ R.view s q)
      → IsQuiet At s (checked e r)
  checked-IsQuiet At e s (true, s1) h = record { views = h }
  checked-IsQuiet At e s (false, s1) h = record { views = h }

-- What holds behind a piece of code that ends without an error.
pub record Ensures {ℓ} {S : Type ℓ} (C : S → Type 0) (r : Result S) : Type ℓ where
  pub holds : r.0 ≡ none → C r.1

pub then_ensures {ℓ} :
    {S : Type ℓ} (C D : S → Type 0) (r : Result S) (next : S → Result S)
    → Ensures C r
    → ((s : S) → C s → Ensures D (next s))
    → Ensures D (r >> next)
unfolding ◌>>◌
then_ensures C D (none, s) next h k = record { holds = λ ok. (k s (h.holds refl)).holds ok }
then_ensures C D (some e, s) next h k = record { holds = λ ok. cc }

pub last_ensures {ℓ} :
    {S : Type ℓ} (D : S → Type 0) (r : Result S) (next : S → Result S)
    → ((s : S) → Ensures D (next s))
    → Ensures D (r >> next)
last_ensures D r next k =
    then_ensures (λ s. Unit) D r next (record { holds = λ ok. tt }) (λ s h. k s)

-- Of any path.
abbrev pub Anywhere : CleanPath → Type 0
Anywhere q = Unit

-- What holds behind a chain of two pieces of code that ends without an error.
pub then_ok {ℓ κ} :
    {S : Type ℓ} (C : S → Type κ) (r : Result S) (next : S → Result S)
    → (r.0 ≡ none → (next r.1).0 ≡ none → C (next r.1).1)
    → (r >> next).0 ≡ none
    → C (r >> next).1
unfolding ◌>>◌
then_ok C (none, s) next h ok = h refl ok
then_ok C (some e, s) next h ok = cc

pub checked_ok {ℓ κ} :
    {S : Type ℓ} (C : S → Type κ) (e : Failure) (r : Bool × S)
    → (r.0 ≡ true → C r.1)
    → (checked e r).0 ≡ none
    → C (checked e r).1
checked_ok C e (true, s) h ok = h refl
checked_ok C e (false, s) h ok = cc

second_ok :
    (a b c : Bool)
    → add_error a cleanup_failed (add_error b cleanup_failed (add_error c cleanup_failed [])) ≡ []
    → b ≡ true
second_ok true true c h = refl
second_ok true false c h = cc
second_ok false b c h = cc

module _ (R : Root) (L : IsLawful R) where
  remove_backup-view :
      (backup : Option String) (s : R.State) (q : CleanPath)
      → ((name : String) → backup ≡ some name → is_within (name ∷ []) q ≡ false)
      → R.view (remove_backup R backup s).1 q ≡ R.view s q
  remove_backup-view none s q away = refl
  remove_backup-view (some name) s q away = L.remove_all-view s (name ∷ []) q (away name refl)

  -- Closing a transaction removes its own two directories and no file outside them.
  pub close-view :
      (t : Transaction) (s : R.State) (q : CleanPath)
      → is_within (t.stage ∷ []) q ≡ false
      → ((name : String) → t.backup ≡ some name → is_within (name ∷ []) q ≡ false)
      → R.view (close R t s).2 q ≡ R.view s q
  unfolding close
  close-view t s q in_project away =
      if_cases (λ (r : List Failure × Transaction × R.State). R.view r.2 q ≡ R.view s q)
        (not t.is_open) _ _ (λ closed. refl)
        (λ opened.
          L.close-view _ q
          ∙ remove_backup-view t.backup _ q away
          ∙ L.remove_all-view s (t.stage ∷ []) q in_project)

  pub close-is_open : (t : Transaction) (s : R.State) → (close R t s).1.is_open ≡ false
  unfolding close
  close-is_open t s = ground arith

  remove_backup-gone :
      (backup : String) (s : R.State) (x : CleanPath)
      → (remove_backup R (some backup) s).0 ≡ true
      → R.view (remove_backup R (some backup) s).1 (backup ∷ x) ≡ none
  remove_backup-gone backup s x ok =
      L.remove_all-gone s (backup ∷ []) (backup ∷ x) (ground (arith, eq_iff backup backup)) ok

  -- Closing a transaction without an error leaves nothing in the directory of its backups.
  pub close-backup :
      (t : Transaction) (backup : String) (s : R.State) (x : CleanPath)
      → t.is_open ≡ true
      → (close R (record t { backup = some backup }) s).0 ≡ []
      → R.view (close R (record t { backup = some backup }) s).2 (backup ∷ x) ≡ none
  unfolding close
  close-backup t backup s x is_open =
      if_cases
        (λ (r : List Failure × Transaction × R.State). r.0 ≡ [] → R.view r.2 (backup ∷ x) ≡ none)
        (not t.is_open) _ _ (λ closed ok. absurd (ground (arith, closed)))
        (λ opened ok.
          L.close-view _ (backup ∷ x)
          ∙ remove_backup-gone backup (R.remove_all s (t.stage ∷ [])).1 x (second_ok _ _ _ ok))
