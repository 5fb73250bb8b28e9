-- ===== src/Fs/Commit/Sorting.antt =====
-- sort.Strings keeps the set of the paths.
use gonex.Common.{List, [], ◌∷◌, false, ◌||◌, ◌≡◌, refl, ◌∙◌, ap, arith, All}
use gonex.Fs.Paths.{CleanPath, path_eq}
use gonex.Fs.Paths.Members.{mem, AreDistinct, path_eq_sym}
use gonex.Fs.Commit.{insert, sort}

mem-insert :
    (q p : CleanPath) (paths : List CleanPath)
    → mem q (insert p paths) ≡ (path_eq q p || mem q paths)
unfolding insert
mem-insert q p [] = refl
mem-insert q p (first ∷ paths) = ground (arith, mem-insert q p paths)

pub mem-sort : (q : CleanPath) (paths : List CleanPath) → mem q (sort paths) ≡ mem q paths
unfolding sort
mem-sort q [] = refl
mem-sort q (p ∷ paths) = mem-insert q p (sort paths) ∙ ap (λ b. path_eq q p || b) (mem-sort q paths)

insert-AreDistinct :
    (p : CleanPath) (paths : List CleanPath)
    → mem p paths ≡ false
    → AreDistinct paths
    → AreDistinct (insert p paths)
unfolding insert
insert-AreDistinct p [] new h = (refl, tt)
insert-AreDistinct p (first ∷ paths) new (once, h) =
    ground (arith, insert-AreDistinct p paths, mem-insert first p paths, path_eq_sym p first)

pub sort-AreDistinct : (paths : List CleanPath) → AreDistinct paths → AreDistinct (sort paths)
unfolding sort
sort-AreDistinct [] h = tt
sort-AreDistinct (p ∷ paths) (once, h) =
    insert-AreDistinct p (sort paths) (mem-sort p paths ∙ once) (sort-AreDistinct paths h)

module _ {κ} (P : CleanPath → Type κ) where
  All-insert : (p : CleanPath) (paths : List CleanPath) → P p → All P paths → All P (insert p paths)
  unfolding insert
  All-insert p [] k h = (k, tt)
  All-insert p (first ∷ paths) k (l, h) = ground (arith, All-insert p paths k h)

  pub All-sort : (paths : List CleanPath) → All P paths → All P (sort paths)
  unfolding sort
  All-sort [] h = tt
  All-sort (p ∷ paths) (k, h) = All-insert p (sort paths) k (All-sort paths h)
