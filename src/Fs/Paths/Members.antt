-- ===== src/Fs/Paths/Members.antt =====
-- Lists of paths as sets: membership, and lists without repetitions.
use gonex.Common.{String, List, [], ◌∷◌, Bool, eq_iff, ◌∙◌, true, false, ◌||◌, ◌≡◌, refl, arith}
use gonex.Fs.Paths.{CleanPath, path_eq}
use gonex.Fs.Paths.Overlap.{path_eq_iff, is_within}

abbrev pub mem : CleanPath → List CleanPath → Bool
mem q [] = false
mem q (p ∷ paths) = path_eq q p || mem q paths

abbrev pub AreDistinct : List CleanPath → Type 0
AreDistinct [] = Unit
AreDistinct (p ∷ paths) = (mem p paths ≡ false) × AreDistinct paths

pub path_eq_refl : (p : CleanPath) → path_eq p p ≡ true
path_eq_refl p = (path_eq_iff p p).1 refl

pub path_eq_sym : (p q : CleanPath) → path_eq p q ≡ path_eq q p
path_eq_sym p q = ground (arith, path_eq_iff p q, path_eq_iff q p)

-- A path that does not lie in a directory of the root.
abbrev pub IsOutside : String → CleanPath → Type 0
IsOutside folder q = is_within (folder ∷ []) q ≡ false

pub outside-join :
    (folder : String) (q r : CleanPath) → IsOutside folder q → path_eq q (folder ∷ r) ≡ false
outside-join folder [] r h = refl
outside-join folder (name ∷ q) r h = ground (arith, eq_iff folder name, eq_iff name folder)

pub join_eq : (folder : String) (p q : CleanPath) → path_eq (folder ∷ p) (folder ∷ q) ≡ path_eq p q
join_eq folder p q = ground (arith, eq_iff folder folder)

pub join-outside :
    (folder : String) (p q : CleanPath) → IsOutside folder q → path_eq (folder ∷ p) q ≡ false
join-outside folder p q out = path_eq_sym (folder ∷ p) q ∙ outside-join folder q p out
