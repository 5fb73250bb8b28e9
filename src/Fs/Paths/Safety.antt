-- ===== src/Fs/Paths/Safety.antt =====
-- A path that cleanProjectRelative accepts stays below the root, and cleaning it again changes nothing.
use Prim.Native.Char.{Char}
use Prim.Native.String
use Prim.Native.String.{[], ◌∷◌}
use mathlib.Core.List as Lists
use mathlib.Core.List.{reverse-cons}
use text.Mathlib.TextLemmas.{nil-append, cons-append, append_assoc, append-nil}
use gonex.Common.{
  String, Bool, true, false, none, some, ◌||◌, ◌==◌, ◌≡◌, refl, ◌≢◌, ◌⊎◌, inl, inr, arith, eq_iff,
  if◌then◌else◌, All, ap, ◌∙◌,
}
use gonex.Common.Text.{is_blank}
use gonex.Fs.Paths.{
  CleanPath, is_separator, push, split_from, split, clean_part, clean_parts, clean, is_abs, escapes,
  clean_project_relative, joined,
}

abbrev pub HasNoSeparator : String → Type 0
HasNoSeparator [] = Unit
HasNoSeparator (c ∷ s) = (is_separator c ≡ false) × HasNoSeparator s

-- One name of a directory: not "", "." or "..", and with no slash in it.
abbrev pub IsName : String → Type 0
IsName part = (is_blank part ≡ false) × (part ≢ ".") × (part ≢ "..") × HasNoSeparator part

HasNoSeparator-push :
    (s : String) (c : Char) → HasNoSeparator s → is_separator c ≡ false → HasNoSeparator (push s c)
HasNoSeparator-push [] c _ p = rw nil-append (p, tt)
HasNoSeparator-push (d ∷ s) c (q, h) p = rw cons-append (q, HasNoSeparator-push s c h p)

split_from-HasNoSeparator :
    (part s : String) → HasNoSeparator part → All HasNoSeparator (split_from part s)
unfolding split_from
split_from-HasNoSeparator part [] h = (h, tt)
split_from-HasNoSeparator part (c ∷ s) h = ground (
  arith,
  split_from-HasNoSeparator [] s tt,
  split_from-HasNoSeparator (push part c) s,
  HasNoSeparator-push part c h,
)

-- The first name of the path, which stands last in the reversed list, is "..".
abbrev starts_above : CleanPath → Bool
starts_above Lists.[] = false
starts_above (Lists.◌∷◌ name Lists.[]) = name == ".."
starts_above (Lists.◌∷◌ name (Lists.◌∷◌ next names)) = starts_above (Lists.◌∷◌ next names)

-- The reversed names so far start with "..", or all are names of directories.
abbrev IsStack : CleanPath → Type 0
IsStack names = (starts_above names ≡ true) ⊎ All IsName names

clean_part-IsStack :
    (names : CleanPath) (part : String)
    → HasNoSeparator part
    → IsStack names
    → IsStack (clean_part names part)
clean_part-IsStack Lists.[] part h k = ground (arith, eq_iff part ".", eq_iff part "..")
clean_part-IsStack (Lists.◌∷◌ last Lists.[]) part h k =
    ground (arith, eq_iff part ".", eq_iff part "..", eq_iff last "..")
clean_part-IsStack (Lists.◌∷◌ last (Lists.◌∷◌ next names)) part h k =
    ground (arith, eq_iff part ".", eq_iff part "..", eq_iff last "..")

All-reverse_aux :
    (names more : CleanPath)
    → All IsName names
    → All IsName more
    → All IsName (Lists.reverse_aux names more)
All-reverse_aux Lists.[] more _ k = k
All-reverse_aux (Lists.◌∷◌ x xs) more (p, h) k = All-reverse_aux xs (Lists.◌∷◌ x more) h (p, k)

escapes-reverse_aux :
    (names more : CleanPath)
    → starts_above names ≡ true
    → escapes (Lists.reverse_aux names more) ≡ true
escapes-reverse_aux Lists.[] more h = cc
escapes-reverse_aux (Lists.◌∷◌ x Lists.[]) more h = h
escapes-reverse_aux (Lists.◌∷◌ x (Lists.◌∷◌ y names)) more h =
    escapes-reverse_aux (Lists.◌∷◌ y names) (Lists.◌∷◌ x more) h

clean_parts-IsStack :
    (names parts : CleanPath)
    → All HasNoSeparator parts
    → IsStack names
    → (escapes (clean_parts names parts) ≡ true) ⊎ All IsName (clean_parts names parts)
unfolding clean_parts
clean_parts-IsStack names Lists.[] _ (inl h) = inl (escapes-reverse_aux names Lists.[] h)
clean_parts-IsStack names Lists.[] _ (inr h) = inr (All-reverse_aux names Lists.[] h tt)
clean_parts-IsStack names (Lists.◌∷◌ part parts) (h, hs) k =
    clean_parts-IsStack (clean_part names part) parts hs (clean_part-IsStack names part h k)

clean-IsStack : (s : String) → (escapes (clean s) ≡ true) ⊎ All IsName (clean s)
unfolding clean split
clean-IsStack s =
    clean_parts-IsStack Lists.[] (split s) (split_from-HasNoSeparator [] s tt) (inr tt)

accepted-stays :
    (absolute : Bool) (cleaned names : CleanPath)
    → (escapes cleaned ≡ true) ⊎ All IsName cleaned
    → (if absolute || escapes cleaned then none else some cleaned) ≡ some names
    → (names ≢ Lists.[]) × All IsName names × (absolute ≡ false) × (cleaned ≡ names)
accepted-stays true cleaned names k h = cc
accepted-stays false Lists.[] names k h = cc
accepted-stays false (Lists.◌∷◌ x xs) names k h = ground arith

-- A path that cleanProjectRelative accepts is a list of one or more names of directories, none of
-- them "", "." or ".." and none with a slash: joined to the root it stays below the root.
pub clean_project_relative_stays :
    (relative : String) (names : CleanPath)
    → clean_project_relative relative ≡ some names
    → (names ≢ Lists.[]) × All IsName names
unfolding clean_project_relative
clean_project_relative_stays relative names h =
    let (full, named, _, _) =
      accepted-stays (is_abs relative) (clean relative) names (clean-IsStack relative) h in
    (full, named)

push-append : (part s : String) (c : Char) → String.◌++◌ (push part c) s ≡ String.◌++◌ part (c ∷ s)
push-append part s c =
    append_assoc part (c ∷ []) s
    ∙ ap (λ t. String.◌++◌ part t) (cons-append c [] s ∙ ap (λ t. c ∷ t) (nil-append s))

split_from-name :
    (part name : String)
    → HasNoSeparator name
    → split_from part name ≡ Lists.◌∷◌ (String.◌++◌ part name) Lists.[]
unfolding split_from
split_from-name part [] h = rw (append-nil part) refl
split_from-name part (c ∷ s) (p, h) = rw (p, split_from-name (push part c) s h, push-append) refl

split_from-append :
    (part name rest : String)
    → HasNoSeparator name
    → split_from part (String.◌++◌ name (String.◌++◌ "/" rest))
      ≡ Lists.◌∷◌ (String.◌++◌ part name) (split_from [] rest)
unfolding split_from
split_from-append part [] rest h =
    rw (nil-append, append-nil part, cons-append _ [] rest, nil-append rest) refl
split_from-append part (c ∷ s) rest (p, h) =
    rw (cons-append c s, p, split_from-append (push part c) s rest h, push-append) refl

pub split-joined :
    (names : CleanPath) → names ≢ Lists.[] → All IsName names → split (joined names) ≡ names
unfolding split joined
split-joined Lists.[] full h = absurd (full refl)
split-joined (Lists.◌∷◌ x Lists.[]) full ((_, _, _, p), h) =
    split_from-name [] x p ∙ rw (nil-append x) refl
split-joined (Lists.◌∷◌ x (Lists.◌∷◌ y names)) full ((_, _, _, p), h) =
    split_from-append [] x (joined (Lists.◌∷◌ y names)) p
    ∙ rw (nil-append x, split-joined (Lists.◌∷◌ y names) (λ e. cc) h) refl

clean_part_of_IsName :
    (names : CleanPath) (part : String) → IsName part → clean_part names part ≡ Lists.◌∷◌ part names
clean_part_of_IsName Lists.[] part h = ground (arith, eq_iff part ".")
clean_part_of_IsName (Lists.◌∷◌ last names) part h =
    ground (arith, eq_iff part ".", eq_iff part "..")

clean_parts_of_IsName :
    (names parts : CleanPath)
    → All IsName parts
    → clean_parts names parts ≡ Lists.reverse_aux names parts
unfolding clean_parts
clean_parts_of_IsName names Lists.[] _ = refl
clean_parts_of_IsName names (Lists.◌∷◌ part parts) (h, hs) =
    rw (clean_part_of_IsName names part h) (clean_parts_of_IsName (Lists.◌∷◌ part names) parts hs)

is_abs-joined : (names : CleanPath) → All IsName names → is_abs (joined names) ≡ false
unfolding joined
is_abs-joined Lists.[] h = refl
is_abs-joined (Lists.◌∷◌ [] names) ((h, _, _, _), _) = cc
is_abs-joined (Lists.◌∷◌ (c ∷ s) Lists.[]) ((_, _, _, (p, _)), _) = p
is_abs-joined (Lists.◌∷◌ (c ∷ s) (Lists.◌∷◌ y names)) ((_, _, _, (p, _)), _) =
    rw (cons-append c s) p

escapes_of_IsName :
    (names : CleanPath) → names ≢ Lists.[] → All IsName names → escapes names ≡ false
escapes_of_IsName Lists.[] full _ = absurd (full refl)
escapes_of_IsName (Lists.◌∷◌ x names) full h = ground (arith, eq_iff x "..")

-- What cleanProjectRelative returns it accepts again, unchanged.
pub clean_project_relative_again :
    (relative : String) (names : CleanPath)
    → clean_project_relative relative ≡ some names
    → clean_project_relative (joined names) ≡ some names
unfolding clean_project_relative clean
clean_project_relative_again relative names h =
    let (full, named) = clean_project_relative_stays relative names h in
    rw
      (
        is_abs-joined names named,
        split-joined names full named,
        clean_parts_of_IsName Lists.[] names named,
        escapes_of_IsName names full named,
      )
      refl
