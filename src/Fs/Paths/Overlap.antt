-- ===== src/Fs/Paths/Overlap.antt =====
-- pathOverlaps compares texts; on clean paths this is a comparison of the lists of names.
use Prim.Native.Char.{Char, code}
use Prim.Native.String
use Prim.Native.String.{[], ◌∷◌}
use mathlib.Core.List as Lists
use text.Mathlib.TextEquality.{Char-path}
use text.Mathlib.TextLemmas.{
  nil-append, cons-append, append_assoc, append-nil, cons-eq-cons, nil≢cons, cons≢nil,
}
use gonex.Common.{
  String, Bool, true, false, ◌||◌, ◌&&◌, ◌==◌, ◌≡◌, refl, ◌≢◌, ◌↔◌, inl, inr, Bool-cases, arith,
  eq_iff, All, sym, ap, ◌∙◌, nat_eq,
}
use gonex.Common.Text.{has_prefix}
use gonex.Fs.Paths.{CleanPath, path_eq, split, joined, path_overlaps}
use gonex.Fs.Paths.Safety.{HasNoSeparator, IsName, split-joined}

-- `names` starts with the names of `start`.
abbrev pub is_within : CleanPath → CleanPath → Bool
is_within Lists.[] names = true
is_within (Lists.◌∷◌ x start) Lists.[] = false
is_within (Lists.◌∷◌ x start) (Lists.◌∷◌ y names) = x == y && is_within start names

-- As `is_within`, with one name more at least.
abbrev is_below : CleanPath → CleanPath → Bool
is_below Lists.[] Lists.[] = false
is_below Lists.[] (Lists.◌∷◌ y names) = true
is_below (Lists.◌∷◌ x start) Lists.[] = false
is_below (Lists.◌∷◌ x start) (Lists.◌∷◌ y names) = x == y && is_below start names

abbrev rest_text : CleanPath → String
rest_text Lists.[] = []
rest_text (Lists.◌∷◌ x names) = String.◌++◌ "/" (joined (Lists.◌∷◌ x names))

joined-cons :
    (x : String) (names : CleanPath) → joined (Lists.◌∷◌ x names) ≡ String.◌++◌ x (rest_text names)
unfolding joined
joined-cons x Lists.[] = sym (append-nil x)
joined-cons x (Lists.◌∷◌ y names) = refl

eq_cons : (c d : Char) (s t : String) → (c ∷ s == d ∷ t) ≡ (nat_eq (code c) (code d) && s == t)
eq_cons c d s t = ground (
  arith,
  eq_iff (c ∷ s) (d ∷ t),
  eq_iff s t,
  cons-eq-cons {x = c} {y = d} {xs = s} {ys = t},
  Char-path c d,
)

nil_eq_cons : (d : Char) (t : String) → ("" == d ∷ t) ≡ false
nil_eq_cons d t = elim (Bool-cases ("" == d ∷ t)) [
  | inl e ↦ absurd (nil≢cons ((eq_iff "" (d ∷ t)).0 e))
  | inr e ↦ e
]

cons_eq_nil : (c : Char) (s : String) → (c ∷ s == "") ≡ false
cons_eq_nil c s = elim (Bool-cases (c ∷ s == "")) [
  | inl e ↦ absurd (cons≢nil ((eq_iff (c ∷ s) "").0 e))
  | inr e ↦ e
]

-- Behind a name comes nothing or a separator, so a text starts with the other name and a separator
-- exactly if the first names are equal.
has_prefix-names :
    (x y : String) (names : CleanPath) (more : String)
    → HasNoSeparator x
    → HasNoSeparator y
    → has_prefix (String.◌++◌ x (rest_text names)) (String.◌++◌ y (String.◌++◌ "/" more))
      ≡ (x == y && has_prefix (rest_text names) (String.◌++◌ "/" more))
unfolding has_prefix
has_prefix-names [] [] names more _ _ = rw (nil-append, nil-append) refl
has_prefix-names [] (d ∷ y) Lists.[] more _ (q, k) = rw (cons-append d y, nil_eq_cons d y) refl
has_prefix-names [] (d ∷ y) (Lists.◌∷◌ z names) more _ (q, k) =
    rw (cons-append d y, nil_eq_cons d y, nil-append, cons-append _ [] (joined (Lists.◌∷◌ z names)))
      (ground arith)
has_prefix-names (c ∷ x) [] names more (p, h) _ =
    rw (cons-append c x, cons_eq_nil c x, nil-append, cons-append _ [] more) (ground arith)
has_prefix-names (c ∷ x) (d ∷ y) names more (p, h) (q, k) =
    rw (cons-append c x, cons-append d y)
      (rw eq_cons (ground (arith, has_prefix-names x y names more h k)))

slash-cancel : (s t : String) → has_prefix (String.◌++◌ "/" s) (String.◌++◌ "/" t) ≡ has_prefix s t
unfolding has_prefix
slash-cancel s t = rw (cons-append _ [] s, cons-append _ [] t, nil-append, nil-append) refl

-- The text of the names behind the first one, with a slash behind it.
abbrev after_first : CleanPath → String
after_first Lists.[] = []
after_first (Lists.◌∷◌ x names) = String.◌++◌ (joined (Lists.◌∷◌ x names)) "/"

joined-slash :
    (x : String) (names : CleanPath)
    → String.◌++◌ (joined (Lists.◌∷◌ x names)) "/"
      ≡ String.◌++◌ x (String.◌++◌ "/" (after_first names))
unfolding joined
joined-slash x Lists.[] = ap (λ t. String.◌++◌ x t) (sym (append-nil "/"))
joined-slash x (Lists.◌∷◌ y names) = rw (append_assoc x, append_assoc "/") refl

eq_sym : (x y : String) → (x == y) ≡ (y == x)
eq_sym x y = ground (arith, eq_iff x y, eq_iff y x)

has_prefix-rest_text :
    (names start : CleanPath)
    → All IsName names
    → All IsName start
    → has_prefix (rest_text names) (String.◌++◌ "/" (after_first start)) ≡ is_below start names
unfolding has_prefix
has_prefix-rest_text Lists.[] Lists.[] _ _ = refl
has_prefix-rest_text Lists.[] (Lists.◌∷◌ y start) _ _ =
    rw (cons-append _ [] (after_first (Lists.◌∷◌ y start))) refl
has_prefix-rest_text (Lists.◌∷◌ x names) Lists.[] _ _ = rw (slash-cancel _ "") refl
has_prefix-rest_text (Lists.◌∷◌ x names) (Lists.◌∷◌ y start) ((_, _, _, h), hs) ((_, _, _, k), ks) =
    rw
      (
        slash-cancel,
        joined-slash y start,
        joined-cons x names,
        has_prefix-names x y names (after_first start) h k,
        has_prefix-rest_text names start hs ks,
        eq_sym x y,
      )
      refl

has_prefix-joined :
    (names start : CleanPath)
    → names ≢ Lists.[]
    → start ≢ Lists.[]
    → All IsName names
    → All IsName start
    → has_prefix (joined names) (String.◌++◌ (joined start) "/") ≡ is_below start names
has_prefix-joined Lists.[] start full full' h k = absurd (full refl)
has_prefix-joined (Lists.◌∷◌ x names) Lists.[] full full' h k = absurd (full' refl)
has_prefix-joined (Lists.◌∷◌ x names) (Lists.◌∷◌ y start) full full' h k =
    sym (slash-cancel _ _) ∙ has_prefix-rest_text (Lists.◌∷◌ x names) (Lists.◌∷◌ y start) h k

pub path_eq_iff : (p q : CleanPath) → (path_eq p q ≡ true) ↔ (p ≡ q)
path_eq_iff Lists.[] Lists.[] = ground arith
path_eq_iff Lists.[] (Lists.◌∷◌ y q) = ground arith
path_eq_iff (Lists.◌∷◌ x p) Lists.[] = ground arith
path_eq_iff (Lists.◌∷◌ x p) (Lists.◌∷◌ y q) = ground (arith, eq_iff x y, path_eq_iff p q)

is_within-is_below :
    (p q : CleanPath)
    → (path_eq p q || is_below q p || is_below p q) ≡ (is_within p q || is_within q p)
is_within-is_below Lists.[] Lists.[] = refl
is_within-is_below Lists.[] (Lists.◌∷◌ y q) = refl
is_within-is_below (Lists.◌∷◌ x p) Lists.[] = refl
is_within-is_below (Lists.◌∷◌ x p) (Lists.◌∷◌ y q) =
    ground (arith, is_within-is_below p q, eq_sym x y)

joined-injective :
    (p q : CleanPath)
    → p ≢ Lists.[]
    → q ≢ Lists.[]
    → All IsName p
    → All IsName q
    → joined p ≡ joined q
    → p ≡ q
joined-injective p q full full' h k e =
    sym (split-joined p full h) ∙ ap split e ∙ split-joined q full' k

joined-eq :
    (p q : CleanPath)
    → p ≢ Lists.[]
    → q ≢ Lists.[]
    → All IsName p
    → All IsName q
    → (joined p == joined q) ≡ path_eq p q
joined-eq p q full full' h k =
    ground
      (arith, eq_iff (joined p) (joined q), path_eq_iff p q, joined-injective p q full full' h k)

-- Of two clean paths, pathOverlaps holds exactly if one of them is the other or lies below it.
pub path_overlaps_iff :
    (left right : CleanPath)
    → left ≢ Lists.[]
    → right ≢ Lists.[]
    → All IsName left
    → All IsName right
    → path_overlaps left right ≡ (is_within left right || is_within right left)
unfolding path_overlaps
path_overlaps_iff left right full full' h k =
    rw
      (
        joined-eq left right full full' h k,
        has_prefix-joined left right full full' h k,
        has_prefix-joined right left full' full k h,
      )
      (is_within-is_below left right)
