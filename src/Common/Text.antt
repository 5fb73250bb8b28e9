-- ===== src/Common/Text.antt =====
-- What the code uses of Go's package strings, over native texts: TrimSpace, Fields, HasPrefix.
use Prim.Native.Nat.{ℕ}
use Prim.Native.Char.{Char, code}
use Prim.Native.String
use Prim.Native.String.{String, [], ◌∷◌}
use mathlib.Core.Path.{◌≡◌, refl}
use mathlib.Core.Bool.{Bool, true, false, ◌||◌, ◌&&◌}
use mathlib.Core.List.{List}
use mathlib.Core.List as Lists
use mathlib.Core.Path.{ap, ◌∙◌}
use native.Mathlib.Omega.{arith}
use gonex.Common.Tests.{leb, nat_eq, if◌then◌else◌}

-- unicode.IsSpace
abbrev pub is_space_code : ℕ → Bool
is_space_code c =
    (leb 9 c && leb c 13)
    || nat_eq c 32
    || nat_eq c 0x85
    || nat_eq c 0xa0
    || nat_eq c 0x1680
    || (leb 0x2000 c && leb c 0x200a)
    || nat_eq c 0x2028
    || nat_eq c 0x2029
    || nat_eq c 0x202f
    || nat_eq c 0x205f
    || nat_eq c 0x3000

abbrev pub is_space : Char → Bool
is_space c = is_space_code (code c)

-- `s == ""`
abbrev pub is_blank : String → Bool
is_blank [] = true
is_blank (c ∷ s) = false

unfoldable pub trim_left : String → String
trim_left [] = []
trim_left (c ∷ s) = let rest = trim_left s in if is_space c then rest else c ∷ s

abbrev cons_unless_blank : Char → String → String
cons_unless_blank c rest = if is_blank rest && is_space c then [] else c ∷ rest

unfoldable pub trim_right : String → String
trim_right [] = []
trim_right (c ∷ s) = cons_unless_blank c (trim_right s)

-- strings.TrimSpace
unfoldable pub trim_space : String → String
unfolding trim_left trim_right
trim_space s = trim_right (trim_left s)

abbrev snoc : String → Char → String
snoc s c = String.◌++◌ s (c ∷ [])

-- One word more, unless it is empty.
abbrev cons_word : String → List String → List String
cons_word w ws = if is_blank w then ws else Lists.◌∷◌ w ws

fields_from : String → String → List String
fields_from word [] = cons_word word Lists.[]
fields_from word (c ∷ s) =
    let closed = fields_from [] s in
    let longer = fields_from (snoc word c) s in
    elim (is_space c) [ true ↦ cons_word word closed | false ↦ longer ]

-- strings.Fields
unfoldable pub fields : String → List String
unfolding fields_from
fields s = fields_from [] s

-- strings.HasPrefix(s, prefix), by code points: on valid UTF-8 the same as by bytes.
unfoldable pub has_prefix : String → String → Bool
has_prefix s [] = true
has_prefix [] (p ∷ ps) = false
has_prefix (c ∷ s) (p ∷ ps) = nat_eq (code c) (code p) && has_prefix s ps

trim_right-trim_right : (s : String) → trim_right (trim_right s) ≡ trim_right s
unfolding trim_right
trim_right-trim_right [] = refl
trim_right-trim_right (c ∷ s) = ground (arith, trim_right-trim_right s)

-- The text does not begin with a space.
abbrev StartsDark : String → Type 0
StartsDark [] = Unit
StartsDark (c ∷ s) = is_space c ≡ false

trim_left-StartsDark : (s : String) → StartsDark (trim_left s)
unfolding trim_left
trim_left-StartsDark [] = tt
trim_left-StartsDark (c ∷ s) = ground (arith, trim_left-StartsDark s)

trim_left_of_StartsDark : (s : String) → StartsDark s → trim_left s ≡ s
unfolding trim_left
trim_left_of_StartsDark [] h = refl
trim_left_of_StartsDark (c ∷ s) h = ground arith

trim_right-StartsDark : (s : String) → StartsDark s → StartsDark (trim_right s)
unfolding trim_right
trim_right-StartsDark [] h = tt
trim_right-StartsDark (c ∷ s) h = ground arith

-- Trimming a second time changes nothing.
pub trim_space_idem : (s : String) → trim_space (trim_space s) ≡ trim_space s
unfolding trim_space
trim_space_idem s =
    ap trim_right
      (trim_left_of_StartsDark _ (trim_right-StartsDark (trim_left s) (trim_left-StartsDark s)))
    ∙ trim_right-trim_right (trim_left s)
