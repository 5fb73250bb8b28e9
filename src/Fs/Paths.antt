-- ===== src/Fs/Paths.antt =====
-- gx/internal/gen/fs/path.go. A clean path below the root is the list of its names, which the source
-- writes as one text with slashes; `joined` is that text. The separator is the slash (Unix).
pub mod Safety
pub mod Overlap
pub mod Members
use Prim.Native.Char.{Char, code}
use Prim.Native.String
use Prim.Native.String.{[], ◌∷◌}
use mathlib.Core.List as Lists
use gonex.Common.{String, List, Bool, true, false, Option, none, some, ◌||◌, ◌&&◌, ◌==◌, reverse}
use gonex.Common.{nat_eq, if◌then◌else◌}
use gonex.Common.Text.{has_prefix, is_blank}

abbrev pub CleanPath : Type 0
CleanPath = List String

abbrev pub path_eq : CleanPath → CleanPath → Bool
path_eq Lists.[] Lists.[] = true
path_eq Lists.[] (Lists.◌∷◌ y q) = false
path_eq (Lists.◌∷◌ x p) Lists.[] = false
path_eq (Lists.◌∷◌ x p) (Lists.◌∷◌ y q) = x == y && path_eq p q

-- `string(filepath.Separator)`
abbrev pub is_separator : Char → Bool
is_separator c = nat_eq (code c) b'/'

abbrev push : String → Char → String
push s c = String.◌++◌ s (c ∷ [])

split_from : String → String → List String
split_from part [] = Lists.◌∷◌ part Lists.[]
split_from part (c ∷ s) =
    let closed = split_from [] s in
    let longer = split_from (push part c) s in
    if is_separator c then Lists.◌∷◌ part closed else longer

-- strings.Split(s, "/")
unfoldable pub split : String → List String
unfolding split_from
split s = split_from [] s

-- One element of filepath.Clean of a relative path, on the names so far, the last one first: ".."
-- takes back a name, and stays where there is none.
abbrev pub clean_part : CleanPath → String → CleanPath
clean_part Lists.[] part =
    if is_blank part || part == "." then Lists.[] else Lists.◌∷◌ part Lists.[]
clean_part (Lists.◌∷◌ last names) part =
    if is_blank part || part == "."
    then Lists.◌∷◌ last names
    else if part == ".." && (if last == ".." then false else true)
    then names
    else Lists.◌∷◌ part (Lists.◌∷◌ last names)

unfoldable pub clean_parts : CleanPath → List String → CleanPath
clean_parts names Lists.[] = reverse names
clean_parts names (Lists.◌∷◌ part parts) = clean_parts (clean_part names part) parts

-- filepath.Clean of a relative path, by names; "." is the empty list
unfoldable pub clean : String → CleanPath
unfolding split clean_parts
clean s = clean_parts Lists.[] (split s)

-- filepath.IsAbs
abbrev pub is_abs : String → Bool
is_abs [] = false
is_abs (c ∷ s) = is_separator c

-- `clean == "." || clean == ".." || strings.HasPrefix(clean, "../")`
abbrev pub escapes : CleanPath → Bool
escapes Lists.[] = true
escapes (Lists.◌∷◌ name names) = name == ".."

-- cleanProjectRelative
unfoldable pub clean_project_relative : String → Option CleanPath
unfolding clean
clean_project_relative relative =
    let names = clean relative in if is_abs relative || escapes names then none else some names

-- The text of a clean path.
unfoldable pub joined : CleanPath → String
joined Lists.[] = []
joined (Lists.◌∷◌ name Lists.[]) = name
joined (Lists.◌∷◌ name (Lists.◌∷◌ next names)) =
    String.◌++◌ name (String.◌++◌ "/" (joined (Lists.◌∷◌ next names)))

-- pathOverlaps, of two clean paths: filepath.Clean leaves their texts as they are.
unfoldable pub path_overlaps : CleanPath → CleanPath → Bool
unfolding joined has_prefix
path_overlaps left right =
    joined left == joined right
    || has_prefix (joined left) (String.◌++◌ (joined right) "/")
    || has_prefix (joined right) (String.◌++◌ (joined left) "/")
