-- ===== src/Imports/Names.antt =====
-- What imports/service.py takes of `pathlib`: a text read as a path, its parts, and the text of a
-- path. A path from the root of the file system is the list of its parts.
pub mod RoundTrip
use Prim.Native.Char.{Char, code}
use Prim.Native.String.{String, [], ◌∷◌}
use Prim.Native.String
use text.Mathlib.Text.{◌==◌ as str_eq}
use most_sprite.Prelude.{
  ℕ, ◌+◌, Bool, true, false, not, ◌&&◌, ◌||◌, ◌==◌, leb, if◌then◌else◌, Option, none, some, List,
  [], ◌∷◌, ◌++◌, map,
}

abbrev pub FilePath : Type 0
FilePath = List String

prepend : Char → List String → List String
prepend c [] = (c ∷ []) ∷ []
prepend c (part ∷ parts) = (c ∷ part) ∷ parts

-- `text.split("/")`
split_slash : String → List String
unfolding prepend
split_slash [] = "" ∷ []
split_slash (c ∷ text) =
    let rest = split_slash text in if code c == b'/' then "" ∷ rest else prepend c rest

drop_empty : List String → List String
drop_empty [] = []
drop_empty (part ∷ parts) =
    let rest = drop_empty parts in if str_eq part "" || str_eq part "." then rest else part ∷ rest

-- `Path(text).parts`, without the root of an absolute path.
unfoldable pub parts : String → List String
unfolding split_slash drop_empty
parts text = drop_empty (split_slash text)

-- `Path(text).is_absolute()`
unfoldable pub is_absolute : String → Bool
is_absolute [] = false
is_absolute (c ∷ text) = code c == b'/'

-- `part in parts`
unfoldable pub contains : String → List String → Bool
contains part [] = false
contains part (other ∷ rest) = str_eq other part || contains part rest

-- `path.as_posix()` of a relative path.
unfoldable pub as_posix : List String → String
as_posix [] = "."
as_posix (part ∷ []) = part
as_posix (part ∷ next ∷ rest) = String.◌++◌ part ("/" ∷ as_posix (next ∷ rest))

-- `base / text`
unfoldable pub join : FilePath → String → FilePath
unfolding parts is_absolute
join base text = if is_absolute text then parts text else base ++ parts text

unfoldable pub path_eq : FilePath → FilePath → Bool
path_eq [] [] = true
path_eq (p ∷ ps) (q ∷ qs) = str_eq p q && path_eq ps qs
path_eq _ _ = false

-- `path.parents`, in another order.
unfoldable pub parents : FilePath → List FilePath
parents [] = []
parents (part ∷ path) = [] ∷ map (λ above. part ∷ above) (parents path)

unfoldable pub member : FilePath → List FilePath → Bool
unfolding path_eq
member path [] = false
member path (other ∷ rest) = path_eq path other || member path rest

-- `root in path.parents`
unfoldable pub has_parent : FilePath → FilePath → Bool
unfolding member parents
has_parent path root = member root (parents path)

-- `path.relative_to(root)`; `none` stands for a ValueError.
unfoldable pub relative_to : FilePath → FilePath → Option (List String)
relative_to path [] = some path
relative_to [] (p ∷ root) = none
relative_to (q ∷ path) (p ∷ root) =
    let rest = relative_to path root in if str_eq q p then rest else none

-- `path.name`
unfoldable pub name : FilePath → String
name [] = ""
name (part ∷ []) = part
name (part ∷ next ∷ rest) = name (next ∷ rest)

-- The code points of a text, with those of ASCII letters in lower case.
unfoldable pub lower_codes : String → List ℕ
lower_codes [] = []
lower_codes (c ∷ text) =
    (if leb b'A' (code c) && leb (code c) b'Z' then code c + 32 else code c) ∷ lower_codes text

same_codes : List ℕ → List ℕ → Bool
same_codes [] [] = true
same_codes (c ∷ cs) (d ∷ ds) = (c == d) && same_codes cs ds
same_codes _ _ = false

unfoldable pub ends_with : List ℕ → List ℕ → Bool
unfolding same_codes
ends_with [] suffix = same_codes [] suffix
ends_with (c ∷ cs) suffix = same_codes (c ∷ cs) suffix || ends_with cs suffix

-- `name.lower().endswith((".fits", ".fit", ".fits.fz", ".fit.fz"))`
unfoldable pub is_fits : String → Bool
unfolding lower_codes ends_with
is_fits text =
    let codes = lower_codes text in
    ends_with codes (lower_codes ".fits")
    || ends_with codes (lower_codes ".fit")
    || ends_with codes (lower_codes ".fits.fz")
    || ends_with codes (lower_codes ".fit.fz")
