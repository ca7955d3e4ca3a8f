-- ===== src/Imports/Names/RoundTrip.antt =====
-- A path that is written as a text is read back.
use Prim.Native.Char.{code}
use Prim.Native.String.{String, [], ◌∷◌}
use Prim.Native.String
use text.Mathlib.TextEquality.{eq_iff}
use text.Mathlib.TextLemmas.{nil-append, cons-append, append-nil}
use most_sprite.Prelude.{
  ◌≡◌, ◌≢◌, refl, sym, ap, subst, ◌∙◌, arith, some, List, [], ◌∷◌, ◌++◌, All, false,
}
use most_sprite.Imports.Names.{
  split_slash, drop_empty, parts, as_posix, is_absolute, join, relative_to, FilePath,
}

abbrev pub NoSlash : String → Type 0
NoSlash [] = Unit
NoSlash (c ∷ s) = (code c ≢ b'/') × NoSlash s

-- The name of an entry of a directory.
abbrev pub IsName : String → Type 0
IsName part = (part ≢ "") × (part ≢ ".") × NoSlash part

split_slash_of_name : (part : String) → NoSlash part → split_slash part ≡ part ∷ []
unfolding split_slash
split_slash_of_name [] h = refl
split_slash_of_name (c ∷ part) (h, hs) = ground (arith, split_slash_of_name part hs)

split_slash-append :
    (part rest : String)
    → NoSlash part
    → split_slash (String.◌++◌ part ("/" ∷ rest)) ≡ part ∷ split_slash rest
unfolding split_slash
split_slash-append [] rest h = rw nil-append
split_slash-append (c ∷ part) rest (h, hs) =
    rw cons-append (ground (arith, split_slash-append part rest hs))

drop_empty_keeps :
    (part : String) (rest : List String)
    → IsName part
    → drop_empty (part ∷ rest) ≡ part ∷ drop_empty rest
unfolding drop_empty
drop_empty_keeps part rest h = ground (arith, eq_iff part "", eq_iff part ".")

parts-as_posix : (path : List String) → All IsName path → parts (as_posix path) ≡ path
unfolding parts as_posix
parts-as_posix [] h = refl
parts-as_posix (part ∷ []) (h, _) = rw (split_slash_of_name part h.2) (drop_empty_keeps part [] h)
parts-as_posix (part ∷ next ∷ rest) (h, hs) =
    rw (split_slash-append part (as_posix (next ∷ rest)) h.2) (
      drop_empty_keeps part (split_slash (as_posix (next ∷ rest))) h
      ∙ ap (λ path. part ∷ path) (parts-as_posix (next ∷ rest) hs))

relative_of_name : (part rest : String) → IsName part → is_absolute (String.◌++◌ part rest) ≡ false
unfolding is_absolute
relative_of_name [] rest h = absurd (h.0 refl)
relative_of_name (c ∷ part) rest h = rw cons-append (ground (arith, h.2.0))

relative-as_posix : (path : List String) → All IsName path → is_absolute (as_posix path) ≡ false
unfolding as_posix
relative-as_posix [] h = unfold is_absolute in refl
relative-as_posix (part ∷ []) (h, _) = rw (← append-nil part) (relative_of_name part "" h)
relative-as_posix (part ∷ next ∷ rest) (h, hs) = relative_of_name part _ h

join-as_posix :
    (root path : List String) → All IsName path → join root (as_posix path) ≡ root ++ path
unfolding join
join-as_posix root path names = rw (relative-as_posix path names, parts-as_posix path names)

pub relative_to-append :
    (path root : FilePath) {rest : List String}
    → relative_to path root ≡ some rest
    → path ≡ root ++ rest
unfolding relative_to
relative_to-append path [] found = cc
relative_to-append [] (p ∷ root) found = cc
relative_to-append (q ∷ path) (p ∷ root) {rest} found =
    ground (arith, eq_iff q p, relative_to-append path root {rest = rest})

All-rest : (root rest : List String) → All IsName (root ++ rest) → All IsName rest
All-rest [] rest h = h
All-rest (part ∷ root) rest h = All-rest root rest h.1

-- The text that is recorded for a file below a directory leads from the directory back to the file,
-- where the parts of its path are names: neither empty, nor ".", and without a slash.
pub join-as_posix-relative_to :
    (path root : FilePath) {rest : List String}
    → All IsName path
    → relative_to path root ≡ some rest
    → join root (as_posix rest) ≡ path
join-as_posix-relative_to path root {rest} names found =
    let same = relative_to-append path root found in
    join-as_posix root rest (All-rest root rest (subst (All IsName) same names)) ∙ sym same
