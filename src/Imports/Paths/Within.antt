-- ===== src/Imports/Paths/Within.antt =====
-- The tests on `path.parents` of imports/service.py, read as statements about paths.
use Prim.Native.String.{String}
use text.Mathlib.TextEquality.{eq_iff}
use mathlib.Core.List.{append-nil}
use most_sprite.Prelude.{
  true, false, not, ◌≡◌, inl, inr, refl, sym, arith, Bool-cases, List, [], ◌∷◌, ◌++◌, map, ◌∙◌,
}
use most_sprite.Imports.Names.{FilePath, path_eq, member, parents, has_parent}
use most_sprite.Imports.Paths.{is_inside}

-- The path leads on from the root.
abbrev pub IsWithin : FilePath → FilePath → Type 0
IsWithin root path = (rest : FilePath) × (path ≡ root ++ rest)

-- ... and by at least one part.
abbrev pub IsBelow : FilePath → FilePath → Type 0
IsBelow root path = (part : String) × (rest : FilePath) × (path ≡ root ++ (part ∷ rest))

path_eq→≡ : (path other : FilePath) → path_eq path other ≡ true → path ≡ other
unfolding path_eq
path_eq→≡ [] [] h = refl
path_eq→≡ (p ∷ ps) (q ∷ qs) h = ground (arith, eq_iff p q, path_eq→≡ ps qs)
path_eq→≡ [] (q ∷ qs) h = cc
path_eq→≡ (p ∷ ps) [] h = cc

member_below :
    (part p : String) (root : FilePath) (above : List FilePath)
    → member (p ∷ root) (map (λ path. part ∷ path) above) ≡ true
    → (p ≡ part) × (member root above ≡ true)
unfolding member path_eq
member_below part p root [] h = cc
member_below part p root (path ∷ above) h =
    ground (arith, eq_iff p part, member_below part p root above)

member-parents : (path root : FilePath) → member root (parents path) ≡ true → IsBelow root path
unfolding member parents
member-parents [] root h = cc
member-parents (part ∷ path) [] h = (part, path, refl)
member-parents (part ∷ path) (p ∷ root) h =
    let below = member_below part p root (parents path) (unfold path_eq in h) in
    let (q, rest, same) = member-parents path root below.1 in (q, rest, cc)

pub has_parent→IsBelow : (path root : FilePath) → has_parent path root ≡ true → IsBelow root path
unfolding has_parent
has_parent→IsBelow path root h = member-parents path root h

pub is_inside→IsWithin :
    (root path : FilePath) → not (is_inside root path) ≡ false → IsWithin root path
unfolding is_inside
is_inside→IsWithin root path h = elim (Bool-cases (path_eq path root)) [
  | inl same ↦ ([], path_eq→≡ path root same ∙ sym (append-nil root))
  | inr apart ↦
      let (part, rest, below) = has_parent→IsBelow path root (ground arith) in (part ∷ rest, below)
]
