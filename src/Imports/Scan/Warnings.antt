-- ===== src/Imports/Scan/Warnings.antt =====
-- What the warnings of an inspection say of the files.
use Prim.Native.String.{String}
use most_sprite.Prelude.{
  ℕ, ◌≤◌, Bool, false, ◌||◌, Bool-cases, List, [], ◌∷◌, ◌++◌, ◌≡◌, ◌↔◌, ◌∙◌, refl, arith, inl, inr,
}
use most_sprite.Instruments.{Role, RawDescriptor}
use most_sprite.Imports.Scan.{
  ImportWarning, blocking_calibration, count_of, requirements, low_counts, few_flats, unknown_paths,
  unclassified, warnings_of, same_role,
}

-- `any(warning["blocking_calibration"] for warning in warnings)`
unfoldable pub any_blocking : List ImportWarning → Bool
unfolding blocking_calibration
any_blocking [] = false
any_blocking (warning ∷ warnings) = blocking_calibration warning || any_blocking warnings

-- Enough frames for a calibration.
abbrev pub HasEnough : List RawDescriptor → Type 0
HasEnough items =
    (3 ≤ count_of Role.bias items)
    × (10 ≤ count_of Role.flat items)
    × (1 ≤ count_of Role.thar items)
    × (1 ≤ count_of Role.alignment items)

others_harmless :
    (flats : ℕ) (paths : List String) → any_blocking (few_flats flats ++ unclassified paths) ≡ false
unfolding any_blocking few_flats unclassified blocking_calibration
others_harmless flats [] = ground arith
others_harmless flats (path ∷ paths) = ground arith

unknown_paths-nil :
    (items : List RawDescriptor) → (unknown_paths items ≡ []) ↔ (count_of Role.unknown items ≡ 0)
unfolding unknown_paths count_of
unknown_paths-nil [] = (λ _. refl, λ _. refl)
unknown_paths-nil (item ∷ items) = elim (Bool-cases (same_role item.role Role.unknown)) [
  | inl e ↦ rw e (λ h. absurd (cc), λ h. absurd (omega arith))
  | inr e ↦ rw e (
    λ h. omega (arith, (unknown_paths-nil items).0 h),
    λ h. (unknown_paths-nil items).1 (omega arith),
  )
]

module _ (items : List RawDescriptor) (rest : List ImportWarning) where
  low_counts-blocking :
      any_blocking rest ≡ false
      → any_blocking (low_counts requirements items ++ rest) ≡ false
      → HasEnough items
  unfolding any_blocking low_counts requirements blocking_calibration
  low_counts-blocking h k = ground arith

  low_counts-harmless : HasEnough items → low_counts requirements items ++ rest ≡ rest
  unfolding low_counts requirements
  low_counts-harmless h = ground arith

  low_counts-nil : low_counts requirements items ++ rest ≡ [] → HasEnough items × (rest ≡ [])
  unfolding low_counts requirements
  low_counts-nil h = ground arith

rest-nil :
    (flats : ℕ) (paths : List String)
    → 10 ≤ flats
    → few_flats flats ++ unclassified paths ≡ []
    → (20 ≤ flats) × (paths ≡ [])
unfolding few_flats unclassified
rest-nil flats [] h k = (ground arith, refl)
rest-nil flats (path ∷ paths) h k = absurd (ground arith)

many_flats :
    (flats : ℕ) (paths : List String)
    → 20 ≤ flats
    → paths ≡ []
    → few_flats flats ++ unclassified paths ≡ []
unfolding few_flats unclassified
many_flats flats [] h k = ground arith
many_flats flats (path ∷ paths) h k = absurd (ground arith)

-- A warning blocks the calibration exactly when there are fewer than 3 BIAS, 10 FLAT, 1 THAR or 1
-- ALIGNMENT frames. There is no warning exactly when there are as many, at least 20 FLAT frames, and
-- no file that is UNKNOWN.
pub warnings_of_iff :
    (items : List RawDescriptor)
    → ((any_blocking (warnings_of items) ≡ false) ↔ HasEnough items)
      × ((warnings_of items ≡ [])
          ↔ (HasEnough items × (20 ≤ count_of Role.flat items) × (count_of Role.unknown items ≡ 0)))
unfolding warnings_of
warnings_of_iff items =
    let flats = count_of Role.flat items in
    let paths = unknown_paths items in
    let rest = few_flats flats ++ unclassified paths in
    let harmless = others_harmless flats paths in
    (
      (
        low_counts-blocking items rest harmless,
        λ enough. rw (low_counts-harmless items rest enough) harmless,
      ),
      (
        λ none_left.
            let (enough, nothing) = low_counts-nil items rest none_left in
            let (many, known) = rest-nil flats paths enough.1 nothing in
            (enough, many, (unknown_paths-nil items).0 known),
        λ h.
            low_counts-harmless items rest h.0
            ∙ many_flats flats paths h.1 ((unknown_paths-nil items).1 h.2),
      ),
    )
