-- ===== src/Imports/Paths/Containment.antt =====
-- What the paths that are let through have in common: they lie inside the import root.
use Prim.Native.String.{String}
use most_sprite.Prelude.{
  All-append, ℕ, Bool, true, false, not, ◌≡◌, inl, inr, refl, ap, subst, arith, Bool-cases,
  Option-cases, ◌≢◌, Option, some, List, [], ◌∷◌, ◌++◌, All,
}
use most_sprite.Domain.Errors.{ok, ok_injective, Result-cases}
use most_sprite.Imports.Names.{
  FilePath, parts, is_absolute, contains, as_posix, join, has_parent, relative_to, name, is_fits,
}
use most_sprite.Imports.Names.RoundTrip.{join-as_posix-relative_to, IsName}
use most_sprite.Imports.Paths.Within.{IsWithin, IsBelow, has_parent→IsBelow, is_inside→IsWithin}
use most_sprite.Imports.Paths.{
  FileSystem, is_inside, is_forbidden, resolve_source, recorded, candidate_file, candidates,
  some_files, candidate_files,
}

module _ (fs : FileSystem) (import_roots : ℕ → Option FilePath) where
  resolve_source_facts :
      (root_id : ℕ) (relative_path : String) (root source : FilePath)
      → resolve_source fs import_roots root_id relative_path ≡ ok (root, source)
      → (not (is_inside root source) ≡ false)
        × (fs.is_dir source ≡ true)
        × (fs.resolve (join root relative_path) ≡ some source)
        × (is_forbidden relative_path ≡ false)
  unfolding resolve_source
  resolve_source_facts root_id relative_path root source h = ground arith

module _ (fs : FileSystem) (root : FilePath) where
  -- A FITS file below the root, to which the recorded text leads.
  abbrev pub IsArtifact : FilePath × String → Type 0
  IsArtifact (file, recorded_path) =
      IsBelow root file
      × (fs.is_file file ≡ true)
      × (fs.resolve_loosely (join root recorded_path) ≡ file)
      × (is_fits (name (join root recorded_path)) ≡ true)

  recorded-All :
      (candidate : FilePath) (fits : Bool) (files : List (FilePath × String))
      → All IsName candidate
      → IsBelow root (fs.resolve_loosely candidate)
      → fs.is_file (fs.resolve_loosely candidate) ≡ true
      → is_fits (name candidate) ≡ fits
      → recorded fs root candidate (fs.resolve_loosely candidate) fits ≡ ok files
      → All IsArtifact files
  unfolding recorded
  recorded-All candidate false files names below file fits h =
      subst (All IsArtifact) (ok_injective h) tt
  recorded-All candidate true files names below file fits h =
      elim (Option-cases (relative_to candidate root)) [
        | inl missing ↦ absurd (ground arith)
        | inr (relative, found) ↦
            let back = join-as_posix-relative_to candidate root names found in
            let same : (fs.resolve_loosely candidate, as_posix relative) ∷ [] ≡ files =
              ground arith in
            subst (All IsArtifact) same
              ((below, file, ap fs.resolve_loosely back, rw back fits), tt)
      ]

  candidate_file-All :
      (candidate : FilePath) (is_file : Bool) (files : List (FilePath × String))
      → All IsName candidate
      → fs.is_file (fs.resolve_loosely candidate) ≡ is_file
      → candidate_file fs root candidate is_file ≡ ok files
      → All IsArtifact files
  unfolding candidate_file
  candidate_file-All candidate false files names file h = subst (All IsArtifact) (ok_injective h) tt
  candidate_file-All candidate true files names file h =
      elim (Bool-cases (has_parent (fs.resolve_loosely candidate) root)) [
        | inl inside ↦
            recorded-All candidate (is_fits (name candidate)) files names
              (has_parent→IsBelow _ root inside) file refl (ground arith)
        | inr outside ↦ absurd (ground arith)
      ]

  candidates_step :
      (candidate : FilePath) (rest : List FilePath) (files : List (FilePath × String))
      → candidates fs root (candidate ∷ rest) ≡ ok files
      → (file : List (FilePath × String)) × (others : List (FilePath × String)) × (candidate_file fs
            root candidate
            (fs.is_file (fs.resolve_loosely candidate))
          ≡ ok file)
        × (candidates fs root rest ≡ ok others)
        × (file ++ others ≡ files)
  unfolding candidates
  candidates_step candidate rest files h =
      elim (Result-cases
        (candidate_file fs root candidate (fs.is_file (fs.resolve_loosely candidate)))) [
          | inl (_, raised) ↦ absurd (ground arith)
          | inr (file, found) ↦ elim (Result-cases (candidates fs root rest)) [
            | inl (_, raised) ↦ absurd (ground arith)
            | inr (others, found_others) ↦ (file, others, found, found_others, ground arith)
          ]
        ]

  candidates-All :
      (entries : List FilePath) (files : List (FilePath × String))
      → All (All IsName) entries
      → candidates fs root entries ≡ ok files
      → All IsArtifact files
  unfolding candidates
  candidates-All [] files names h = subst (All IsArtifact) (ok_injective h) tt
  candidates-All (candidate ∷ rest) files names h =
      let (file, others, found, found_others, same) = candidates_step candidate rest files h in
      subst (All IsArtifact) same (
        All-append IsArtifact file others (candidate_file-All candidate _ file names.0 refl found)
          (candidates-All rest others names.1 found_others))

some_files_lem :
    (listed files : List (FilePath × String))
    → some_files listed ≡ ok files
    → (listed ≡ files) × (files ≢ [])
unfolding some_files
some_files_lem [] files h = absurd (cc)
some_files_lem (file ∷ listed) files h = ground arith

module _ (fs : FileSystem) (import_roots : ℕ → Option FilePath) where
  -- The directory that a request names is the root of its import or lies below it; the request names
  -- no parent and is not absolute; and every file that the directory is found to hold is a FITS file below the root, to which
  -- the text that is recorded for it leads. At least one is found. The entries of a directory have
  -- names that are neither empty nor "." and hold no slash.
  pub resolved_files-AreInside :
      (root_id : ℕ) (relative_path : String) (root source : FilePath)
      (files : List (FilePath × String))
      → All (All IsName) (fs.rglob source)
      → resolve_source fs import_roots root_id relative_path ≡ ok (root, source)
      → candidate_files fs root source ≡ ok files
      → IsWithin root source
        × (fs.is_dir source ≡ true)
        × (contains ".." (parts relative_path) ≡ false)
        × (is_absolute relative_path ≡ false)
        × All (IsArtifact fs root) files
        × (files ≢ [])
  unfolding candidate_files is_forbidden
  resolved_files-AreInside root_id relative_path root source files names resolved found =
      let (inside, dir, _, allowed) =
        resolve_source_facts fs import_roots root_id relative_path root source resolved in
      elim (Result-cases (candidates fs root (fs.rglob source))) [
        | inl (_, raised) ↦ absurd (ground arith)
        | inr (listed, found_listed) ↦
            let kept = some_files_lem listed files (ground arith) in
            (
              is_inside→IsWithin root source inside,
              dir,
              ground arith,
              ground arith,
              subst (All (IsArtifact fs root)) kept.0
                  (candidates-All fs root _ listed names found_listed),
              kept.1,
            )
      ]
