-- ===== src/Imports/Scan.antt =====
-- `_scan` of backend/src/most_sprite/imports/service.py: the files of a directory, described by the
-- adapter of their instrument. The digest of the manifest (SHA-256 of a JSON text) is a parameter.
pub mod Truthful
pub mod Warnings
use Prim.Native.String.{String}
use most_sprite.Prelude.{
  ℕ, ◌+◌, Bool, true, false, ◌&&◌, ◌||◌, ltb, leb, if◌then◌else◌, Option, List, [], ◌∷◌, ◌++◌, map,
  count_if,
}
use most_sprite.Domain.{DataMode}
use most_sprite.Domain.Errors.{Result, ok, err, ◌>>=◌}
use most_sprite.Instruments.{Role, Stokes, RawDescriptor, ScienceGroup, InstrumentAdapter}
use most_sprite.Imports.Names.{FilePath}
use most_sprite.Imports.Paths.{FileSystem, candidate_files}

-- An entry of the inventory, as far as the import reads it.
pub record InventoryRecord : Type 0 where
  pub relative_path : String
  pub size : ℕ
  pub sha256 : String
  pub role : Role
  pub detector : String
  pub mode : Option DataMode
  pub stokes : Option Stokes
  pub sub_index : Option ℕ
  pub exposure_time : ℕ

-- `manifest_record`
unfoldable pub manifest_record : RawDescriptor → InventoryRecord
manifest_record d = record {
  relative_path = d.relative_path;
  size = d.size;
  sha256 = d.sha256;
  role = d.role;
  detector = d.detector;
  mode = d.mode;
  stokes = d.stokes;
  sub_index = d.sub_index;
  exposure_time = d.exposure_time;
}

-- What the manifest says of a file.
pub record StableRecord : Type 0 where
  pub relative_path : String
  pub size : ℕ
  pub sha256 : String
  pub role : Role
  pub detector : String
  pub stokes : Option Stokes
  pub sub_index : Option ℕ

unfoldable pub stable : InventoryRecord → StableRecord
stable item = record {
  relative_path = item.relative_path;
  size = item.size;
  sha256 = item.sha256;
  role = item.role;
  detector = item.detector;
  stokes = item.stokes;
  sub_index = item.sub_index;
}

-- `_manifest_digest`, with the digest of the list as an argument.
unfoldable pub manifest_digest : (List StableRecord → String) → List InventoryRecord → String
unfolding stable
manifest_digest digest items = digest (map stable items)

pub data ImportWarning : Type 0 where
  count_low : Role → ℕ → ℕ → ImportWarning
  flat_count_below_recommended : ℕ → ImportWarning
  unclassified_artifacts : List String → ImportWarning

-- `blocking_calibration`
unfoldable pub blocking_calibration : ImportWarning → Bool
blocking_calibration (count_low role actual minimum) = true
blocking_calibration _ = false

same_role : Role → Role → Bool
same_role Role.reference_only Role.reference_only = true
same_role Role.bias Role.bias = true
same_role Role.flat Role.flat = true
same_role Role.thar Role.thar = true
same_role Role.alignment Role.alignment = true
same_role Role.science Role.science = true
same_role Role.unknown Role.unknown = true
same_role _ _ = false

-- `counts.get(role, 0)`
unfoldable pub count_of : Role → List RawDescriptor → ℕ
unfolding same_role
count_of role [] = 0
count_of role (item ∷ items) = (if same_role item.role role then 1 else 0) + count_of role items

unfoldable pub requirements : List (Role × ℕ)
requirements = (Role.bias, 3) ∷ (Role.flat, 10) ∷ (Role.thar, 1) ∷ (Role.alignment, 1) ∷ []

low_counts : List (Role × ℕ) → List RawDescriptor → List ImportWarning
unfolding count_of
low_counts [] items = []
low_counts ((role, minimum) ∷ rest) items =
    let others = low_counts rest items in
    let actual = count_of role items in
    if ltb actual minimum then ImportWarning.count_low role actual minimum ∷ others else others

few_flats : ℕ → List ImportWarning
few_flats count =
    if leb 10 count && ltb count 20
    then ImportWarning.flat_count_below_recommended count ∷ []
    else []

unknown_paths : List RawDescriptor → List String
unfolding same_role
unknown_paths [] = []
unknown_paths (item ∷ items) =
    let rest = unknown_paths items in
    if same_role item.role Role.unknown then item.relative_path ∷ rest else rest

unclassified : List String → List ImportWarning
unclassified [] = []
unclassified (path ∷ paths) = ImportWarning.unclassified_artifacts (path ∷ paths) ∷ []

unfoldable pub warnings_of : List RawDescriptor → List ImportWarning
unfolding low_counts requirements few_flats unknown_paths unclassified count_of
warnings_of items =
    low_counts requirements items
    ++ (few_flats (count_of Role.flat items) ++ unclassified (unknown_paths items))

pub record ScanResult : Type 0 where
  pub inventory : List InventoryRecord
  pub groups : List ScienceGroup
  pub warnings : List ImportWarning
  pub manifest_sha256 : String

unfoldable pub inspect_all :
    InstrumentAdapter → List (FilePath × String) → Result (List RawDescriptor)
inspect_all adapter [] = ok []
inspect_all adapter ((path, relative) ∷ files) = do
  described ← adapter.inspect path relative
  rest ← inspect_all adapter files
  ok (described ∷ rest)

module _ (fs : FileSystem) (adapter : InstrumentAdapter) (digest : List StableRecord → String) where
  unfoldable pub scan : FilePath → FilePath → Result ScanResult
  unfolding inspect_all manifest_record manifest_digest warnings_of
  scan root source = do
    files ← candidate_files fs root source
    descriptors ← inspect_all adapter files
    groups ← adapter.group_science descriptors
    let inventory = map manifest_record descriptors
    ok (record {
      inventory = inventory;
      groups = groups;
      warnings = warnings_of descriptors;
      manifest_sha256 = manifest_digest digest inventory;
    })
