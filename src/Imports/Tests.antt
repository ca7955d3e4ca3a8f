-- ===== src/Imports/Tests.antt =====
-- Examples for the imports: a night with the four exposures of a polarimetric sequence.
use Prim.Native.Char.{code}
use Prim.Native.String.{String, [], ◌∷◌}
use text.Mathlib.Text.{◌==◌ as str_eq}
use text.Mathlib.TextEquality.{eq_iff}
use most_sprite.Prelude.{
  ℕ, ◌-◌, Bool, true, false, not, ◌&&◌, ◌==◌, ◌≡◌, ◌≤◌, ◌≢◌, ◌↔◌, refl, arith, Option, none, some,
  List, [], ◌∷◌, if◌then◌else◌, All,
}
use most_sprite.Domain.Errors.{Result, ok, err}
use most_sprite.Instruments.{Role, Stokes}
use most_sprite.Instruments.Espadons.{Header, espadons, inspect}
use most_sprite.Imports.Names.{
  FilePath, name, join, is_absolute, parts, contains, path_eq, has_parent, relative_to, as_posix,
  is_fits,
}
use most_sprite.Imports.Names.RoundTrip.{IsName, NoSlash}
use most_sprite.Imports.Paths.{FileSystem, resolve_source, candidate_files}
use most_sprite.Imports.Paths.Containment.{IsArtifact, resolved_files-AreInside}
use most_sprite.Imports.Paths.Within.{IsWithin}
use most_sprite.Imports.Scan.{ScanResult, StableRecord, scan, warnings_of, count_of}
use most_sprite.Imports.Scan.Warnings.{any_blocking, HasEnough, warnings_of_iff}
use most_sprite.Prelude.Sorting.{sort_by}
use most_sprite.Instruments.Grouping.{group_science}
use most_sprite.Imports.State.{Environment}

-- A test for names.
no_slash : String → Bool
no_slash [] = true
no_slash (c ∷ text) = not (code c == b'/') && no_slash text

no_slash-NoSlash : (text : String) → no_slash text ≡ true → NoSlash text
unfolding no_slash
no_slash-NoSlash [] h = tt
no_slash-NoSlash (c ∷ text) h = (ground arith, no_slash-NoSlash text (ground arith))

is_name : String → Bool
unfolding no_slash
is_name text = not (str_eq text "") && not (str_eq text ".") && no_slash text

is_name-IsName : (text : String) → is_name text ≡ true → IsName text
unfolding is_name
is_name-IsName text h = (
  ground (arith, eq_iff text ""),
  ground (arith, eq_iff text "."),
  no_slash-NoSlash text (ground arith),
)

are_names : FilePath → Bool
unfolding is_name
are_names [] = true
are_names (part ∷ path) = is_name part && are_names path

are_names-All : (path : FilePath) → are_names path ≡ true → All IsName path
unfolding are_names
are_names-All [] h = tt
are_names-All (part ∷ path) h =
    (is_name-IsName part (ground arith), are_names-All path (ground arith))

abbrev file_of : String → FilePath
file_of text = "data" ∷ "night" ∷ text ∷ []

abbrev entries : List FilePath
entries = file_of "1o.fits" ∷ file_of "2o.fits" ∷ file_of "3o.fits" ∷ file_of "4o.fits" ∷ []

entries-AreNames : All (All IsName) entries
unfolding are_names is_name no_slash
entries-AreNames = (
  are_names-All (file_of "1o.fits") refl,
  (
    are_names-All (file_of "2o.fits") refl,
    (are_names-All (file_of "3o.fits") refl, (are_names-All (file_of "4o.fits") refl, tt)),
  ),
)

abbrev codes : String → List ℕ
codes [] = []
codes (c ∷ text) = code c ∷ codes text

abbrev disk : FileSystem
disk = record {
  resolve = λ path. some path;
  resolve_loosely = λ path. path;
  is_dir = λ path. true;
  is_file = λ path. true;
  is_symlink = λ path. false;
  rglob = λ path. entries;
  contents = λ path. codes (name path);
}

abbrev digest_of : List ℕ → String
digest_of [] = "00"
digest_of (c ∷ bytes) =
    if c == b'1' then "11" else if c == b'2' then "22" else if c == b'3' then "33" else "44"

abbrev index_in : List ℕ → ℕ
index_in [] = 0
index_in (c ∷ bytes) = c - b'0'

abbrev header_of : FilePath → Result Header
header_of path = ok (record {
  image_hdu = some 0;
  obstype = "OBJECT";
  detector = some "OLAPA";
  sequence_match = some (record {
    stokes = Stokes.q;
    sub_index = index_in (codes (name path));
    sequence_number = some 1;
  });
  target_name = "Vega";
  exposure_time = 60000;
  observing_night = "2016-07-15";
  observed_at = none;
  readout_mode = "fast";
  cards = 0;
})

abbrev roots : ℕ → Option FilePath
roots id = if id == 0 then some ("data" ∷ []) else none

abbrev manifest : List StableRecord → String
manifest items = "manifest"

abbrev pub env : Environment
env = record {
  fs = disk;
  import_roots = roots;
  adapters = λ id. some (espadons header_of digest_of disk.contents);
  sha256 = digest_of;
  digest = manifest;
  canonical_image = λ bytes. ok 0;
  write_l0_atomic = λ id image. ok tt;
}

abbrev pub root : FilePath
root = "data" ∷ []

abbrev night : FilePath
night = "data" ∷ "night" ∷ []

abbrev found_files : List (FilePath × String)
found_files =
    (file_of "1o.fits", "night/1o.fits")
    ∷ (file_of "2o.fits", "night/2o.fits")
    ∷ (file_of "3o.fits", "night/3o.fits")
    ∷ (file_of "4o.fits", "night/4o.fits")
    ∷ []

night-resolved : resolve_source disk roots 0 "night" ≡ ok (root, night)
unfolding resolve_source join is_absolute parts contains path_eq has_parent
night-resolved = refl

night-files : candidate_files disk root night ≡ ok found_files
unfolding candidate_files has_parent relative_to as_posix is_fits name
night-files = refl

resolved_files-AreInside_example :
    IsWithin root night
    × (disk.is_dir night ≡ true)
    × (contains ".." (parts "night") ≡ false)
    × (is_absolute "night" ≡ false)
    × All (IsArtifact disk root) found_files
    × (found_files ≢ [])
resolved_files-AreInside_example =
    resolved_files-AreInside disk roots 0 "night" root night found_files entries-AreNames
      night-resolved night-files

abbrev scanned : Result ScanResult
scanned = scan disk (espadons header_of digest_of disk.contents) manifest root night

abbrev result_or : ScanResult → Result ScanResult → ScanResult
result_or other (ok result) = result
result_or other (err e) = other

abbrev pub night_result : ScanResult
night_result =
    result_or (record { inventory = []; groups = []; warnings = []; manifest_sha256 = "" }) scanned

pub night-scanned :
    scan disk (espadons header_of digest_of disk.contents) manifest root night ≡ ok night_result
unfolding scan espadons inspect group_science candidate_files has_parent is_fits name relative_to
    sort_by as_posix
night-scanned = refl

warnings_of_iff_example :
    ((any_blocking (warnings_of []) ≡ false) ↔ HasEnough [])
    × ((warnings_of [] ≡ [])
        ↔ (HasEnough [] × (20 ≤ count_of Role.flat []) × (count_of Role.unknown [] ≡ 0)))
warnings_of_iff_example = warnings_of_iff []
