-- ===== src/Instruments/Espadons.antt =====
-- `_role`, `_detector` and `inspect` of `ESPaDOnSAdapter` in
-- backend/src/most_sprite/pipeline/instruments/espadons.py. What astropy reads from a file is a
-- parameter: the values that `_first_value` takes from the header, and the match of `_SEQUENCE_RE`.
use Prim.Native.String.{String}
use most_sprite.Prelude.{
  ℕ, Bool, true, false, ◌&&◌, ◌||◌, ◌==◌, if◌then◌else◌, Option, none, some, List, [], ◌∷◌, length,
  ◌≡◌, arith,
}
use most_sprite.Domain.{DataMode}
use most_sprite.Domain.Errors.{Code, Result, ok, raise, ◌>>=◌}
use most_sprite.Imports.Names.{FilePath, name, lower_codes, ends_with}
use most_sprite.Instruments.{Role, Stokes, RawDescriptor, InstrumentAdapter}
use most_sprite.Instruments.Grouping.{group_science}

-- The groups of the match: Stokes parameter, exposure and sequence.
pub record SequenceMatch : Type 0 where
  pub stokes : Stokes
  pub sub_index : ℕ
  pub sequence_number : Option ℕ

pub record Header : Type 0 where
  pub image_hdu : Option ℕ
  pub obstype : String
  pub detector : Option String
  pub sequence_match : Option SequenceMatch
  pub target_name : String
  pub exposure_time : ℕ
  pub observing_night : String
  pub observed_at : Option String
  pub readout_mode : String
  pub cards : ℕ

starts_with : List ℕ → List ℕ → Bool
starts_with text [] = true
starts_with [] (c ∷ word) = false
starts_with (d ∷ text) (c ∷ word) = (d == c) && starts_with text word

-- `word in text`
occurs : List ℕ → List ℕ → Bool
unfolding starts_with
occurs word [] = starts_with [] word
occurs word (c ∷ text) = starts_with (c ∷ text) word || occurs word text

-- Of texts in capitals: both sides are read in lower case.
mentions : String → String → Bool
unfolding occurs lower_codes
mentions text word = occurs (lower_codes word) (lower_codes text)

has_suffix : String → String → Bool
unfolding lower_codes ends_with
has_suffix text suffix = ends_with (lower_codes text) (lower_codes suffix)

is_missing : Option ℕ → Bool
is_missing none = true
is_missing (some hdu) = false

unfoldable pub role_of : String → Header → Role
unfolding mentions has_suffix is_missing
role_of file h =
    if is_missing h.image_hdu || has_suffix file "i.fits" || has_suffix file "p.fits"
    then Role.reference_only
    else if mentions h.obstype "BIAS" || has_suffix file "b.fits.fz"
    then Role.bias
    else if mentions h.obstype "FLAT" || has_suffix file "f.fits.fz"
    then Role.flat
    else if mentions h.obstype "COMPAR" || mentions h.obstype "THAR" || has_suffix file "c.fits.fz"
    then Role.thar
    else if mentions h.obstype "ALIGN" || mentions h.obstype "FABRY" || has_suffix file "a.fits.fz"
    then Role.alignment
    else if mentions h.obstype "OBJ" || has_suffix file "o.fits.fz"
    then Role.science
    else Role.unknown

named : Option String → String → String
named none other = other
named (some text) other = text

check_detector : String → Result String
unfolding mentions
check_detector text =
    if mentions text "OLAPA" || mentions text "CCD42-90"
    then ok "OLAPA"
    else raise Code.unsupported_detector

detector_of : Role → Option String → Result String
unfolding named check_detector
detector_of Role.reference_only text = ok (named text "OLAPA")
detector_of _ text = check_detector (named text "UNKNOWN")

stokes_of : Option SequenceMatch → Option Stokes
stokes_of none = none
stokes_of (some m) = some m.stokes

sub_index_of : Option SequenceMatch → Option ℕ
sub_index_of none = none
sub_index_of (some m) = some m.sub_index

number_of : Option SequenceMatch → Option ℕ
number_of none = none
number_of (some m) = m.sequence_number

-- `DataMode(f"POL_{stokes}") if stokes else None`
mode_of : Option Stokes → Option DataMode
mode_of none = none
mode_of (some Stokes.q) = some DataMode.pol_q
mode_of (some Stokes.u) = some DataMode.pol_u
mode_of (some Stokes.v) = some DataMode.pol_v

module _ (read_header : FilePath → Result Header) (sha256 : List ℕ → String)
    (contents : FilePath → List ℕ) where
  unfoldable pub inspect : FilePath → String → Result RawDescriptor
  unfolding role_of detector_of stokes_of sub_index_of number_of mode_of
  inspect path relative_path = do
    header ← read_header path
    let role = role_of (name path) header
    detector ← detector_of role header.detector
    let found = header.sequence_match
    ok (record {
      path = path;
      relative_path = relative_path;
      size = length (contents path);
      sha256 = sha256 (contents path);
      role = role;
      detector = detector;
      image_hdu = header.image_hdu;
      mode = mode_of (stokes_of found);
      stokes = stokes_of found;
      sub_index = sub_index_of found;
      sequence_number = number_of found;
      target_name = header.target_name;
      exposure_time = header.exposure_time;
      observing_night = header.observing_night;
      observed_at = header.observed_at;
      readout_mode = header.readout_mode;
      header = header.cards;
    })

  -- `ESPaDOnSAdapter`
  unfoldable pub espadons : InstrumentAdapter
  espadons = record { inspect = inspect; group_science = group_science }

  -- The description of a file tells its size and the digest of its bytes.
  pub inspect-describes :
      (path : FilePath) (relative_path : String) {d : RawDescriptor}
      → inspect path relative_path ≡ ok d
      → (d.relative_path ≡ relative_path)
        × (d.size ≡ length (contents path))
        × (d.sha256 ≡ sha256 (contents path))
  unfolding inspect
  inspect-describes path relative_path h = ground arith
