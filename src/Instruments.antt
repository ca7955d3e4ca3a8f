-- ===== src/Instruments.antt =====
-- backend/src/most_sprite/pipeline/instruments/base.py: what an adapter says of a raw file, and what
-- the imports ask of an adapter.
pub mod Espadons
pub mod Grouping
use Prim.Native.String.{String}
use most_sprite.Prelude.{ℕ, Option, List}
use most_sprite.Domain.{DataMode}
use most_sprite.Domain.Errors.{Result}
use most_sprite.Imports.Names.{FilePath}

pub data Role : Type 0 where
  reference_only bias flat thar alignment science unknown : Role

pub data Stokes : Type 0 where
  q u v : Stokes

-- A header is copied as it is, so it is one value. `instrument` and `source_format` are left out.
pub record RawDescriptor : Type 0 where
  pub path : FilePath
  pub relative_path : String
  pub size : ℕ
  pub sha256 : String
  pub role : Role
  pub detector : String
  pub image_hdu : Option ℕ
  pub mode : Option DataMode
  pub stokes : Option Stokes
  pub sub_index : Option ℕ
  pub sequence_number : Option ℕ
  pub target_name : String
  pub exposure_time : ℕ
  pub observing_night : String
  pub observed_at : Option String
  pub readout_mode : String
  pub header : ℕ

-- An entry of the list that `group_science` returns.
pub record ScienceGroup : Type 0 where
  pub target_name : String
  pub mode : DataMode
  pub stokes : Stokes
  pub observing_night : String
  pub sequence_number : ℕ
  pub exposure_time : ℕ
  pub artifacts : List String

-- `InstrumentAdapter`, as far as an inspection uses it.
pub record InstrumentAdapter : Type 0 where
  pub inspect : FilePath → String → Result RawDescriptor
  pub group_science : List RawDescriptor → Result (List ScienceGroup)
