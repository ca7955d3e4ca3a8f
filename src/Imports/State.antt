-- ===== src/Imports/State.antt =====
-- The tables of backend/src/most_sprite/db/models.py that an import writes, the files that it keeps
-- under `data_root / "imports"`, and its actions, which may raise. A table is the list of its rows,
-- newest first. An idempotency key that is put together from texts is the tuple of them.
pub mod Respects
use Prim.Native.String.{String, [], ◌∷◌}
use text.Mathlib.Text.{◌==◌ as str_eq}
use most_sprite.Prelude.{
  ℕ, suc, Bool, true, false, ◌&&◌, ◌==◌, Option, none, some, List, [], ◌∷◌, if◌then◌else◌,
}
use most_sprite.Domain.{ImportStatus, DataMode, SequenceStatus, ExposureStatus}
use most_sprite.Domain.Errors.{Code, SpriteError, Result, ok, err}
use most_sprite.Instruments.{Role, Stokes, ScienceGroup, InstrumentAdapter}
use most_sprite.Instruments.Grouping.{Key}
use most_sprite.Imports.Names.{FilePath}
use most_sprite.Imports.Paths.{FileSystem}
use most_sprite.Imports.Scan.{InventoryRecord, StableRecord, ImportWarning}

pub record ImportInspection : Type 0 where
  pub id : ℕ
  pub idempotency_key : ℕ
  pub root_id : ℕ
  pub relative_path : String
  pub instrument : ℕ
  pub status : ImportStatus
  pub manifest_sha256 : Option String
  pub inventory : List InventoryRecord
  pub groups : List ScienceGroup
  pub warnings : List ImportWarning
  pub error_code : Option Code
  pub created_by : ℕ

pub record ImportBatch : Type 0 where
  pub id : ℕ
  pub inspection_id : ℕ
  pub idempotency_key : ℕ
  pub manifest_sha256 : String
  pub status : ImportStatus
  pub sequence_ids : List ℕ
  pub error_code : Option Code
  pub created_by : ℕ

-- `managed_root / sha256[:2] / name`, where `managed_root` is that of the batch.
pub record ManagedPath : Type 0 where
  pub batch_id : ℕ
  pub shard : String
  pub name : String

unfoldable pub same_path : ManagedPath → ManagedPath → Bool
same_path a b = (a.batch_id == b.batch_id) && str_eq a.shard b.shard && str_eq a.name b.name

-- `text[:2]`
unfoldable pub first_two : String → String
first_two (c ∷ d ∷ text) = c ∷ d ∷ []
first_two text = text

pub record ImportedArtifact : Type 0 where
  pub id : ℕ
  pub import_batch_id : ℕ
  pub relative_path : String
  pub managed_uri : ManagedPath
  pub size : ℕ
  pub sha256 : String
  pub artifact_role : Role
  pub detector : String
  pub sequence_id : Option ℕ
  pub exposure_id : Option ℕ

-- The rows that a science group becomes. The key of a sequence is made of the manifest and the key of
-- the group.
pub record ImportedSequence : Type 0 where
  pub id : ℕ
  pub manifest_sha256 : String
  pub group_key : Key
  pub mode : DataMode
  pub exposure_time : ℕ
  pub expected_exposures : ℕ
  pub completed_exposures : ℕ
  pub status : SequenceStatus
  pub config_snapshot_id : ℕ
  pub created_by : ℕ

pub record ImportedGroup : Type 0 where
  pub id : ℕ
  pub sequence_id : ℕ
  pub group_index : ℕ
  pub stokes : Stokes

pub record ImportedExposure : Type 0 where
  pub id : ℕ
  pub sequence_id : ℕ
  pub group_id : ℕ
  pub sub_index : ℕ
  pub status : ExposureStatus
  pub raw_file_id : Option ℕ

pub record ImportedRawFile : Type 0 where
  pub id : ℕ
  pub exposure_id : ℕ
  pub uri : ManagedPath
  pub size : ℕ
  pub sha256 : String
  pub imported_artifact_id : ℕ

-- A product of level L0, a draft, with the row of `product_inputs` that names its raw file.
pub record ImportedProduct : Type 0 where
  pub id : ℕ
  pub sequence_id : ℕ
  pub exposure_id : ℕ
  pub mode : DataMode
  pub source_sha256 : String
  pub import_batch_id : ℕ
  pub input_id : ℕ

pub data ImportEvent : Type 0 where
  inspection_completed : ℕ → String → ImportEvent
  import_completed : ℕ → List ℕ → ImportEvent

-- `config` is the snapshot with the content hash of `_espadons_config`, if there is one.
pub record ImportDb : Type 0 where
  pub inspections : List ImportInspection
  pub batches : List ImportBatch
  pub artifacts : List ImportedArtifact
  pub sequences : List ImportedSequence
  pub groups : List ImportedGroup
  pub exposures : List ImportedExposure
  pub raw_files : List ImportedRawFile
  pub products : List ImportedProduct
  pub config : Option ℕ
  pub outbox : List ImportEvent

pub record Archive : Type 0 where
  pub db : ImportDb
  pub files : List (ManagedPath × List ℕ)
  pub next_id : ℕ

-- What the imports use and do not implement. `adapters` is `instrument_adapter`; `sha256` is the digest of
-- some bytes and `digest` that of a manifest; `canonical_image` and `write_l0_atomic` make the L0
-- file of an exposure from the bytes of a raw file.
pub record Environment : Type 0 where
  pub fs : FileSystem
  pub import_roots : ℕ → Option FilePath
  pub adapters : ℕ → Option InstrumentAdapter
  pub sha256 : List ℕ → String
  pub digest : List StableRecord → String
  pub canonical_image : List ℕ → Result ℕ
  pub write_l0_atomic : ℕ → ℕ → Result (Unit {0})

abbrev pub Import : Type 0 → Type 0
Import A = Archive → Result A × Archive

module _ {A : Type 0} where
  unfoldable pub pure : A → Import A
  pure a w = (ok a, w)

  unfoldable pub fail : Code → Import A
  fail c w = (err (record { code = c; retryable = false }), w)

  unfoldable pub gets : (Archive → A) → Import A
  gets f w = (ok (f w), w)

  unfoldable pub lift : Result A → Import A
  lift r w = (r, w)

  -- An exception that is no `SpriteError` has the code IMPORT_FAILED.
  unfoldable pub the : Option A → Import A
  the none w = (err (record { code = Code.import_failed; retryable = false }), w)
  the (some a) w = (ok a, w)

unfoldable pub write : (ImportDb → ImportDb) → Import (Unit {0})
write f w = (ok tt, record w { db = f w.db })

unfoldable pub fail_if : Bool → Code → Import (Unit {0})
unfolding fail pure
fail_if test c = if test then fail c else pure tt

-- `uuid4()`: an id that no row has.
unfoldable pub fresh_id : Import ℕ
fresh_id w = (ok w.next_id, record w { next_id = suc w.next_id })

module _ {A B : Type 0} where
  infixl 5 ◌>>=◌ ◌>>◌
  unfoldable pub continue : Result A × Archive → (A → Import B) → Result B × Archive
  continue (ok a, w) f = f a w
  continue (err e, w) f = (err e, w)

  unfoldable pub ◌>>=◌ : Import A → (A → Import B) → Import B
  unfolding continue
  ◌>>=◌ m f w = continue (m w) f

  abbrev pub ◌>>◌ : Import A → Import B → Import B
  m >> n = m >>= λ _. n
