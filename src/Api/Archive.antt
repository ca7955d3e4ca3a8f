-- ===== src/Api/Archive.antt =====
-- backend/src/most_sprite/db/models.py: the tables that the publication gate and the approval of
-- calibrations read and write, with the events of both. A table is the list of its rows.
use most_sprite.Prelude.{ℕ, Bool, Option, List}
use most_sprite.Domain.{ProductLevel, QcFlag, PublicationStatus, ConfigurationStatus}

pub record Product : Type 0 where
  pub id : ℕ
  pub level : ProductLevel
  pub qc_flag : QcFlag
  -- The entry `simulation_only` of the metadata, where it is there.
  pub simulation_only : Option Bool
  pub publication_status : PublicationStatus
  pub calibration_set_id : Option ℕ
  pub published_by : Option ℕ
  pub published_at : Option ℕ

pub record CalibrationSet : Type 0 where
  pub id : ℕ
  pub status : ConfigurationStatus
  pub qc_flag : QcFlag
  pub approved_by : Option ℕ
  pub approved_at : Option ℕ

-- The rows of `calibrations`, of which the approval writes the status.
pub record SetMember : Type 0 where
  pub id : ℕ
  pub calibration_set_id : Option ℕ
  pub status : ConfigurationStatus

pub data Scope : Type 0 where
  product_publication other_scope : Scope

pub record IdempotencyRecord : Type 0 where
  pub scope : Scope
  pub principal_hash : ℕ
  pub key_hash : ℕ
  pub request_hash : ℕ
  pub resource_id : ℕ

pub data ArchiveEvent : Type 0 where
  publication_changed : ℕ → PublicationStatus → ArchiveEvent
  calibration_set_changed : ℕ → ConfigurationStatus → ArchiveEvent

pub record Archive : Type 0 where
  pub products : List Product
  pub calibration_sets : List CalibrationSet
  pub members : List SetMember
  pub records : List IdempotencyRecord
  pub events : List ArchiveEvent
