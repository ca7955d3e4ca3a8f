-- ===== src/Control/Validation.antt =====
-- backend/src/most_sprite/control/validation.py: whether a sequence may be created, and what it will
-- take. The free space of the disk is an argument; messages are left out.
use most_sprite.Prelude.{
  ℕ, ◌*◌, Bool, true, false, not, ◌||◌, ltb, List, [], ◌∷◌, ◌++◌, if◌then◌else◌,
}
use most_sprite.Domain.{DataMode, ConfigurationStatus, is_polarimetric}

-- The rules of the schema on its fields are in domain/schemas.py.
pub record SequenceRequest : Type 0 where
  pub target_name : ℕ
  pub mode : DataMode
  pub exposure_time : ℕ
  pub repeats : ℕ

pub record ConfigSnapshot : Type 0 where
  pub id : ℕ
  pub status : ConfigurationStatus

pub data IssueCode : Type 0 where
  unverified_configuration storage_hard_limit : IssueCode

pub record ValidationIssue : Type 0 where
  pub code : IssueCode
  pub blocking : Bool

pub record SequenceValidation : Type 0 where
  pub valid : Bool
  pub estimated_exposures : ℕ
  pub estimated_duration : ℕ
  pub config_snapshot_id : ℕ
  pub issues : List ValidationIssue

is_approved : ConfigurationStatus → Bool
is_approved ConfigurationStatus.approved = true
is_approved _ = false

any_blocking : List ValidationIssue → Bool
any_blocking [] = false
any_blocking (issue ∷ issues) = issue.blocking || any_blocking issues

issues_of : ℕ → ℕ → ConfigSnapshot → List ValidationIssue
unfolding is_approved
issues_of minimum_free_bytes free_bytes snapshot =
    (if is_approved snapshot.status
      then []
      else record { code = IssueCode.unverified_configuration; blocking = false } ∷ [])
    ++ (if ltb free_bytes minimum_free_bytes
        then record { code = IssueCode.storage_hard_limit; blocking = true } ∷ []
        else [])

unfoldable pub exposures_of : SequenceRequest → ℕ
unfolding is_polarimetric
exposures_of request = (if is_polarimetric request.mode then 4 else 1) * request.repeats

unfoldable pub validate_sequence_request :
    ℕ → ℕ → SequenceRequest → ConfigSnapshot → SequenceValidation
unfolding issues_of any_blocking exposures_of
validate_sequence_request minimum_free_bytes free_bytes request snapshot =
    let issues = issues_of minimum_free_bytes free_bytes snapshot in
    record {
      valid = not (any_blocking issues);
      estimated_exposures = exposures_of request;
      estimated_duration = exposures_of request * request.exposure_time;
      config_snapshot_id = snapshot.id;
      issues = issues;
    }
