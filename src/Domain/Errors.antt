-- ===== src/Domain/Errors.antt =====
-- backend/src/most_sprite/errors.py: `SpriteError`, and results of functions that may raise it.
use most_sprite.Prelude.{◌≡◌, refl, Bool, true, false, Option, none, some, ◌⊎◌, inl, inr}

-- The codes that the modelled components raise or report. `control_failure` stands for an exception
-- that is no `SpriteError`, such as a failed assertion.
pub data Code : Type 0 where
  invalid_instrument_transition safe_fault_latched device_restart device_state_stale : Code
  interlock_unsafe modulator_position guider_lock_lost recovery_not_required : Code
  stale_fencing_token deadline_exceeded communication_lost hard_limit_active : Code
  position_not_reached unknown_command not_initialized ccd_readout_failed : Code
  device_command_failed control_failure storage_unavailable : Code
  sequence_not_found invalid_sequence_transition sequence_validation_failed : Code
  idempotency_conflict idempotency_resource_gone : Code
  product_not_found simulation_publication_disabled publication_level_forbidden : Code
  product_qc_failed calibration_not_approved product_warning_reason_required : Code
  withdrawal_reason_required : Code
  calibration_set_not_found calibration_already_approved calibration_qc_failed : Code
  calibration_warning_acceptance_required forbidden calibration_mismatch processing_input_mixed :
      Code
  import_root_not_found import_path_forbidden import_path_not_found : Code
  import_path_not_directory import_empty import_artifact_not_found : Code
  import_artifact_unavailable source_changed import_immutable_conflict : Code
  import_inspection_failed import_inspection_not_found import_inspection_not_ready : Code
  import_failed incomplete_modulation_group unsupported_detector : Code
  integrity_error fits_read_failed : Code

pub record SpriteError : Type 0 where
  pub code : Code
  pub retryable : Bool

pub data Result {ℓ} (A : Type ℓ) : Type ℓ where
  ok : A → Result A
  err : SpriteError → Result A

-- `raise SpriteError(code, ...)`, with `retryable` at its default.
abbrev pub raise {ℓ} : {A : Type ℓ} → Code → Result A
raise c = err (record { code = c; retryable = false })

-- An exception ends the block.
module _ {ℓ κ} {A : Type ℓ} {B : Type κ} where
  infixl 5 ◌>>=◌
  abbrev pub ◌>>=◌ : Result A → (A → Result B) → Result B
  ok value >>= next = next value
  err raised >>= next = err raised

  -- A block that has returned has passed its first line.
  pub first_line-ok :
      (line : Result A) (next : A → Result B) {answer : B}
      → (line >>= next) ≡ ok answer
      → (value : A) × (line ≡ ok value) × (next value ≡ ok answer)
  first_line-ok (err raised) next returned = cc
  first_line-ok (ok value) next returned = (value, refl, returned)

module _ {ℓ} {B : Type ℓ} where
  infixl 5 ◌>>◌
  abbrev pub ◌>>◌ : Result (Unit {0}) → Result B → Result B
  line >> rest = line >>= λ _. rest

-- `if test: raise SpriteError(code, ...)`
abbrev pub refuse_if : Bool → Code → Result (Unit {0})
refuse_if true c = raise c
refuse_if false c = ok tt

pub refuse_if-ok : (b : Bool) (c : Code) {u : Unit {0}} → refuse_if b c ≡ ok u → b ≡ false
refuse_if-ok true c h = cc
refuse_if-ok false c h = refl

-- `if value is None: raise SpriteError(code, ...)`
abbrev pub found_or {ℓ} : {A : Type ℓ} → Code → Option A → Result A
found_or c none = raise c
found_or c (some value) = ok value

pub ok_injective {ℓ} : {A : Type ℓ} {a b : A} → ok a ≡ ok b → a ≡ b
ok_injective h = cc

-- To split on a computed result and keep the equation.
pub Result-cases {ℓ} :
    {A : Type ℓ} (r : Result A)
    → ((raised : SpriteError) × (r ≡ err raised)) ⊎ ((value : A) × (r ≡ ok value))
Result-cases (err raised) = inl (raised, refl)
Result-cases (ok value) = inr (value, refl)
