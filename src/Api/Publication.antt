-- ===== src/Api/Publication.antt =====
-- The publication gate: `product_action` of backend/src/most_sprite/api/routes.py,
-- `approve_calibration_set` of calibration/espadons.py, the idempotency records of
-- api/idempotency.py and `require_roles` of auth/dependencies.py. The audit record is left out.
-- Subjects and keys are numbers, which stand for their digests: the code only compares those. The
-- digest of a request is a parameter.
pub mod Gate
pub mod Approval
pub mod Retry
pub mod Later
mod Tests
use most_sprite.Prelude.{
  ℕ, Bool, true, false, not, ◌&&◌, ◌||◌, ◌==◌, Option, none, some, List, [], ◌∷◌, find_if,
  update_if, update_first, if◌then◌else◌,
}
use most_sprite.Domain.{ProductLevel, QcFlag, PublicationStatus, ConfigurationStatus, Role}
use most_sprite.Domain.Errors.{Result, ok, raise, ◌>>=◌, ◌>>◌, refuse_if, Code}
pub use most_sprite.Api.Archive.{
  Product, CalibrationSet, SetMember, Scope, product_publication, other_scope, IdempotencyRecord,
  ArchiveEvent, Archive,
}

pub data PublicationAction : Type 0 where
  publish withdraw : PublicationAction

-- What a client sends; a reason is a text, which may be missing.
pub record PublicationRequest : Type 0 where
  pub product_id : ℕ
  pub action : PublicationAction
  pub reason : Option (List ℕ)
  pub subject : ℕ
  pub role : Role
  pub key : ℕ

-- `if reason`: neither missing nor empty.
has_reason : Option (List ℕ) → Bool
has_reason none = false
has_reason (some []) = false
has_reason (some (c ∷ cs)) = true

has_role : List Role → Role → Bool
has_role [] r = false
has_role (a ∷ as') r = same_role a r || has_role as' r
  where
    same_role : Role → Role → Bool
    same_role Role.observer Role.observer = true
    same_role Role.instrument_engineer Role.instrument_engineer = true
    same_role Role.data_reducer Role.data_reducer = true
    same_role Role.administrator Role.administrator = true
    same_role _ _ = false

is_administrator : Role → Bool
is_administrator Role.administrator = true
is_administrator _ = false

-- An administrator passes every check.
unfoldable pub require_roles : List Role → Role → Result (Unit {0})
unfolding has_role is_administrator
require_roles allowed r =
    refuse_if (not (has_role allowed r) && not (is_administrator r)) Code.forbidden

is_publication : Scope → Bool
is_publication Scope.product_publication = true
is_publication _ = false

-- The record of the scope, the principal and the key.
pub find_record : ℕ → ℕ → Archive → Option IdempotencyRecord
unfolding is_publication
find_record principal key a =
    find_if (λ r. is_publication r.scope && (r.principal_hash == principal) && (r.key_hash == key))
      a.records

pub checked_record : ℕ → Option IdempotencyRecord → Result (Option IdempotencyRecord)
checked_record digest none = ok none
checked_record digest (some r) =
    if r.request_hash == digest then ok (some r) else raise Code.idempotency_conflict

-- `find_idempotent_resource` in the scope of publications.
unfoldable pub find_idempotent_resource : ℕ → ℕ → ℕ → Archive → Result (Option IdempotencyRecord)
unfolding find_record checked_record
find_idempotent_resource principal key digest a =
    checked_record digest (find_record principal key a)

-- `bind_idempotent_resource`
unfoldable pub bind_idempotent_resource : ℕ → ℕ → ℕ → ℕ → Archive → Archive
bind_idempotent_resource principal key digest resource a = record a {
  records =
      record {
        scope = Scope.product_publication;
        principal_hash = principal;
        key_hash = key;
        request_hash = digest;
        resource_id = resource;
      }
      ∷ a.records;
}

unfoldable pub get_product : ℕ → Archive → Option Product
get_product id a = find_if (λ p. p.id == id) a.products

unfoldable pub get_calibration_set : ℕ → Archive → Option CalibrationSet
get_calibration_set id a = find_if (λ c. c.id == id) a.calibration_sets

pub is_simulation_only : QcFlag → Bool
is_simulation_only QcFlag.simulation_only = true
is_simulation_only _ = false

-- `metadata_json.get("simulation_only", True)`
pub or_true : Option Bool → Bool
or_true none = true
or_true (some b) = b

is_l3 : ProductLevel → Bool
is_l3 ProductLevel.l3 = true
is_l3 _ = false

is_fail : QcFlag → Bool
is_fail QcFlag.fail = true
is_fail _ = false

is_warning : QcFlag → Bool
is_warning QcFlag.warning = true
is_warning _ = false

is_approved : ConfigurationStatus → Bool
is_approved ConfigurationStatus.approved = true
is_approved _ = false

pub set_is_approved : Option CalibrationSet → Bool
unfolding is_approved
set_is_approved none = false
set_is_approved (some c) = is_approved c.status

pub set_of : Option ℕ → Archive → Option CalibrationSet
set_of none a = none
set_of (some id) a = get_calibration_set id a

-- The guards of the action `publish`.
unfoldable pub check_publish : Option (List ℕ) → Product → Archive → Result (Unit {0})
unfolding is_l3 is_fail is_warning set_is_approved set_of has_reason
check_publish reason p a = do
  refuse_if (not (is_l3 p.level)) Code.publication_level_forbidden
  refuse_if (is_fail p.qc_flag) Code.product_qc_failed
  refuse_if (not (set_is_approved (set_of p.calibration_set_id a))) Code.calibration_not_approved
  refuse_if (is_warning p.qc_flag && not (has_reason reason)) Code.product_warning_reason_required

-- The guards of either action, and the status that it sets.
pub check_action : PublicationRequest → Product → Archive → Result PublicationStatus
unfolding check_publish has_reason
check_action r p a = elim r.action [
  | PublicationAction.publish ↦ (do check_publish r.reason p a; ok PublicationStatus.published)
  | PublicationAction.withdraw ↦ (do
    refuse_if (not (has_reason r.reason)) Code.withdrawal_reason_required
    ok PublicationStatus.withdrawn)
]

-- What both actions write to the row.
publication_row : PublicationRequest → ℕ → PublicationStatus → Product → Product
publication_row r now st p = record p {
  publication_status = st;
  published_by = some r.subject;
  published_at = some now;
}

unfoldable pub write_publication : PublicationRequest → ℕ → PublicationStatus → Archive → Archive
unfolding publication_row
write_publication r now st a = record a {
  products = update_first (λ p. p.id == r.product_id) (publication_row r now st) a.products;
  events = ArchiveEvent.publication_changed r.product_id st ∷ a.events;
}

module _ (request_digest : ℕ → PublicationAction → Option (List ℕ) → ℕ) where
  pub digest_of : PublicationRequest → ℕ
  digest_of r = request_digest r.product_id r.action r.reason

  pub act_on_product : PublicationRequest → ℕ → Archive → Option Product → Result (ℕ × Archive)
  unfolding is_simulation_only or_true check_action digest_of
  act_on_product r now a none = raise Code.product_not_found
  act_on_product r now a (some p) = do
    refuse_if (is_simulation_only p.qc_flag || or_true p.simulation_only)
        Code.simulation_publication_disabled
    st ← check_action r p a
    ok (
      p.id,
      bind_idempotent_resource r.subject r.key (digest_of r) p.id (write_publication r now st a),
    )

  -- The resource of the record that was found.
  recorded_product : Archive → ℕ → Option Product → Result (ℕ × Archive)
  recorded_product a id none = raise Code.idempotency_resource_gone
  recorded_product a id (some p) = ok (p.id, a)

  pub answer_or_act :
      PublicationRequest → ℕ → Archive → Option IdempotencyRecord → Result (ℕ × Archive)
  unfolding act_on_product recorded_product
  answer_or_act r now a (some k) = recorded_product a k.resource_id (get_product k.resource_id a)
  answer_or_act r now a none = act_on_product r now a (get_product r.product_id a)

  -- `product_action`: the id of the product that is returned, and the archive after the transaction.
  unfoldable pub product_action : PublicationRequest → ℕ → Archive → Result (ℕ × Archive)
  unfolding answer_or_act digest_of
  product_action r now a = do
    require_roles (Role.administrator ∷ []) r.role
    found ← find_idempotent_resource r.subject r.key (digest_of r) a
    answer_or_act r now a found

approve_row : ℕ → ℕ → CalibrationSet → CalibrationSet
approve_row by now c = record c {
  status = ConfigurationStatus.approved;
  approved_by = some by;
  approved_at = some now;
}

is_in : Option ℕ → ℕ → Bool
is_in none id = false
is_in (some s) id = s == id

-- The set and its members become APPROVED.
write_approval : ℕ → ℕ → CalibrationSet → Archive → Archive
unfolding approve_row is_in
write_approval by now c a = record a {
  calibration_sets = update_first (λ x. x.id == c.id) (approve_row by now) a.calibration_sets;
  members =
      update_if (λ m. is_in m.calibration_set_id c.id)
        (λ m. record m { status = ConfigurationStatus.approved }) a.members;
  events = ArchiveEvent.calibration_set_changed c.id ConfigurationStatus.approved ∷ a.events;
}

approve_found : ℕ → Bool → ℕ → Archive → Option CalibrationSet → Result Archive
unfolding is_approved is_fail is_warning write_approval
approve_found approved_by accept_warnings now a none = raise Code.calibration_set_not_found
approve_found approved_by accept_warnings now a (some c) = do
  refuse_if (is_approved c.status) Code.calibration_already_approved
  refuse_if (is_fail c.qc_flag) Code.calibration_qc_failed
  refuse_if (is_warning c.qc_flag && not accept_warnings)
      Code.calibration_warning_acceptance_required
  ok (write_approval approved_by now c a)

-- `approve_calibration_set`
unfoldable pub approve_calibration_set : ℕ → ℕ → Bool → ℕ → Archive → Result Archive
unfolding approve_found get_calibration_set
approve_calibration_set id approved_by accept_warnings now a =
    approve_found approved_by accept_warnings now a (get_calibration_set id a)
