-- ===== src/Api/Publication/Tests.antt =====
-- Examples for the publication gate: one L3 product and its calibration set.
use most_sprite.Prelude.{
  ℕ, ◌+◌, ◌*◌, Option, ◌≡◌, ◌≢◌, refl, false, true, none, some, List, [], ◌∷◌, arith, find_if,
  update_first, update_if,
}
use most_sprite.Domain.{ProductLevel, QcFlag, PublicationStatus, ConfigurationStatus, Role}
use most_sprite.Domain.Errors.{ok, raise, Code}
use most_sprite.Api.Publication.{
  Product, CalibrationSet, SetMember, Archive, PublicationAction, PublicationRequest,
  product_action, approve_calibration_set, get_calibration_set, get_product, require_roles,
  find_idempotent_resource, check_publish, write_publication, bind_idempotent_resource, digest_of,
}
use most_sprite.Api.Publication.Gate.{IsSound, product_action-IsSound}
use most_sprite.Api.Publication.Approval.{approve_calibration_set_once}
use most_sprite.Api.Publication.Retry.{product_action_conflict}
use most_sprite.Api.Publication.Later.{later_actions, product_action_retry}

abbrev product : Product
product = record {
  id = 11;
  level = ProductLevel.l3;
  qc_flag = QcFlag.pass;
  simulation_only = some false;
  publication_status = PublicationStatus.draft;
  calibration_set_id = some 21;
  published_by = none;
  published_at = none;
}

abbrev unapproved_set : CalibrationSet
unapproved_set = record {
  id = 21;
  status = ConfigurationStatus.unverified;
  qc_flag = QcFlag.warning;
  approved_by = none;
  approved_at = none;
}

abbrev draft_archive : Archive
draft_archive = record {
  products = product ∷ [];
  calibration_sets = unapproved_set ∷ [];
  members =
      record { id = 31; calibration_set_id = some 21; status = ConfigurationStatus.unverified }
      ∷ [];
  records = [];
  events = [];
}

abbrev approved_archive : Archive
approved_archive = record draft_archive {
  calibration_sets =
      record unapproved_set {
        status = ConfigurationStatus.approved;
        approved_by = some 1;
        approved_at = some 40;
      }
      ∷ [];
  members =
      record { id = 31; calibration_set_id = some 21; status = ConfigurationStatus.approved } ∷ [];
  events =
      most_sprite.Api.Publication.ArchiveEvent.calibration_set_changed 21
        ConfigurationStatus.approved
      ∷ [];
}

-- A stand-in for the digest of a request.
abbrev digest : ℕ → PublicationAction → Option (List ℕ) → ℕ
digest id PublicationAction.publish reason = 2 * id
digest id PublicationAction.withdraw reason = 2 * id + 1

abbrev publish_request : PublicationRequest
publish_request = record {
  product_id = 11;
  action = PublicationAction.publish;
  reason = none;
  subject = 3;
  role = Role.administrator;
  key = 77;
}

abbrev withdraw_request : PublicationRequest
withdraw_request = record publish_request {
  action = PublicationAction.withdraw;
  reason = some (1 ∷ []);
}

abbrev published_archive : Archive
published_archive =
    bind_idempotent_resource 3 77 22 11
      (write_publication publish_request 50 PublicationStatus.published approved_archive)

draft_archive-approval : approve_calibration_set 21 1 true 40 draft_archive ≡ ok approved_archive
unfolding approve_calibration_set find_if update_first update_if
draft_archive-approval = refl

approved_archive-publication :
    product_action digest publish_request 50 approved_archive ≡ ok (11, published_archive)
unfolding product_action require_roles find_idempotent_resource find_if get_product check_publish
    get_calibration_set digest_of
approved_archive-publication = refl

published_by_none : (PublicationStatus.draft ≡ PublicationStatus.published) → ⊥
published_by_none h = cc

draft_IsSound : IsSound draft_archive
unfolding IsSound
draft_IsSound = ((λ h. absurd (published_by_none h)), tt)

approved_IsSound : IsSound approved_archive
unfolding IsSound
approved_IsSound = ((λ h. absurd (published_by_none h)), tt)

product_action-IsSound_example : IsSound published_archive
product_action-IsSound_example =
    product_action-IsSound digest publish_request 50 11 approved_archive published_archive
      approved_IsSound approved_archive-publication

approve_calibration_set_once_example :
    ((c : CalibrationSet) × (get_calibration_set 21 approved_archive ≡ some c)
      × (c.status ≡ ConfigurationStatus.approved)
      × (c.qc_flag ≢ QcFlag.fail))
    × (approve_calibration_set 21 2 true 60 approved_archive
        ≡ raise Code.calibration_already_approved)
approve_calibration_set_once_example =
    approve_calibration_set_once 21 1 true 40 draft_archive 2 true 60 draft_archive-approval

-- The product is withdrawn under another key in between.
abbrev withdrawal : PublicationRequest
withdrawal = record withdraw_request { key = 99 }

product_action_retry_example :
    product_action digest publish_request 90
      (later_actions digest ((withdrawal, 70) ∷ []) published_archive)
    ≡ ok (11, later_actions digest ((withdrawal, 70) ∷ []) published_archive)
product_action_retry_example =
    product_action_retry digest publish_request 50 90 11 approved_archive published_archive
      ((withdrawal, 70) ∷ []) approved_archive-publication

digests_apart : digest_of digest withdraw_request ≢ digest_of digest publish_request
unfolding digest_of
digests_apart h = ground arith

product_action_conflict_example :
    product_action digest withdraw_request 90 published_archive ≡ raise Code.idempotency_conflict
product_action_conflict_example =
    product_action_conflict digest publish_request withdraw_request 50 90 11 approved_archive
      published_archive refl refl refl digests_apart approved_archive-publication
