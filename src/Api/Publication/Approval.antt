-- ===== src/Api/Publication/Approval.antt =====
-- The approval of a calibration set, which is final.
use most_sprite.Prelude.{
  ℕ, ◌≡◌, ◌≢◌, refl, sym, ap, subst, ◌∙◌, arith, Bool, false, Option, none, some, List, ◌==◌,
  ==_iff, find_if, find_if_passes, update_first, find_if-update_first,
}
use most_sprite.Domain.{QcFlag, ConfigurationStatus}
use most_sprite.Domain.Errors.{ok, raise, Code}
use most_sprite.Api.Publication.{
  CalibrationSet, Archive, get_calibration_set, approve_row, approve_found, write_approval, is_fail,
  approve_calibration_set, is_approved,
}

row_found :
    (k by now : ℕ) (c : CalibrationSet) (cs : List CalibrationSet)
    → find_if (λ x. x.id == k) cs ≡ some c
    → find_if (λ x. x.id == k) (update_first (λ x. x.id == k) (approve_row by now) cs)
      ≡ some (approve_row by now c)
unfolding find_if update_first approve_row
row_found k by now c cs h =
    find_if-update_first (λ x. x.id == k) (approve_row by now) (λ x. refl) c cs h

module _ (id by : ℕ) (accept : Bool) (now : ℕ) (a : Archive) where
  approved_set :
      (o : Option CalibrationSet) {e : Archive}
      → approve_found by accept now a o ≡ ok e
      → (c : CalibrationSet) × (o ≡ some c)
        × (is_fail c.qc_flag ≡ false)
        × (e ≡ write_approval by now c a)
  unfolding approve_found
  approved_set none h = cc
  approved_set (some c) h = (c, refl, ground arith, ground arith)

  -- A set is approved once: its quality flag was not FAIL, it is APPROVED now, and whoever asks for
  -- its approval again is refused.
  pub approve_calibration_set_once :
      (by' : ℕ) (accept' : Bool) (later : ℕ) {e : Archive}
      → approve_calibration_set id by accept now a ≡ ok e
      → ((c : CalibrationSet) × (get_calibration_set id e ≡ some c)
          × (c.status ≡ ConfigurationStatus.approved)
          × (c.qc_flag ≢ QcFlag.fail))
        × (approve_calibration_set id by' accept' later e ≡ raise Code.calibration_already_approved)
  unfolding approve_calibration_set is_fail approve_row write_approval get_calibration_set
      approve_found is_approved
  approve_calibration_set_once by' accept' later h =
      let (c, found, sound, p) = approved_set _ h in
      let same = (==_iff c.id id).0 (find_if_passes _ a.calibration_sets found) in
      let row =
        row_found c.id by now c a.calibration_sets
          (subst (λ k. find_if (λ x. x.id == k) a.calibration_sets ≡ some c) (sym same) found) in
      let at_e =
        ap (get_calibration_set id) p
        ∙ subst
            (λ k. get_calibration_set k (write_approval by now c a) ≡ some (approve_row by now c))
            same row in
      ((approve_row by now c, at_e, refl, λ f. ground arith), rw at_e refl)
