-- ===== src/Calibration/Matcher/Tests.antt =====
-- An example for the selection: a calibration that is not approved, and an older one that is.
use most_sprite.Prelude.{◌≡◌, ◌⊎◌, false, none, some, [], ◌∷◌, All}
use most_sprite.Domain.{ConfigurationStatus, DataMode}
use most_sprite.Calibration.Matcher.{Calibration, Query, DecisionStatus, match_calibration}
use most_sprite.Calibration.Matcher.Choice.{FirstUsable, IsUsable, match_calibration_choice}

abbrev query : Query
query = record {
  mode = DataMode.pol_v;
  observed_at = 100;
  required_parameters = (1, some 5) ∷ [];
  allow_unverified = false;
}

abbrev newer : Calibration
newer = record {
  id = 2;
  status = ConfigurationStatus.unverified;
  mode = none;
  valid_from = some 90;
  valid_to = none;
  parameters = (1, some 5) ∷ [];
}

abbrev older : Calibration
older = record {
  id = 1;
  status = ConfigurationStatus.approved;
  mode = some DataMode.pol_v;
  valid_from = some 50;
  valid_to = some 100;
  parameters = (1, some 5) ∷ (2, none) ∷ [];
}

match_calibration_choice_example :
    ((c : Calibration) × FirstUsable query (newer ∷ older ∷ []) c
      × ((match_calibration query (newer ∷ older ∷ [])).status ≡ DecisionStatus.matched)
      × ((match_calibration query (newer ∷ older ∷ [])).selected_id ≡ some c.id))
    ⊎ (All (λ c. ¬ IsUsable query c) (newer ∷ older ∷ [])
        × ((match_calibration query (newer ∷ older ∷ [])).status
            ≡ DecisionStatus.waiting_calibration)
        × ((match_calibration query (newer ∷ older ∷ [])).selected_id ≡ none))
match_calibration_choice_example = match_calibration_choice query (newer ∷ older ∷ [])
