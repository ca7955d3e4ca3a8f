-- ===== src/Calibration/Matcher.antt =====
-- backend/src/most_sprite/calibration/matcher.py: `match_calibration`. The rows are those of the
-- query, in its order (newest first). A time without a zone counts as UTC, so a time is a number. A
-- value of `parameters_json` is a number, and `none` stands for null.
pub mod Choice
mod Tests
use most_sprite.Prelude.{
  ℕ, Bool, true, false, not, ◌&&◌, ◌||◌, ◌==◌, leb, Option, none, some, List, [], ◌∷◌,
  if◌then◌else◌, map,
}
use most_sprite.Domain.{ConfigurationStatus, DataMode}

pub record Calibration : Type 0 where
  pub id : ℕ
  pub status : ConfigurationStatus
  pub mode : Option DataMode
  pub valid_from : Option ℕ
  pub valid_to : Option ℕ
  pub parameters : List (ℕ × Option ℕ)

-- The keyword arguments of a call.
pub record Query : Type 0 where
  pub mode : DataMode
  pub observed_at : ℕ
  pub required_parameters : List (ℕ × Option ℕ)
  pub allow_unverified : Bool

pub data Condition : Type 0 where
  status mode valid_from valid_to parameters : Condition

pub record Candidate : Type 0 where
  pub calibration_id : ℕ
  pub accepted : Bool
  pub conditions : List (Condition × Bool)
  pub reasons : List Condition

pub data DecisionStatus : Type 0 where
  waiting_calibration matched : DecisionStatus

pub record Decision : Type 0 where
  pub selected_id : Option ℕ
  pub status : DecisionStatus
  pub candidates : List Candidate

status_fits : Bool → ConfigurationStatus → Bool
status_fits allow ConfigurationStatus.approved = true
status_fits allow ConfigurationStatus.unverified = allow
status_fits allow ConfigurationStatus.retired = false

same_mode : DataMode → DataMode → Bool
same_mode DataMode.pol_q DataMode.pol_q = true
same_mode DataMode.pol_u DataMode.pol_u = true
same_mode DataMode.pol_v DataMode.pol_v = true
same_mode DataMode.nonpol DataMode.nonpol = true
same_mode _ _ = false

mode_fits : Option DataMode → DataMode → Bool
unfolding same_mode
mode_fits none m = true
mode_fits (some k) m = same_mode k m

from_fits : Option ℕ → ℕ → Bool
from_fits none t = true
from_fits (some f) t = leb f t

to_fits : Option ℕ → ℕ → Bool
to_fits none t = true
to_fits (some u) t = leb t u

-- `parameters_json.get(key)`: a missing key is null.
pub get_parameter : ℕ → List (ℕ × Option ℕ) → Option ℕ
get_parameter k [] = none
get_parameter k ((j, v) ∷ ps) = if j == k then v else get_parameter k ps

same_value : Option ℕ → Option ℕ → Bool
same_value none none = true
same_value (some a) (some b) = a == b
same_value _ _ = false

parameters_fit : List (ℕ × Option ℕ) → List (ℕ × Option ℕ) → Bool
unfolding get_parameter same_value
parameters_fit have [] = true
parameters_fit have ((k, v) ∷ rest) =
    same_value (get_parameter k have) v && parameters_fit have rest

-- The conditions of a row, in the order of the code.
conditions_of : Query → Calibration → List (Condition × Bool)
unfolding status_fits mode_fits from_fits to_fits parameters_fit
conditions_of q c =
    (Condition.status, status_fits q.allow_unverified c.status)
    ∷ (Condition.mode, mode_fits c.mode q.mode)
    ∷ (Condition.valid_from, from_fits c.valid_from q.observed_at)
    ∷ (Condition.valid_to, to_fits c.valid_to q.observed_at)
    ∷ (Condition.parameters, parameters_fit c.parameters q.required_parameters)
    ∷ []

-- The names of the conditions that fail.
failures : List (Condition × Bool) → List Condition
failures [] = []
failures ((n, b) ∷ rest) = if b then failures rest else n ∷ failures rest

is_empty : List Condition → Bool
is_empty [] = true
is_empty (r ∷ rs) = false

unfoldable pub candidate_of : Query → Calibration → Candidate
unfolding conditions_of failures is_empty
candidate_of q c = record {
  calibration_id = c.id;
  accepted = is_empty (failures (conditions_of q c));
  conditions = conditions_of q c;
  reasons = failures (conditions_of q c);
}

-- The loop: the decisions, and the rows that were accepted.
pub examine : Query → List Calibration → List Candidate × List Calibration
unfolding candidate_of
examine q [] = ([], [])
examine q (c ∷ cs) =
    let (decisions, accepted) = examine q cs in
    (candidate_of q c ∷ decisions, if (candidate_of q c).accepted then c ∷ accepted else accepted)

decide : List Candidate × List Calibration → Decision
decide (decisions, []) = record {
  selected_id = none;
  status = DecisionStatus.waiting_calibration;
  candidates = decisions;
}
decide (decisions, c ∷ cs) = record {
  selected_id = some c.id;
  status = DecisionStatus.matched;
  candidates = decisions;
}

unfoldable pub match_calibration : Query → List Calibration → Decision
unfolding examine decide
match_calibration q rows = decide (examine q rows)
