-- ===== src/Processing.antt =====
-- The processing runs of backend/src/most_sprite/products/processing.py: `ensure_processing_run`; the
-- claim of a run is in Claims. The hashes of JSON texts are parameters. The work of a run, its task
-- rows and its progress are left out.
pub mod Claims
pub mod Runs
mod Tests
use most_sprite.Prelude.{
  ℕ, ◌+◌, Bool, true, false, not, ◌&&◌, ◌==◌, ltb, Option, none, some, List, [], ◌∷◌, map, length,
  find_if, update_first, if◌then◌else◌,
}
use most_sprite.Domain.{ProcessingStatus, ConfigurationStatus, QcFlag}
use most_sprite.Domain.Errors.{Result, ok, raise, ◌>>=◌, ◌>>◌, refuse_if, Code}

pub record ProcessingRun : Type 0 where
  pub id : ℕ
  pub sequence_id : ℕ
  pub status : ProcessingStatus
  pub input_hash : ℕ
  pub calibration_hash : ℕ
  pub parameter_hash : ℕ
  pub code_hash : ℕ
  pub calibration_set_id : Option ℕ
  pub claim_token : Option ℕ
  pub claimed_at : Option ℕ
  pub error_code : Option Code

-- The columns of a calibration set that are read here.
pub record RunCalibration : Type 0 where
  pub id : ℕ
  pub status : ConfigurationStatus
  pub qc_flag : QcFlag
  pub calibration_hash : ℕ

pub data RunInstrument : Type 0 where
  espadons most : RunInstrument

-- A raw file of a committed exposure; a missing instrument is MOST.
pub record RunInput : Type 0 where
  pub sha256 : ℕ
  pub instrument : RunInstrument

-- A sequence with the raw files that the query returns for it, in its order.
pub record RunSequence : Type 0 where
  pub id : ℕ
  pub expected_exposures : ℕ
  pub content_hash : Option ℕ
  pub raw_rows : List RunInput

pub record RunTable : Type 0 where
  pub runs : List ProcessingRun
  pub calibration_sets : List RunCalibration
  pub events : List (ℕ × ProcessingStatus)

-- `_hash_json` of the payloads of this file, and the hash of the software's version.
pub record Hashes : Type 0 where
  pub of_inputs : List ℕ → ℕ
  pub of_parameters : ℕ → ℕ → ℕ → ℕ
  pub no_selection : ℕ
  pub simulation : ℕ
  pub code : ℕ

-- What a caller passes: the parameters, a calibration set, and the version of the parameters, of
-- which 0 is "simulation-v1" and 1 is "espadons-olapa-v1".
pub record RunRequest : Type 0 where
  pub parameters : ℕ
  pub calibration_set_id : Option ℕ
  pub parameter_version : ℕ

is_espadons : RunInstrument → Bool
is_espadons RunInstrument.espadons = true
is_espadons RunInstrument.most = false

has_espadons : List RunInput → Bool
unfolding is_espadons
has_espadons [] = false
has_espadons (r ∷ rs) = if is_espadons r.instrument then true else has_espadons rs

all_espadons : List RunInput → Bool
unfolding is_espadons
all_espadons [] = true
all_espadons (r ∷ rs) = is_espadons r.instrument && all_espadons rs

-- `instruments == {"ESPADONS"}`
only_espadons : List RunInput → Bool
unfolding has_espadons all_espadons
only_espadons rs = has_espadons rs && all_espadons rs

-- Whether a run may start under this set.
pub is_usable : RunCalibration → Bool
is_usable c = approved c.status && not (failed c.qc_flag)
  where
    approved : ConfigurationStatus → Bool
    approved ConfigurationStatus.approved = true
    approved _ = false

    failed : QcFlag → Bool
    failed QcFlag.fail = true
    failed _ = false

-- The calibration that a run would use, whether it may start, and the hash of its calibration.
pub record Selection : Type 0 where
  pub calibration_set_id : Option ℕ
  pub queued : Bool
  pub calibration_hash : ℕ

selected : Option RunCalibration → Result Selection
unfolding is_usable
selected none = raise Code.calibration_set_not_found
selected (some c) = ok (record {
  calibration_set_id = some c.id;
  queued = is_usable c;
  calibration_hash = c.calibration_hash;
})

pub select_calibration : Hashes → Bool → Option ℕ → RunTable → Result Selection
unfolding selected
select_calibration h true (some id) t = selected (find_if (λ c. c.id == id) t.calibration_sets)
select_calibration h true none t =
    ok (record { calibration_set_id = none; queued = false; calibration_hash = h.no_selection })
select_calibration h false (some id) t = raise Code.calibration_mismatch
select_calibration h false none t =
    ok (record { calibration_set_id = none; queued = true; calibration_hash = h.simulation })

version_of : Bool → ℕ → ℕ
version_of true version = if version == 0 then 1 else version
version_of false version = version

-- The four hashes by which a run is known.
pub record RunKey : Type 0 where
  pub input_hash : ℕ
  pub calibration_hash : ℕ
  pub parameter_hash : ℕ
  pub code_hash : ℕ

unfoldable pub has_key : RunKey → ProcessingRun → Bool
has_key k r =
    (r.input_hash == k.input_hash)
    && (r.calibration_hash == k.calibration_hash)
    && (r.parameter_hash == k.parameter_hash)
    && (r.code_hash == k.code_hash)

is_waiting : ProcessingStatus → Bool
is_waiting ProcessingStatus.waiting_calibration = true
is_waiting _ = false

status_of : Bool → ProcessingStatus
status_of true = ProcessingStatus.queued
status_of false = ProcessingStatus.waiting_calibration

new_run : ℕ → ℕ → RunKey → Selection → ProcessingRun
unfolding status_of
new_run id sequence k s = record {
  id = id;
  sequence_id = sequence;
  status = status_of s.queued;
  input_hash = k.input_hash;
  calibration_hash = k.calibration_hash;
  parameter_hash = k.parameter_hash;
  code_hash = k.code_hash;
  calibration_set_id = s.calibration_set_id;
  claim_token = none;
  claimed_at = none;
  error_code = none;
}

-- A run that waited for its calibration is queued.
release : Selection → ProcessingRun → ProcessingRun
release s r = record r {
  status = ProcessingStatus.queued;
  calibration_set_id = s.calibration_set_id;
  error_code = none;
}

-- The run of the key, released where it may start now, or a new one.
found_or_new : ℕ → ℕ → RunKey → Selection → RunTable → Option ProcessingRun → ℕ × RunTable
unfolding new_run release is_waiting has_key
found_or_new fresh sequence k s t none = (
  fresh,
  record t {
    runs = new_run fresh sequence k s ∷ t.runs;
    events = (fresh, status_of s.queued) ∷ t.events;
  },
)
found_or_new fresh sequence k s t (some r) =
    if s.queued && is_waiting r.status
    then (
      r.id,
      record t {
        runs = update_first (has_key k) (release s) t.runs;
        events = (r.id, ProcessingStatus.queued) ∷ t.events;
      },
    )
    else (r.id, t)

the_hash : Option ℕ → Result ℕ
the_hash none = raise Code.control_failure
the_hash (some h) = ok h

module _ (h : Hashes) where
  key_of : RunRequest → RunSequence → ℕ → Selection → RunKey
  unfolding version_of only_espadons
  key_of q s content c = record {
    input_hash = h.of_inputs (map (λ r. r.sha256) s.raw_rows);
    calibration_hash = c.calibration_hash;
    parameter_hash =
        h.of_parameters content q.parameters
          (version_of (only_espadons s.raw_rows) q.parameter_version);
    code_hash = h.code;
  }

  ensure_complete : RunRequest → RunSequence → ℕ → RunTable → Result (Option ℕ × RunTable)
  unfolding found_or_new key_of has_key select_calibration has_espadons only_espadons the_hash
  ensure_complete q s fresh t = do
    content ← the_hash s.content_hash
    refuse_if (has_espadons s.raw_rows && not (only_espadons s.raw_rows))
        Code.processing_input_mixed
    c ← select_calibration h (only_espadons s.raw_rows) q.calibration_set_id t
    let key = key_of q s content c
    let done = found_or_new fresh s.id key c t (find_if (has_key key) t.runs)
    ok (some done.0, done.1)

  -- `ensure_processing_run`; `fresh` is the id of a new run.
  unfoldable pub ensure_processing_run :
      RunRequest → Option RunSequence → ℕ → RunTable → Result (Option ℕ × RunTable)
  unfolding ensure_complete
  ensure_processing_run q none fresh t = ok (none, t)
  ensure_processing_run q (some s) fresh t =
      if ltb (length s.raw_rows) s.expected_exposures
      then ok (none, t)
      else ensure_complete q s fresh t
