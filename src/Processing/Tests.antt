-- ===== src/Processing/Tests.antt =====
-- Examples for the processing runs: a simulated sequence of one exposure, and two workers.
use most_sprite.Prelude.{
  ℕ, ◌+◌, ◌≡◌, ◌≢◌, refl, true, false, none, some, [], ◌∷◌, find_if, update_first, arith,
}
use most_sprite.Domain.{ProcessingStatus}
use most_sprite.Domain.Errors.{ok}
use most_sprite.Processing.{
  ProcessingRun, RunTable, RunSequence, RunRequest, RunInstrument, Hashes, ensure_processing_run,
  has_key,
}
use most_sprite.Processing.Claims.{claim_run}
use most_sprite.Processing.Claims.Exclusion.{claim_run_excludes}
use most_sprite.Processing.Runs.{ensure_processing_run_once}

abbrev hashes : Hashes
hashes = record {
  of_inputs = λ xs. 4;
  of_parameters = λ content parameters version. content + parameters + version;
  no_selection = 1;
  simulation = 2;
  code = 3;
}

abbrev plain_request : RunRequest
plain_request = record { parameters = 0; calibration_set_id = none; parameter_version = 0 }

abbrev done_sequence : RunSequence
done_sequence = record {
  id = 7;
  expected_exposures = 1;
  content_hash = some 9;
  raw_rows = record { sha256 = 5; instrument = RunInstrument.most } ∷ [];
}

abbrev no_runs : RunTable
no_runs = record { runs = []; calibration_sets = []; events = [] }

abbrev queued_run : ProcessingRun
queued_run = record {
  id = 50;
  sequence_id = 7;
  status = ProcessingStatus.queued;
  input_hash = 4;
  calibration_hash = 2;
  parameter_hash = 9;
  code_hash = 3;
  calibration_set_id = none;
  claim_token = none;
  claimed_at = none;
  error_code = none;
}

abbrev one_run : RunTable
one_run = record {
  runs = queued_run ∷ [];
  calibration_sets = [];
  events = (50, ProcessingStatus.queued) ∷ [];
}

no_runs-call :
    ensure_processing_run hashes plain_request (some done_sequence) 50 no_runs
    ≡ ok (some 50, one_run)
unfolding ensure_processing_run find_if has_key
no_runs-call = refl

ensure_processing_run_once_example :
    ensure_processing_run hashes plain_request (some done_sequence) 51 one_run
    ≡ ok (some 50, one_run)
ensure_processing_run_once_example =
    ensure_processing_run_once hashes plain_request done_sequence 50 51 no_runs one_run (some 50)
      no_runs-call

abbrev claimed_run : RunTable
claimed_run = record {
  runs =
      record queued_run {
        status = ProcessingStatus.running;
        claim_token = some 1;
        claimed_at = some 100;
      }
      ∷ [];
  calibration_sets = [];
  events = (50, ProcessingStatus.running) ∷ (50, ProcessingStatus.queued) ∷ [];
}

one_run-claim : claim_run 60 50 1 100 one_run ≡ ok (true, claimed_run)
unfolding claim_run find_if update_first
one_run-claim = refl

two_apart : ◌≢◌ {A = ℕ} 2 1
two_apart h = ground arith

claim_run_excludes_example : claim_run 60 50 2 150 claimed_run ≡ ok (false, claimed_run)
claim_run_excludes_example =
    claim_run_excludes 60 50 1 2 100 150 one_run claimed_run two_apart (omega arith) one_run-claim
