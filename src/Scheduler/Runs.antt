-- ===== src/Scheduler/Runs.antt =====
-- The part of the handlers that `ensure_processing_run` of
-- backend/src/most_sprite/products/processing.py is: a committed raw file queues the run of its
-- sequence, and the events of the call go to the outbox.
use most_sprite.Prelude.{ℕ, Option, none, some, List, [], map, length, find_if, ◌==◌}
use most_sprite.Domain.{EventType, ProcessingStatus}
use most_sprite.Domain.Errors.{Result, ok, ◌>>=◌}
use most_sprite.Processing.{
  RunTable, RunSequence, RunRequest, Hashes, ProcessingRun, ensure_processing_run,
}
use most_sprite.Scheduler.{EventContent}

unfoldable pub run_event : ℕ × ProcessingStatus → EventContent
run_event entry = record {
  event_type = EventType.processing_run_state_changed;
  sequence_id = none;
  exposure_id = none;
  payload = record {
    status = some entry.1;
    processing_run_id = some entry.0;
    calibration_run_id = none;
  };
}

-- `ensure_processing_run(session, sequence_id)` as a handler: the table's own list of events holds
-- those of this call, and is empty between two calls. A new run's id is the number of the runs.
unfoldable pub queue_run :
    Hashes
    → RunRequest
    → (ℕ → Option RunSequence)
    → ℕ
    → RunTable
    → Result (RunTable × List EventContent)
unfolding run_event ensure_processing_run
queue_run hashes defaults sequences id t =
    ensure_processing_run hashes defaults (sequences id) (length t.runs) (record t { events = [] })
    >>= λ done. ok (record done.1 { events = [] }, map run_event done.1.events)

status_in : Option ProcessingRun → Option ProcessingStatus
status_in none = none
status_in (some run) = some run.status

unfoldable pub status_of_run : ℕ → RunTable → Option ProcessingStatus
unfolding status_in
status_of_run id t = status_in (find_if (λ r. r.id == id) t.runs)
