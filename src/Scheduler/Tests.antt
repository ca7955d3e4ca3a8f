-- ===== src/Scheduler/Tests.antt =====
-- Examples for the scheduler: a raw file is committed and its run is queued and made, inline.
use most_sprite.Prelude.{
  ℕ, ◌+◌, ◌≤◌, ◌≡◌, refl, ◌==◌, arith, true, Option, none, some, List, [], ◌∷◌, if◌then◌else◌,
  find_if, update_if, update_first,
}
use most_sprite.Domain.{EventType, ProcessingStatus}
use most_sprite.Domain.Errors.{ok, Result}
use most_sprite.Processing.{RunTable, RunSequence, RunRequest, RunInstrument, Hashes}
use most_sprite.Scheduler.{EventContent, OutboxEvent, Handlers, Task, World, is_pending, run_once}
use most_sprite.Scheduler.Order.{IsRising}
use most_sprite.Scheduler.Waiting.{has_number, is_published, ahead}
use most_sprite.Scheduler.Turns.{Turn, take_turns, rounds_returned}
use most_sprite.Scheduler.Runs.{run_event, queue_run, status_of_run}
use most_sprite.Scheduler.Refine.{queue, QueueStep, run_once-QueueStep}
use most_sprite.Scheduler.Liveness.{take_turns-is_published}

abbrev hashes : Hashes
hashes = record {
  of_inputs = λ xs. 4;
  of_parameters = λ content parameters version. content + parameters + version;
  no_selection = 1;
  simulation = 2;
  code = 3;
}

abbrev defaults : RunRequest
defaults = record { parameters = 0; calibration_set_id = none; parameter_version = 0 }

abbrev sequences : ℕ → Option RunSequence
sequences id =
    if id == 7
    then some (record {
      id = 7;
      expected_exposures = 1;
      content_hash = some 9;
      raw_rows = record { sha256 = 5; instrument = RunInstrument.most } ∷ [];
    })
    else none

abbrev succeed : Task → RunTable → (RunTable × List EventContent) × Result (Unit {0})
succeed (Task.process_run id) t = (
  (
    record t {
      runs =
          update_if (λ r. r.id == id) (λ r. record r { status = ProcessingStatus.succeeded })
            t.runs;
    },
    run_event (id, ProcessingStatus.succeeded) ∷ [],
  ),
  ok tt,
)
succeed (Task.build_calibration_run id) t = ((t, []), ok tt)

abbrev handlers : Handlers RunTable
handlers = record {
  ensure_quicklook_for_exposure = λ id t. ok (t, []);
  ensure_processing_run = queue_run hashes defaults sequences;
  processing_status = status_of_run;
  calibration_status = λ id t. none;
  send_task = λ task. ok tt;
  run = succeed;
}

abbrev content : EventType → EventContent
content type = record {
  event_type = type;
  sequence_id = some 7;
  exposure_id = some 8;
  payload = record { status = none; processing_run_id = none; calibration_run_id = none };
}

abbrev pending : ℕ → EventType → OutboxEvent
pending number type = record {
  sequence_no = number;
  event_id = number;
  content = content type;
  published_at = none;
}

abbrev two_events : World RunTable
two_events = record {
  db = record {
    events =
        pending 0 EventType.raw_file_committed ∷ pending 1 EventType.sequence_state_changed ∷ [];
    consumed = [];
    next_no = 2;
    store = record { runs = []; calibration_sets = []; events = [] };
  };
  sent = [];
}

abbrev some_turns : List (Turn RunTable)
some_turns =
    Turn.round 50
    ∷ Turn.other (λ t. t) (content EventType.alarm_raised ∷ [])
    ∷ Turn.round 51
    ∷ Turn.round 52
    ∷ []

two_events-IsRising : IsRising 0 two_events.db.events two_events.db.next_no
unfolding IsRising
two_events-IsRising = (omega arith, (omega arith, omega arith))

two_events-has_number : has_number 1 two_events.db.events ≡ true
unfolding has_number
two_events-has_number = refl

two_events-ahead : ahead 1 two_events.db.events ≡ 2
unfolding ahead is_pending
two_events-ahead = refl

some_turns-rounds_returned : rounds_returned handlers true some_turns two_events ≡ 3
unfolding rounds_returned find_if queue_run update_first status_of_run
some_turns-rounds_returned = refl

two_events-enough :
    ahead 1 two_events.db.events ≤ rounds_returned handlers true some_turns two_events
two_events-enough = rw (two_events-ahead, some_turns-rounds_returned) (omega arith)

take_turns-is_published_example :
    is_published 1 (take_turns handlers true some_turns two_events).db.events ≡ true
take_turns-is_published_example =
    take_turns-is_published handlers true 1 some_turns two_events two_events-IsRising
      two_events-has_number two_events-enough

-- The third round makes the run that the first one has queued.
the_run :
    status_of_run 0 (take_turns handlers true some_turns two_events).db.store
    ≡ some ProcessingStatus.succeeded
unfolding take_turns status_of_run find_if queue_run update_first update_if
the_run = refl

run_once-QueueStep_example :
    QueueStep
      (queue two_events.db.events)
      (run_once handlers true 50 two_events).1
      (queue (run_once handlers true 50 two_events).0.db.events)
run_once-QueueStep_example = run_once-QueueStep handlers true 50 two_events two_events-IsRising
