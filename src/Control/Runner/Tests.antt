-- ===== src/Control/Runner/Tests.antt =====
-- Examples for the runner: one queued sequence and a device that works, and an abort on the way.
use most_sprite.Control.World.{
  ◌>>=◌, the, gets, lift, write, fresh_id, continue, fail, fail_retryable, pure,
}
use most_sprite.Control.Runner.Transitions.{current_state, device_state, transition, enter, when}
use most_sprite.Domain.{same_state, is_polarimetric}
use most_sprite.Devices.Simulator.{
  new, execute, recall, guarded, Fault-discrete, handle, is_active, perform, remember, state,
}
use most_sprite.Control.StateMachine.{assert_transition}
use most_sprite.Control.Runner.Commands.{execute_command, answer_or_send, device_execute, send}
use most_sprite.Prelude.{update_if, ℕ_discrete}
use most_sprite.Api.Sequences.{find_command}
use most_sprite.Devices.Contracts.{CommandKey-discrete, same_key}
use most_sprite.Store.{emit, update_command}
use most_sprite.Prelude.{[], ◌∷◌}
use most_sprite.Domain.{InstrumentState}
use most_sprite.Devices.Contracts.{Action}
use most_sprite.Devices.Simulator
use most_sprite.Devices.Simulator.{Simulator, Fault}
use most_sprite.Api.Sequences.Tests.{queued_sequence, start_db}
use most_sprite.Store.{Settings, Sequence, most_v1}
use most_sprite.Control.World.{World, Outside}
use most_sprite.Control.World.{turn}
use most_sprite.Control.Runner.Poll.{run_once}
use most_sprite.Control.Runner.Poll.Outcome.{PollOutcome, run_once_outcome}
use most_sprite.Control.Runner.Sequences.{fail_sequence}
use most_sprite.Control.Runner.Sequences.FailSafe.{FailureOutcome, fail_sequence_outcome}
use most_sprite.Control.Runner.History.{SameRequest}
use most_sprite.Control.Runner.Requests.{run_once-SameRequest}
use most_sprite.Control.Runner.Trail.{IsTrail, HasTrail, run_once-HasTrail}
use most_sprite.Control.Runner.Transitions.{prepare_instrument}
use most_sprite.Control.Runner.Transitions.Ready.{IsReady, prepare_instrument-IsReady}
use most_sprite.Store.{get_sequence}
use most_sprite.Prelude.{true, find_if, ◌≡◌, refl, false, some}
use most_sprite.Domain.Errors.{Code, SpriteError, ok}

abbrev settings : Settings
settings = record {
  seed = λ id. id;
  angles = most_v1;
  angle_tolerance = 500;
  stale_state_ms = 5000;
  minimum_free_bytes = 1073741824;
  simulated_ms = λ ms. ms;
}

abbrev start_world : World
start_world = record {
  db = start_db;
  device = Simulator.new;
  files = [];
  free_bytes = 2000000000;
  is_reachable = true;
  now = 100000000000;
  next_id = 100;
  last_idle_refresh = 0;
  schedule = [];
}

-- An abort comes while the second exposure is waiting.
abbrev aborted_world : World
aborted_world = record start_world {
  schedule =
      []
      ∷ []
      ∷ []
      ∷ []
      ∷ []
      ∷ []
      ∷ []
      ∷ []
      ∷ []
      ∷ []
      ∷ (Outside.request
            (record { sequence_id = 7; action = Action.abort; key = 5; command_id = 9 })
          ∷ [])
      ∷ [];
}

run_once_outcome_example :
    PollOutcome settings 1 aborted_world
      (run_once settings 1 aborted_world).0
      (run_once settings 1 aborted_world).1
run_once_outcome_example = run_once_outcome settings 1 aborted_world

run_once-HasTrail_example : HasTrail (run_once settings 1 aborted_world).1.db
unfolding HasTrail
run_once-HasTrail_example =
    run_once-HasTrail settings 1 aborted_world (IsTrail.start InstrumentState.offline)

run_once-SameRequest_example :
    (t : Sequence) × (get_sequence 7 (run_once settings 1 aborted_world).1.db ≡ some t)
    × SameRequest queued_sequence t
unfolding get_sequence find_if
run_once-SameRequest_example = run_once-SameRequest settings 1 aborted_world 7 queued_sequence refl

abbrev unsafe : SpriteError
unsafe = record { code = Code.interlock_unsafe; retryable = false }

fail_sequence_outcome_example :
    FailureOutcome 7 Code.interlock_unsafe
      (turn start_world)
      (fail_sequence settings 7 1 unsafe start_world).0
      (fail_sequence settings 7 1 unsafe start_world).1
unfolding get_sequence find_if turn
fail_sequence_outcome_example =
    fail_sequence_outcome settings 7 1 unsafe start_world queued_sequence refl

abbrev prepared_world : World
prepared_world = (prepare_instrument settings queued_sequence 1 start_world).1

start_world-preparation :
    prepare_instrument settings queued_sequence 1 start_world ≡ (ok tt, prepared_world)
unfolding prepare_instrument ◌>>=◌ current_state the gets same_state device_state new transition
    lift assert_transition enter write execute_command fresh_id find_if execute recall guarded
    find_command answer_or_send device_execute send when continue fail fail_retryable pure
    CommandKey-discrete same_key Fault-discrete handle is_active perform remember state
    is_polarimetric update_if emit update_command ℕ_discrete
start_world-preparation = refl

prepare_instrument-IsReady_example : IsReady prepared_world
prepare_instrument-IsReady_example =
    prepare_instrument-IsReady settings queued_sequence 1 start_world prepared_world
      start_world-preparation
