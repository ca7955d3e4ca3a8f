-- ===== src/Control/Runner/Trail.antt =====
-- The log of the instrument's changes in the outbox, and the one change that it does not show.
use most_sprite.Prelude.{ℕ, sym, subst, List, [], ◌∷◌}
use most_sprite.Domain.{InstrumentState}
use most_sprite.Domain.Errors.{Code}
use most_sprite.Control.StateMachine.Reach.{◌⟶◌, assert_transition-iff-edge}
use most_sprite.Store.{Settings, Db, OutboxEvent, update_sequence, emit}
use most_sprite.Api.Sequences.{apply_action}
use most_sprite.Control.World.{World}
use most_sprite.Control.World.Relates.{IsHistory}
use most_sprite.Control.World.Others.{outside_leads}
use most_sprite.Control.Runner.History.{IsRunnerHistory, IsPlain, of_sequence}
use most_sprite.Control.Runner.Poll.{run_once}
use most_sprite.Control.Runner.Poll.Leads.{run_once-Leads}

-- The log, newest event first, leads to a state: each change that it shows is an edge of the table
-- and starts where the last one ended. A fall into SAFE_FAULT may be shown by its alarm alone, and a
-- recovery from SAFE_FAULT to OFFLINE is not shown.
pub data IsTrail : List OutboxEvent → InstrumentState → Type 0 where
  start : (s : InstrumentState) → IsTrail [] s
  plain :
      {es : List OutboxEvent} {s : InstrumentState} {e : OutboxEvent}
      → IsTrail es s
      → IsPlain e
      → IsTrail (e ∷ es) s
  moved :
      {es : List OutboxEvent} {s t : InstrumentState}
      → IsTrail es s
      → s ⟶ t
      → IsTrail (OutboxEvent.device_state_changed s t ∷ es) t
  fell :
      {es : List OutboxEvent} {s : InstrumentState} {q : ℕ} {c : Code}
      → IsTrail es s
      → IsTrail (OutboxEvent.alarm_raised q c ∷ es) InstrumentState.safe_fault
  recovered :
      {es : List OutboxEvent}
      → IsTrail es InstrumentState.safe_fault
      → IsTrail es InstrumentState.offline

unfoldable pub HasTrail : Db → Type 0
HasTrail d = IsTrail d.outbox d.instrument.state

KeepsTrail : Db → Db → Type 0
KeepsTrail d e = HasTrail d → HasTrail e

KeepsTrail-IsHistory : IsHistory KeepsTrail
unfolding KeepsTrail HasTrail apply_action emit update_sequence
KeepsTrail-IsHistory = record {
  start = λ d t. t;
  onward = λ a b c p q t. q (p t);
  others = outside_leads {Q = KeepsTrail} (record {
    start = λ d t. t;
    acts = λ r s now d t. plain t of_sequence;
    recovery = λ now d faulted t. recovered (subst (IsTrail d.outbox) faulted t);
  });
}

KeepsTrail-IsRunnerHistory : IsRunnerHistory KeepsTrail
unfolding KeepsTrail HasTrail emit update_sequence
KeepsTrail-IsRunnerHistory = record {
  history = KeepsTrail-IsHistory;
  commands = λ d _ t. t;
  exposures = λ d _ t. t;
  groups = λ d _ t. t;
  files = λ d _ _ t. t;
  alarms = λ d _ t. t;
  leads = λ d _ t. t;
  sequences = λ d k f same t. t;
  announces = λ d e p t. plain t p;
  refreshes = λ d i same t. subst (IsTrail d.outbox) (sym same) t;
  moves =
      λ d i allowed t. moved t ((assert_transition-iff-edge d.instrument.state i.state).0 allowed);
  faults = λ d i as' s c fault t.
      subst (IsTrail (OutboxEvent.alarm_raised s c ∷ d.outbox)) (sym fault) (fell t);
}

-- If the log is a trail to the state of the instrument before a poll, it is one after it, whatever
-- others do meanwhile: every change that was announced is an edge of the table, a fall into
-- SAFE_FAULT that is none is announced by an alarm, and no change goes unannounced but a recovery
-- from SAFE_FAULT to OFFLINE.
pub run_once-HasTrail :
    (st : Settings) (owner : ℕ) (w : World) → HasTrail w.db → HasTrail (run_once st owner w).1.db
unfolding KeepsTrail
run_once-HasTrail st owner w = (run_once-Leads KeepsTrail-IsRunnerHistory st owner).at w
