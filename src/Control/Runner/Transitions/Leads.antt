-- ===== src/Control/Runner/Transitions/Leads.antt =====
-- The methods of runner.py for transitions lead along every relation that has the runner's writes.
use most_sprite.Prelude.{ℕ, ◌≡◌, refl, inl, inr, Bool, Bool-cases, Option-cases}
use most_sprite.Domain.{InstrumentState, SequenceStatus, same_state}
use most_sprite.Domain.Errors.{Result, ok, err}
use most_sprite.Devices.Simulator.{DeviceState}
use most_sprite.Control.StateMachine.{assert_transition}
use most_sprite.Store.{Settings, Db, Sequence, OutboxEvent, set_sequence_status, emit}
use most_sprite.Control.World.{World, Run, continue, gets, the, lift, pure, write, ◌>>=◌, ◌>>◌}
use most_sprite.Control.World.Relates.{
  Leads, leads_rules, Leads-bind, Leads-the, Leads-write, Leads-gets, Leads-pure, Leads-if,
}
use most_sprite.Control.Runner.History.{IsRunnerHistory, SameRequest-written, of_sequence}
use most_sprite.Control.Runner.Commands.Leads.{complete_action_command-Leads, execute_command-Leads}
use most_sprite.Control.Runner.Transitions.{
  device_reading, device_state, current_state, enter, change, transition, announce_status, when,
  mark_paused, mark_aborted, reconcile, initialize, check_device, configure, after_reading,
  prepare_from, prepare_instrument,
}

module _ {Q : Db → Db → Type 0} (k : IsRunnerHistory Q) where
  pub current_state-Leads : Leads Q current_state
  unfolding current_state
  current_state-Leads = Leads-gets (k.history) _

  pub device_state-Leads : Leads Q device_state
  unfolding device_state
  device_state-Leads =
      Leads-bind (k.history) _ _ (Leads-gets (k.history) _) (λ o. Leads-the (k.history) o)

  -- The check, and the writes if it passes.
  checked-Leads :
      (target : InstrumentState) (token : ℕ) (w : World) (r : Result (Unit {0}))
      → assert_transition w.db.instrument.state target ≡ r
      → Q w.db ((lift r >> enter w.db.instrument.state target token) w).1.db
  unfolding enter lift gets write device_state the ◌>>=◌ continue
  checked-Leads target token w (ok _) e = elim (Option-cases (device_reading w)) [
    | inl unread ↦ rw unread (k.history.start w.db)
    | inr (d, read) ↦ rw read (k.moves w.db _ e)
  ]
  checked-Leads target token w (err _) e = k.history.start w.db

  pub transition-Leads : (target : InstrumentState) (token : ℕ) → Leads Q (transition target token)
  unfolding transition change current_state gets ◌>>=◌ pure
  transition-Leads target token = record {
    at = λ w. elim (Bool-cases (same_state w.db.instrument.state target)) [
      | inl same ↦ rw same (k.history.start w.db)
      | inr other ↦ rw other (checked-Leads target token w _ refl)
    ];
  }

  set_status-Leads :
      (id : ℕ) (status : SequenceStatus) → (d : Db) → Q d (set_sequence_status id status d)
  unfolding set_sequence_status
  set_status-Leads id status d =
      k.sequences d id _
        (λ s. SameRequest-written s status s.completed_exposures s.attempt s.last_error_code)

  pub announce_status-Leads :
      (id : ℕ) (status : SequenceStatus) → Leads Q (announce_status id status)
  unfolding announce_status
  announce_status-Leads id status =
      Leads-write (k.history) _
        (λ d. k.history.onward _ _ _ (set_status-Leads id status d) (k.announces _ _ of_sequence))

  when-Leads : (b : Bool) (m : Run (Unit {0})) → Leads Q m → Leads Q (when b m)
  unfolding when
  when-Leads b m l = Leads-if (k.history) b _ _ l (Leads-pure (k.history) _)

  plain-Leads :
      (id : ℕ) (status : SequenceStatus)
      → Leads Q (write (emit (OutboxEvent.sequence_state_changed id status)))
  plain-Leads id status = Leads-write (k.history) _ (λ d. k.announces d _ of_sequence)

  pub mark_paused-Leads : (id : ℕ) → Leads Q (mark_paused id)
  unfolding mark_paused
  mark_paused-Leads id =
      search
        (
          leads_rules,
          Leads-write,
          k.history,
          current_state-Leads,
          when-Leads,
          transition-Leads,
          set_status-Leads,
          complete_action_command-Leads k,
          plain-Leads,
        )
        depth 16

  pub mark_aborted-Leads : (id token : ℕ) → Leads Q (mark_aborted id token)
  unfolding mark_aborted
  mark_aborted-Leads id token =
      search
        (
          leads_rules,
          Leads-write,
          k.history,
          current_state-Leads,
          when-Leads,
          transition-Leads,
          set_status-Leads,
          complete_action_command-Leads k,
          plain-Leads,
        )
        depth 14

  reconcile-Leads : (token : ℕ) (current : InstrumentState) → Leads Q (reconcile token current)
  unfolding reconcile
  reconcile-Leads token InstrumentState.ready =
      search (leads_rules, k.history, transition-Leads) depth 8
  reconcile-Leads token InstrumentState.standby =
      search (leads_rules, k.history, transition-Leads) depth 8
  reconcile-Leads token _ = search (leads_rules, k.history)

  module _ (st : Settings) where
    initialize-Leads : (s : Sequence) (token : ℕ) → Leads Q (initialize st s token)
    unfolding initialize
    initialize-Leads s token =
        search (leads_rules, k.history, transition-Leads, execute_command-Leads k st) depth 10

    check_device-Leads : (now : ℕ) (d : DeviceState) → Leads Q (check_device st now d)
    unfolding check_device
    check_device-Leads now d = search (leads_rules, k.history) depth 8

    configure-Leads :
        (s : Sequence) (token : ℕ) (current : InstrumentState)
        → Leads Q (configure st s token current)
    unfolding configure
    configure-Leads s token current =
        search
          (
            leads_rules,
            k.history,
            when-Leads,
            initialize-Leads,
            transition-Leads,
            device_state-Leads,
            check_device-Leads,
            execute_command-Leads k st,
          )
          depth 18

    after_reading-Leads :
        (s : Sequence) (token : ℕ) (current : InstrumentState) (d : DeviceState)
        → Leads Q (after_reading st s token current d)
    unfolding after_reading
    after_reading-Leads s token current d =
        search (leads_rules, k.history, reconcile-Leads, configure-Leads) depth 8

    prepare_from-Leads :
        (s : Sequence) (token : ℕ) (current : InstrumentState)
        → Leads Q (prepare_from st s token current)
    unfolding prepare_from
    prepare_from-Leads s token current =
        search (leads_rules, k.history, device_state-Leads, after_reading-Leads) depth 8

    pub prepare_instrument-Leads :
        (s : Sequence) (token : ℕ) → Leads Q (prepare_instrument st s token)
    unfolding prepare_instrument
    prepare_instrument-Leads s token =
        search (leads_rules, k.history, current_state-Leads, prepare_from-Leads) depth 8
