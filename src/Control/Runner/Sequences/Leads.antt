-- ===== src/Control/Runner/Sequences/Leads.antt =====
-- The methods of runner.py for a sequence lead along every relation that has the runner's writes.
use most_sprite.Prelude.{ℕ, zero, suc, ◌+◌, refl, Option, none, some, Bool-cases, inl, inr}
use most_sprite.Domain.{InstrumentState, SequenceStatus, same_state}
use most_sprite.Domain.Errors.{Code, SpriteError, Result, ok, err}
use most_sprite.Devices.Contracts.{Order, Suffix}
use most_sprite.Store.{Settings, Db, Sequence, ModulationGroup, Exposure, update_sequence}
use most_sprite.Control.World.{World, Run, continue, gets, write, ◌>>=◌}
use most_sprite.Control.StateMachine.{is_allowed}
use most_sprite.Control.World.Relates.{
  Leads, leads_rules, Leads-write, Leads-bind, Leads-if, Leads-gets, Leads-pure, Leads-session,
  Leads-suppress, Leads-fresh_id,
}
use most_sprite.Control.Runner.History.{IsRunnerHistory, SameRequest-written, of_sequence, of_alarm}
use most_sprite.Control.Runner.Commands.Leads.{load_sequence-Leads, execute_command-Leads}
use most_sprite.Control.Runner.Transitions.Leads.{
  transition-Leads, mark_paused-Leads, mark_aborted-Leads, prepare_instrument-Leads,
  current_state-Leads,
}
use most_sprite.Control.Runner.Exposures.{Slot}
use most_sprite.Control.Runner.Exposures.Leads.{take_exposure-Leads}
use most_sprite.Control.Runner.Sequences.{
  Flow, Job, Before, heed_stop, heed_end, look, before_exposure, after_exposure, found_or_new,
  ensure_group, act, one_exposure, slot_of, exposures_loop, groups_loop, succeed, finish_sequence,
  prepare, run_prepared, run_sequence, fail_exposures, force_fault, raise_alarm, fail_found,
  fail_sequence, done_already, take, leave, subexposures,
}

module _ {Q : Db → Db → Type 0} (k : IsRunnerHistory Q) where
  heed_stop-Leads : (j : Job) (status : SequenceStatus) → Leads Q (heed_stop j status)
  unfolding heed_stop
  heed_stop-Leads j SequenceStatus.aborting =
      search (leads_rules, k.history, mark_aborted-Leads k) depth 8
  heed_stop-Leads j SequenceStatus.pausing =
      search (leads_rules, k.history, mark_paused-Leads k) depth 8
  heed_stop-Leads j _ = Leads-pure (k.history) _

  heed_end-Leads : (j : Job) (status : SequenceStatus) → Leads Q (heed_end j status)
  unfolding heed_end
  heed_end-Leads j SequenceStatus.aborted = Leads-pure (k.history) _
  heed_end-Leads j SequenceStatus.paused = Leads-pure (k.history) _
  heed_end-Leads j SequenceStatus.failed = Leads-pure (k.history) _
  heed_end-Leads j SequenceStatus.aborting = heed_stop-Leads j SequenceStatus.aborting
  heed_end-Leads j SequenceStatus.pausing = heed_stop-Leads j SequenceStatus.pausing
  heed_end-Leads j _ = Leads-pure (k.history) _

  look-Leads :
      (j : Job) (ordinal : ℕ) (e : Option Exposure) (s : Sequence) → Leads Q (look j ordinal e s)
  unfolding look
  look-Leads j ordinal (some e) s = Leads-pure (k.history) _
  look-Leads j ordinal none s =
      Leads-bind (k.history) _ _ (heed_stop-Leads j s.status) λ flow. Leads-pure (k.history) _

  before_exposure-Leads : (j : Job) (ordinal : ℕ) → Leads Q (before_exposure j ordinal)
  unfolding before_exposure
  before_exposure-Leads j ordinal = Leads-session (k.history) _ (
      Leads-bind (k.history) _ _ (load_sequence-Leads k j.sequence_id)
        λ s. Leads-bind (k.history) _ _ (Leads-gets (k.history) _) λ e. look-Leads j ordinal e s)

  after_exposure-Leads : (j : Job) → Leads Q (after_exposure j)
  unfolding after_exposure
  after_exposure-Leads j = Leads-session (k.history) _ (
      Leads-bind (k.history) _ _ (load_sequence-Leads k j.sequence_id)
        λ s. heed_end-Leads j s.status)

  found_or_new-Leads :
      (j : Job) (index : ℕ) (g : Option ModulationGroup) → Leads Q (found_or_new j index g)
  unfolding found_or_new
  found_or_new-Leads j index (some g) = Leads-pure (k.history) _
  found_or_new-Leads j index none = Leads-bind (k.history) _ _ (Leads-fresh_id (k.history)) λ id.
      Leads-bind (k.history) _ _ (Leads-write (k.history) _ (λ d. k.groups d _))
        λ _. Leads-pure (k.history) _

  ensure_group-Leads : (j : Job) (index : ℕ) → Leads Q (ensure_group j index)
  unfolding ensure_group
  ensure_group-Leads j index =
      Leads-if (k.history) _ _ _
        (Leads-session (k.history) _
          (Leads-bind (k.history) _ _ (Leads-gets (k.history) _) λ g. found_or_new-Leads j index g))
        (Leads-pure (k.history) _)

  module _ (st : Settings) where
    act-Leads : (j : Job) (slot : Slot) (b : Before) → Leads Q (act st j slot b)
    unfolding act
    act-Leads j slot done_already = Leads-pure (k.history) _
    act-Leads j slot leave = Leads-pure (k.history) _
    act-Leads j slot take =
        Leads-bind (k.history) _ _ (take_exposure-Leads k st slot) λ _. after_exposure-Leads j

    one_exposure-Leads : (j : Job) (slot : Slot) → Leads Q (one_exposure st j slot)
    unfolding one_exposure
    one_exposure-Leads j slot =
        Leads-bind (k.history) _ _ (before_exposure-Leads j slot.ordinal) (act-Leads j slot)

    exposures_loop-Leads :
        (j : Job) (group : Option ℕ) (index sub left : ℕ)
        → Leads Q (exposures_loop st j group index sub left)
    unfolding exposures_loop
    exposures_loop-Leads j group index sub zero = Leads-pure (k.history) _
    exposures_loop-Leads j group index sub (suc left) =
        let rest = exposures_loop-Leads j group index (sub + 1) left in
        Leads-bind (k.history) _ _ (one_exposure-Leads j (slot_of st j group index sub))
          (elim [ Flow.go ↦ rest | Flow.stop ↦ Leads-pure (k.history) _ ])

    groups_loop-Leads : (j : Job) (index left : ℕ) → Leads Q (groups_loop st j index left)
    unfolding groups_loop
    groups_loop-Leads j index zero = Leads-pure (k.history) _
    groups_loop-Leads j index (suc left) =
        let rest = groups_loop-Leads j (index + 1) left in
        Leads-bind (k.history) _ _ (ensure_group-Leads j index) λ group.
          Leads-bind (k.history) _ _ (exposures_loop-Leads j group index 1 (subexposures j.mode))
            (elim [ Flow.go ↦ rest | Flow.stop ↦ Leads-pure (k.history) _ ])

    succeeded_leads :
        (id : ℕ) (d : Db)
        → Q d (update_sequence id (λ s. record s { status = SequenceStatus.succeeded }) d)
    succeeded_leads id d = k.sequences d id _ λ s.
        SameRequest-written s SequenceStatus.succeeded s.completed_exposures s.attempt
          s.last_error_code

    succeed-Leads : (j : Job) (status : SequenceStatus) → Leads Q (succeed st j status)
    unfolding succeed
    succeed-Leads j SequenceStatus.running =
        Leads-bind (k.history) _ _ (Leads-write (k.history) _ (succeeded_leads j.sequence_id)) λ _.
          Leads-bind (k.history) _ _ (transition-Leads k InstrumentState.standby j.token)
            λ _. Leads-write (k.history) _ (λ d. k.announces d _ of_sequence)
    succeed-Leads j SequenceStatus.aborting = mark_aborted-Leads k j.sequence_id j.token
    succeed-Leads j SequenceStatus.pausing = mark_paused-Leads k j.sequence_id
    succeed-Leads j _ = Leads-pure (k.history) _

    finish_sequence-Leads : (j : Job) → Leads Q (finish_sequence st j)
    unfolding finish_sequence
    finish_sequence-Leads j = Leads-session (k.history) _ (
        Leads-bind (k.history) _ _ (load_sequence-Leads k j.sequence_id)
          λ s. succeed-Leads j s.status)

    prepare-Leads : (id token : ℕ) → Leads Q (prepare st id token)
    unfolding prepare
    prepare-Leads id token = Leads-session (k.history) _ (
        Leads-bind (k.history) _ _ (load_sequence-Leads k id) λ s.
          Leads-bind (k.history) _ _ (prepare_instrument-Leads k st s token)
            λ _. Leads-pure (k.history) s)

    run_prepared-Leads : (token : ℕ) (s : Sequence) → Leads Q (run_prepared st token s)
    unfolding run_prepared
    run_prepared-Leads token s =
        Leads-bind (k.history) _ _ (groups_loop-Leads _ 1 s.repeats)
          (elim [ Flow.go ↦ finish_sequence-Leads _ | Flow.stop ↦ Leads-pure (k.history) _ ])

    pub run_sequence-Leads : (id token : ℕ) → Leads Q (run_sequence st id token)
    unfolding run_sequence
    run_sequence-Leads id token =
        Leads-bind (k.history) _ _ (prepare-Leads id token) (run_prepared-Leads token)

    failed_leads :
        (id : ℕ) (code : Code) (d : Db)
        → Q d (
            update_sequence id
              (λ q. record q { status = SequenceStatus.failed; last_error_code = some code })
              d)
    failed_leads id code d =
        k.sequences d id _ λ s.
          SameRequest-written s SequenceStatus.failed s.completed_exposures s.attempt (some code)

    fail_exposures_leads : (id : ℕ) (d : Db) → Q d (fail_exposures st id d)
    unfolding fail_exposures
    fail_exposures_leads id d = k.exposures d _

    raise_alarm_leads : (id : ℕ) (code : Code) (d : Db) → Q d (raise_alarm st id code d)
    unfolding raise_alarm
    raise_alarm_leads id code d = k.history.onward _ _ _ (k.alarms d _) (k.announces _ _ of_alarm)

    -- The fall with its alarm.
    force_fault-Leads :
        (token : ℕ) (current : InstrumentState) (id : ℕ) (code : Code)
        → Leads Q (force_fault st token current >>= λ _. write (raise_alarm st id code))
    unfolding force_fault raise_alarm gets write ◌>>=◌ continue
    force_fault-Leads token current id code =
        let alarm = Leads-write (k.history) _ (raise_alarm_leads id code) in
        elim (Bool-cases (same_state current InstrumentState.safe_fault)) [
          | inl there ↦
              rw there (Leads-bind (k.history) _ _ (Leads-pure (k.history) tt) (λ _. alarm))
          | inr other ↦ elim (Bool-cases (is_allowed current InstrumentState.safe_fault)) [
            | inl allowed ↦
                rw (other, allowed)
                  (Leads-bind (k.history) _ _ (transition-Leads k InstrumentState.safe_fault token)
                    (λ _. alarm))
            | inr forced ↦ rw (other, forced) (record { at = λ w. k.faults w.db _ _ id code refl })
          ]
        ]

    behind :
        (p : Run (Unit {0})) (d : Db) (r : Result (Unit {0}) × World)
        → Leads Q p
        → Q d r.1.db
        → Q d (continue r (λ _. p)).1.db
    unfolding continue
    behind p d (ok u, v) last q = k.history.onward _ _ _ q (last.at v)
    behind p d (err e, v) last q = q

    behind_both :
        (n p : Run (Unit {0})) (d : Db) (r : Result (Unit {0}) × World)
        → Leads Q p
        → Q d (continue r (λ _. n)).1.db
        → Q d (continue r (λ _. n >>= λ _. p)).1.db
    unfolding continue ◌>>=◌
    behind_both n p d (ok u, v) last q = behind p d (n v) last q
    behind_both n p d (err e, v) last q = q

    -- Two actions that lead along the relation only together, and one behind them.
    after_both :
        (m n p : Run (Unit {0}))
        → Leads Q (m >>= λ _. n)
        → Leads Q p
        → Leads Q (m >>= λ _. n >>= λ _. p)
    unfolding ◌>>=◌
    after_both m n p both last = record { at = λ w. behind_both n p w.db (m w) last (both.at w) }

    fail_found-Leads :
        (token : ℕ) (code : Code) (found : Option Sequence)
        → Leads Q (fail_found st token code found)
    unfolding fail_found
    fail_found-Leads token code none = Leads-pure (k.history) _
    fail_found-Leads token code (some s) =
        Leads-bind (k.history) _ _ (Leads-write (k.history) _ (failed_leads s.id code)) λ _.
          Leads-bind (k.history) _ _ (Leads-write (k.history) _ (fail_exposures_leads s.id)) λ _.
            Leads-bind (k.history) _ _ (current_state-Leads k) λ current.
              after_both (force_fault st token current) (write (raise_alarm st s.id code)) _
                (force_fault-Leads token current s.id code)
                (Leads-suppress (k.history) _
                  (execute_command-Leads k st s Order.safe token Suffix.safe_fault))

    pub fail_sequence-Leads :
        (id token : ℕ) (e : SpriteError) → Leads Q (fail_sequence st id token e)
    unfolding fail_sequence
    fail_sequence-Leads id token e = Leads-session (k.history) _ (
        Leads-bind (k.history) _ _ (Leads-gets (k.history) _)
          λ found. fail_found-Leads token e.code found)
