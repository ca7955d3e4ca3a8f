-- ===== src/Control/Runner/Exposures/Leads.antt =====
-- The methods of runner.py for exposures lead along every relation that has the runner's writes.
use most_sprite.Prelude.{ℕ, zero, suc, ◌+◌, ◌-◌, min, ltb, not, Option, none, some}
use most_sprite.Prelude.Int.{ℤ}
use most_sprite.Domain.{SequenceStatus}
use most_sprite.Domain.Errors.{guider_lock_lost}
use most_sprite.Devices.Simulator.{DeviceState}
use most_sprite.Store.{
  Settings, Db, Sequence, Exposure, update_exposure, update_sequence, set_exposure_status,
}
use most_sprite.Acquisition.Leads.{commit_l0-Leads}
use most_sprite.Control.World.Relates.{
  Leads, leads_rules, Leads-write, Leads-bind, Leads-if, Leads-sleep, Leads-session, Leads-gets,
  Leads-pure, Leads-fail_retryable,
}
use most_sprite.Control.Runner.History.{IsRunnerHistory, SameRequest-written}
use most_sprite.Control.Runner.Commands.Leads.{load_sequence-Leads, execute_command-Leads}
use most_sprite.Control.Runner.Transitions.Leads.{
  device_state-Leads, transition-Leads, mark_paused-Leads, mark_aborted-Leads,
}
use most_sprite.Control.Runner.Exposures.{
  Slot, open_or_create, expose_row, start_running, start_with, start_exposure, wait_loop,
  wait_exposure, abort_exposure, count_completed, target_after, store_frame, commit_frame,
  read_frame, finish_exposure, take_rest, take_exposure,
}

module _ {Q : Db → Db → Type 0} (k : IsRunnerHistory Q) where
  update_exposure_leads : (id : ℕ) (f : Exposure → Exposure) (d : Db) → Q d (update_exposure id f d)
  unfolding update_exposure
  update_exposure_leads id f d = k.exposures d _

  open_or_create-Leads :
      (seq ordinal : ℕ) (e : Option Exposure) → Leads Q (open_or_create seq ordinal e)
  unfolding open_or_create
  open_or_create-Leads seq ordinal (some e) = search (leads_rules, k.history)
  open_or_create-Leads seq ordinal none =
      Leads-bind (k.history) _ _ (search (leads_rules, k.history)) λ id.
        Leads-bind (k.history) _ _ (Leads-write (k.history) _ (λ d. k.exposures d _))
          λ _. search (leads_rules, k.history)

  module _ (st : Settings) where
    expose_row-Leads :
        (slot : Slot) (s : Sequence) (a m : ℤ × ℤ) → Leads Q (expose_row st slot s a m)
    unfolding expose_row
    expose_row-Leads slot s (fr1, fr3) (m1, m3) =
        search
          (
            leads_rules,
            Leads-write,
            k.history,
            open_or_create-Leads,
            update_exposure_leads,
            transition-Leads k,
          )
          depth 20

    start_running-Leads : (slot : Slot) (s : Sequence) → Leads Q (start_running st slot s)
    unfolding start_running
    start_running-Leads slot s =
        search (leads_rules, k.history, execute_command-Leads k st, expose_row-Leads) depth 12

    start_with-Leads :
        (slot : Slot) (s : Sequence) (status : SequenceStatus)
        → Leads Q (start_with st slot s status)
    unfolding start_with
    start_with-Leads slot s SequenceStatus.aborting =
        search (leads_rules, k.history, mark_aborted-Leads k) depth 8
    start_with-Leads slot s SequenceStatus.pausing =
        search (leads_rules, k.history, mark_paused-Leads k) depth 8
    start_with-Leads slot s _ = start_running-Leads slot s

    start_exposure-Leads : (slot : Slot) → Leads Q (start_exposure st slot)
    unfolding start_exposure
    start_exposure-Leads slot =
        search (leads_rules, k.history, load_sequence-Leads k, start_with-Leads) depth 8

    wait_loop-Leads :
        (fuel id elapsed duration : ℕ) → Leads Q (wait_loop st fuel id elapsed duration)
    unfolding wait_loop
    wait_loop-Leads zero id elapsed duration = Leads-pure (k.history) _
    wait_loop-Leads (suc fuel) id elapsed duration =
        let rest = wait_loop-Leads fuel id (elapsed + min 100 (duration - elapsed)) duration in
        Leads-if (k.history) (ltb elapsed duration) _ _
          (Leads-bind (k.history) _ _ (Leads-sleep (k.history) _) λ _.
            Leads-bind (k.history) _ _ (Leads-session (k.history) _ (Leads-gets (k.history) _))
              λ aborting. Leads-if (k.history) aborting _ _ (Leads-pure (k.history) _) rest)
          (Leads-pure (k.history) _)

    wait_exposure-Leads : (id time : ℕ) → Leads Q (wait_exposure st id time)
    unfolding wait_exposure
    wait_exposure-Leads id time = wait_loop-Leads _ id 0 _

    abort_exposure-Leads :
        (slot : Slot) (s : Sequence) (id : ℕ) → Leads Q (abort_exposure st slot s id)
    unfolding abort_exposure set_exposure_status
    abort_exposure-Leads slot s id =
        search
          (
            leads_rules,
            Leads-write,
            k.history,
            execute_command-Leads k st,
            update_exposure_leads,
            mark_aborted-Leads k,
          )
          depth 12

    count_leads : (id : ℕ) (d : Db) → Q d (update_sequence id count_completed d)
    unfolding count_completed
    count_leads id d =
        k.sequences d id _ λ s.
          SameRequest-written s s.status (s.completed_exposures + 1) s.attempt s.last_error_code

    store_frame-Leads :
        (slot : Slot) (s : Sequence) (id ended : ℕ) (d : DeviceState)
        → Leads Q (store_frame st slot s id ended d)
    unfolding store_frame
    store_frame-Leads slot s id ended d =
        Leads-bind (k.history) _ _ (commit_l0-Leads k st _ ended id) λ _.
          Leads-bind (k.history) _ _ (Leads-write (k.history) _ (count_leads s.id)) λ _.
            Leads-bind (k.history) _ _ (load_sequence-Leads k s.id)
              λ counted. transition-Leads k (target_after st counted) slot.token

    commit_frame-Leads : (slot : Slot) (s : Sequence) (id : ℕ) → Leads Q (commit_frame st slot s id)
    unfolding commit_frame
    commit_frame-Leads slot s id = Leads-bind (k.history) _ _ (Leads-gets (k.history) _) λ ended.
        Leads-bind (k.history) _ _ (device_state-Leads k) λ d.
          Leads-if (k.history) (not d.values.guider_locked) _ _
            (Leads-fail_retryable (k.history) guider_lock_lost)
            (store_frame-Leads slot s id ended d)

    read_frame-Leads : (slot : Slot) (s : Sequence) (id : ℕ) → Leads Q (read_frame st slot s id)
    unfolding read_frame
    read_frame-Leads slot s id =
        search
          (
            leads_rules,
            Leads-write,
            k.history,
            execute_command-Leads k st,
            update_exposure_leads,
            transition-Leads k,
            commit_frame-Leads,
          )
          depth 16

    finish_exposure-Leads : (slot : Slot) (id : ℕ) → Leads Q (finish_exposure st slot id)
    unfolding finish_exposure
    finish_exposure-Leads slot id =
        search
          (leads_rules, k.history, load_sequence-Leads k, abort_exposure-Leads, read_frame-Leads)
          depth 14

    take_rest-Leads : (slot : Slot) (begun : Option (ℕ × ℕ)) → Leads Q (take_rest st slot begun)
    unfolding take_rest
    take_rest-Leads slot none = Leads-pure (k.history) _
    take_rest-Leads slot (some (id, time)) =
        Leads-bind (k.history) _ _ (wait_exposure-Leads _ time) λ _. finish_exposure-Leads slot id

    pub take_exposure-Leads : (slot : Slot) → Leads Q (take_exposure st slot)
    unfolding take_exposure
    take_exposure-Leads slot =
        Leads-bind (k.history) _ _ (start_exposure-Leads slot) (take_rest-Leads slot)
