-- ===== src/Control/Runner/Transitions/Ready.antt =====
-- What holds when `_prepare_instrument` has returned.
use most_sprite.Prelude.{
  ℕ, suc, ◌-◌, ◌≡◌, refl, sym, ap, ◌∙◌, arith, ltb, Bool, true, false, not, ◌&&◌, Bool-cases,
  Option-cases, Option, none, some, inl, inr, if◌then◌else◌,
}
use most_sprite.Domain.{InstrumentState, DataMode, same_state, same_state→eq}
use most_sprite.Domain.Errors.{
  safe_fault_latched, device_state_stale, interlock_unsafe, Result, ok, err,
}
use most_sprite.Devices.Contracts.{DeviceFeedback, Order, Suffix, DeviceCommand, CommandKey}
use most_sprite.Devices.Simulator.{
  Simulator, DeviceState, state, execute, perform, guarded, handle, remember,
}
use most_sprite.Devices.Simulator.Fencing.{execute_cases}
use most_sprite.Store.{Settings, Sequence, Command, emit, update_command}
use most_sprite.Control.StateMachine.{assert_transition}
use most_sprite.Control.World.{World, pure, fail, the, gets, lift, write, fresh_id, continue, ◌>>=◌}
use most_sprite.Control.World.Returns.{bind_returned}
use most_sprite.Control.Runner.Commands.{
  execute_command, device_execute, send, answer_or_send, is_succeeded,
}
use most_sprite.Control.Runner.Transitions.{
  device_reading, device_state, current_state, enter, change, transition, reconcile, check_device,
  configure, after_reading, prepare_from, prepare_instrument,
}

-- The writes of a change that passed its check.
checked_returned :
    (current target : InstrumentState) (token : ℕ) (w v : World) (r : Result (Unit {0}))
    → continue (r, w) (λ _. enter current target token) ≡ (ok tt, v)
    → (v.db.instrument.state ≡ target) × (v.device ≡ w.device)
unfolding continue enter device_state gets the write emit ◌>>=◌
checked_returned current target token w v (err e) h = cc
checked_returned current target token w v (ok _) h = elim (Option-cases (device_reading w)) [
  | inl unread ↦ let raised = rw unread at h in absurd (cc)
  | inr (d, read) ↦
      let done = rw read at h in
      (
        ap (λ (x : Result (Unit {0}) × World). x.1.db.instrument.state) (sym done),
        ap (λ (x : Result (Unit {0}) × World). x.1.device) (sym done),
      )
]

-- A change of the state that has returned is done, and the device is as it was.
change_returned :
    (target : InstrumentState) (token : ℕ) (w v : World)
    → change target token w.db.instrument.state w ≡ (ok tt, v)
    → (v.db.instrument.state ≡ target) × (v.device ≡ w.device)
unfolding change pure lift ◌>>=◌
change_returned target token w v h = elim (Bool-cases (same_state w.db.instrument.state target)) [
  | inl same ↦
      let p : w ≡ v = ap (λ (x : Result (Unit {0}) × World). x.1) (rw same at h) in
      (
        sym (ap (λ (x : World). x.db.instrument.state) p) ∙ same_state→eq _ _ same,
        sym (ap (λ (x : World). x.device) p),
      )
  | inr other ↦
      checked_returned w.db.instrument.state target token w v
        (assert_transition w.db.instrument.state target) (rw other at h)
]

transition_returned :
    (target : InstrumentState) (token : ℕ) (w v : World)
    → transition target token w ≡ (ok tt, v)
    → (v.db.instrument.state ≡ target) × (v.device ≡ w.device)
unfolding transition current_state gets ◌>>=◌ continue
transition_returned target token w v h = change_returned target token w v h

-- Only INITIALIZE and SAFE write the interlock, and only to set it from the faults or to true.
handle_interlock :
    (seed : ℕ) (c : DeviceCommand) (now : ℕ) (m : DataMode) (s : Simulator)
    → (handle seed c now (Order.set_optics m) s).1.values.interlock_safe ≡ s.values.interlock_safe
unfolding handle
handle_interlock seed c now m s = refl

execute_interlock :
    (seed : ℕ) (c : DeviceCommand) (now : ℕ) (m : DataMode) (s : Simulator)
    → c.order ≡ Order.set_optics m
    → (execute seed c now s).1.values.interlock_safe ≡ s.values.interlock_safe
unfolding remember perform guarded
execute_interlock seed c now m s o = elim (execute_cases seed c now s) [
  | inl (_, _, e) ↦ rw e refl
  | inr (_, e) ↦
      rw (e, o)
        (ground (
          arith,
          handle_interlock seed c now m (record s { last_fencing_token = c.fencing_token }),
        ))
]

-- What is read of the device is what it has.
device_state_returned :
    (w v : World) (d : DeviceState)
    → device_state w ≡ (ok d, v)
    → v.device.values.interlock_safe ≡ d.values.interlock_safe
unfolding device_state device_reading gets state the ◌>>=◌ continue
device_state_returned w v d h = ground arith

-- The instrument is READY and its interlock is safe.
pub IsReady : World → Type 0
IsReady w =
    (w.db.instrument.state ≡ InstrumentState.ready) × (w.device.values.interlock_safe ≡ true)

module _ (st : Settings) where
  send_interlock :
      (s : Sequence) (key : CommandKey) (m : DataMode) (token id : ℕ) (found : Option Command)
      (w : World)
      → (send st s key (Order.set_optics m) token id found w).1.device.values.interlock_safe
        ≡ w.device.values.interlock_safe
  unfolding send ◌>>=◌ write update_command lift gets continue device_execute fail
  send_interlock s key m token id none w = elim (Bool-cases w.is_reachable) [
    | inl reached ↦ rw reached (execute_interlock _ _ w.now m w.device refl)
    | inr lost ↦ rw lost refl
  ]
  send_interlock s key m token id (some c) w = elim (Bool-cases w.is_reachable) [
    | inl reached ↦ rw reached (execute_interlock _ _ w.now m w.device refl)
    | inr lost ↦ rw lost refl
  ]

  answer_interlock :
      (s : Sequence) (key : CommandKey) (m : DataMode) (token id : ℕ) (found : Option Command)
      (w : World)
      → (answer_or_send st s key
          (Order.set_optics m)
          token
          id
          found
          w).1.device.values.interlock_safe
        ≡ w.device.values.interlock_safe
  unfolding answer_or_send gets
  answer_interlock s key m token id none w = send_interlock s key m token id none w
  answer_interlock s key m token id (some c) w = elim (Bool-cases (is_succeeded c.status)) [
    | inl done ↦ rw (done, answer_or_send) refl
    | inr new ↦ rw (new, answer_or_send) (send_interlock s key m token id (some c) w)
  ]

  execute_command_interlock :
      (s : Sequence) (m : DataMode) (token : ℕ) (suffix : Suffix) (w : World)
      → (execute_command st s (Order.set_optics m) token suffix w).1.device.values.interlock_safe
        ≡ w.device.values.interlock_safe
  unfolding execute_command ◌>>=◌ fresh_id gets continue
  execute_command_interlock s m token suffix w =
      answer_interlock s _ m token w.next_id _ (record w { next_id = suc w.next_id })

  -- The checks of the device passed only on a safe interlock.
  check_device_safe :
      (now : ℕ) (d : DeviceState) (w v : World)
      → check_device st now d w ≡ (ok tt, v)
      → (d.values.interlock_safe ≡ true) × (v ≡ w)
  unfolding check_device fail pure
  check_device_safe now d w v h =
      by_tests (ltb st.stale_state_ms (now - d.observed_at)) d.values.interlock_safe h
    where
      by_tests :
          (stale safe : Bool)
          → (if stale
                then fail device_state_stale
                else if not safe
                then fail interlock_unsafe
                else pure tt)
              w
            ≡ (ok tt, v)
          → (safe ≡ true) × (v ≡ w)
      by_tests true safe k = cc
      by_tests false false k = cc
      by_tests false true k = (refl, ap (λ (x : Result (Unit {0}) × World). x.1) (sym k))

  configure_returned :
      (s : Sequence) (token : ℕ) (current : InstrumentState) (w v : World)
      → configure st s token current w ≡ (ok tt, v)
      → IsReady v
  unfolding configure gets IsReady
  configure_returned s token current w v h =
      let (_, w1, h1, k1) = bind_returned _ _ w h in
      let (_, w2, h2, k2) = bind_returned _ _ w1 k1 in
      let (d, w3, h3, k3) = bind_returned _ _ w2 k2 in
      let (now, w4, h4, k4) = bind_returned _ _ w3 k3 in
      let (_, w5, h5, k5) = bind_returned _ _ w4 k4 in
      let (_, w6, h6, k6) = bind_returned _ _ w5 k5 in
      let (safe, same) = check_device_safe now d w4 w5 h5 in
      let (ready, kept) = transition_returned InstrumentState.ready token w6 v k6 in
      (
        ready,
        ap (λ (x : Simulator). x.values.interlock_safe) kept
            ∙ ap (λ (x : Result DeviceFeedback × World). x.1.device.values.interlock_safe) (sym h6)
            ∙ execute_command_interlock s s.mode token (Suffix.optics s.mode) w5
            ∙ ap (λ (x : World). x.device.values.interlock_safe) same
            ∙ ap (λ (x : Result ℕ × World). x.1.device.values.interlock_safe) (sym h4)
            ∙ device_state_returned w2 w3 d h3
            ∙ safe,
      )

  after_reading_returned :
      (s : Sequence) (token : ℕ) (current : InstrumentState) (d : DeviceState) (w v : World)
      → after_reading st s token current d w ≡ (ok tt, v)
      → IsReady v
  unfolding after_reading
  after_reading_returned s token current d w v h =
      by_test (not d.values.initialized && not (same_state current InstrumentState.offline)) h
    where
      by_test :
          (b : Bool)
          → (if b
                then (do reconciled ← reconcile token current; configure st s token reconciled)
                else configure st s token current)
              w
            ≡ (ok tt, v)
          → IsReady v
      by_test true k =
          let (reconciled, u, _, rest) = bind_returned (reconcile token current) _ w k in
          configure_returned s token reconciled u v rest
      by_test false k = configure_returned s token current w v k

  prepare_from_returned :
      (s : Sequence) (token : ℕ) (current : InstrumentState) (w v : World)
      → prepare_from st s token current w ≡ (ok tt, v)
      → IsReady v
  unfolding prepare_from fail
  prepare_from_returned s token current w v h =
      by_test (same_state current InstrumentState.safe_fault) h
    where
      by_test :
          (b : Bool)
          → (if b
                then fail safe_fault_latched
                else (do d ← device_state; after_reading st s token current d))
              w
            ≡ (ok tt, v)
          → IsReady v
      by_test true k = cc
      by_test false k =
          let (d, u, _, rest) = bind_returned device_state _ w k in
          after_reading_returned s token current d u v rest

  -- When the preparation of the instrument has returned, from whatever state, the instrument is READY
  -- and the interlock of the device is safe.
  pub prepare_instrument-IsReady :
      (s : Sequence) (token : ℕ) (w v : World)
      → prepare_instrument st s token w ≡ (ok tt, v)
      → IsReady v
  unfolding prepare_instrument current_state gets ◌>>=◌ continue
  prepare_instrument-IsReady s token w v h =
      prepare_from_returned s token w.db.instrument.state w v h
