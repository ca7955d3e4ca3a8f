-- ===== src/Devices/Simulator/Effects.antt =====
-- What an execution does to the readings of the simulator.
use most_sprite.Prelude.{ℕ, ◌≡◌, ◌≢◌, refl, ap, ◌∙◌, inl, inr, none, arith}
use most_sprite.Domain.{CommandStatus}
use most_sprite.Devices.Contracts.{Order, DeviceCommand}
use most_sprite.Devices.Simulator.{
  Simulator, Values, recall, remember, handle, guarded, perform, execute,
}
use most_sprite.Devices.Simulator.Fencing.{execute_cases}

-- The readings are the same but for the lock of the guider.
abbrev pub SameButLock : Values → Values → Type 0
SameButLock v w = record v { guider_locked = w.guider_locked } ≡ w

handle_refused :
    (seed : ℕ) (c : DeviceCommand) (now : ℕ) (o : Order) (s : Simulator)
    → (handle seed c now o s).0.status ≢ CommandStatus.succeeded
    → SameButLock s.values (handle seed c now o s).1.values
unfolding handle
handle_refused seed c now Order.initialize s h = absurd (h refl)
handle_refused seed c now (Order.expose m sub path) s h = ground arith
handle_refused seed c now Order.unknown s h = refl
handle_refused seed c now _ s h = absurd (h refl)

perform_refused :
    (seed : ℕ) (c : DeviceCommand) (now : ℕ) (s : Simulator)
    → (perform seed c now s).0.status ≢ CommandStatus.succeeded
    → SameButLock s.values (perform seed c now s).1.values
unfolding perform guarded
perform_refused seed c now s h =
    ground
      (arith, handle_refused seed c now c.order (record s { last_fencing_token = c.fencing_token }))

-- An execution whose answer is not SUCCEEDED (a refusal, a fault, a time-out) has changed no reading
-- but the lock of the guider.
pub execute_refused :
    (seed : ℕ) (c : DeviceCommand) (now : ℕ) (s : Simulator)
    → (execute seed c now s).0.status ≢ CommandStatus.succeeded
    → SameButLock s.values (execute seed c now s).1.values
unfolding remember
execute_refused seed c now s h = elim (execute_cases seed c now s) [
  | inl (_, _, e) ↦ rw e refl
  | inr (_, e) ↦ rw e (perform_refused seed c now s (λ p. h (rw e p)))
]

-- Only a handler answers SUCCEEDED.
perform_succeeded :
    (seed : ℕ) (c : DeviceCommand) (now : ℕ) (s : Simulator)
    → (perform seed c now s).0.status ≡ CommandStatus.succeeded
    → perform seed c now s
      ≡ handle seed c now c.order (record s { last_fencing_token = c.fencing_token })
unfolding perform guarded
perform_succeeded seed c now s h = ground arith

-- What a success of a new command is: its handler's work, remembered.
pub execute_succeeded :
    (seed : ℕ) (c : DeviceCommand) (now : ℕ) (s : Simulator)
    → recall c.idempotency_key s.feedback ≡ none
    → (execute seed c now s).0.status ≡ CommandStatus.succeeded
    → execute seed c now s
      ≡ remember c (handle seed c now c.order (record s { last_fencing_token = c.fencing_token }))
execute_succeeded seed c now s n h = elim (execute_cases seed c now s) [
  | inl (f, r, _) ↦ cc (n, r)
  | inr (_, e) ↦
      e ∙ ap (remember c) (perform_succeeded seed c now s (unfold remember in (rw e at h)))
]
