-- ===== src/Devices/Simulator/Fencing.antt =====
-- What the simulator promises to a control process that retries, and against one that was replaced.
use most_sprite.Prelude.{
  ℕ, ◌≤◌, ◌<◌, ◌≡◌, refl, ◌⊎◌, inl, inr, none, some, List, [], ◌∷◌, arith, ltb, lt→ltb, Bool,
  Option-cases, Bool-cases,
}
use native.Mathlib.Nat.{le_refl, le_trans}
use most_sprite.Domain.{CommandStatus}
use most_sprite.Domain.Errors.{stale_fencing_token}
use most_sprite.Devices.Contracts.{
  CommandKey, Order, DeviceCommand, DeviceFeedback, same_key, same_key_refl, same_key→eq,
}
use most_sprite.Devices.Simulator.{
  Simulator, Fault, inject_fault, recall, remember, handle, guarded, perform, execute,
}

recall_head :
    (k : CommandKey) (f : DeviceFeedback) (fs : List (CommandKey × DeviceFeedback))
    → recall k ((k, f) ∷ fs) ≡ some f
unfolding recall
recall_head k f fs = rw same_key_refl

-- A command, or a fault that is injected or cleared; the first two numbers of a command are its
-- digest and the time.
pub data DeviceEvent : Type 0 where
  command : ℕ → ℕ → DeviceCommand → DeviceEvent
  fault : Fault → Bool → DeviceEvent

unfoldable pub apply : DeviceEvent → Simulator → Simulator
apply (command seed now c) s = (execute seed c now s).1
apply (fault f active) s = inject_fault f active s

unfoldable pub apply_all : List DeviceEvent → Simulator → Simulator
apply_all [] s = s
apply_all (e ∷ es) s = apply_all es (apply e s)

-- What a command does: an answer from the memory, or a performance that is then remembered.
pub execute_cases :
    (seed : ℕ) (c : DeviceCommand) (now : ℕ) (s : Simulator)
    → ((f : DeviceFeedback) × (recall c.idempotency_key s.feedback ≡ some f)
        × (execute seed c now s ≡ (f, s)))
      ⊎ ((recall c.idempotency_key s.feedback ≡ none)
          × (execute seed c now s ≡ remember c (perform seed c now s)))
unfolding execute remember
execute_cases seed c now s = elim (Option-cases (recall c.idempotency_key s.feedback)) [
  | inl e ↦ inr (e, rw (execute, e))
  | inr (f, e) ↦ inl (f, e, rw (execute, e))
]

-- What no handler touches.
abbrev pub Keeps : Simulator → Simulator → Type 0
Keeps s t =
    (t.feedback ≡ s.feedback)
    × (t.faults ≡ s.faults)
    × (t.last_fencing_token ≡ s.last_fencing_token)

handle-Keeps :
    (seed : ℕ) (c : DeviceCommand) (now : ℕ) (o : Order) (s : Simulator)
    → Keeps s (handle seed c now o s).1
unfolding handle
handle-Keeps seed c now Order.initialize s = ground arith
handle-Keeps seed c now _ s = ground arith

guarded-Keeps :
    (seed : ℕ) (c : DeviceCommand) (now : ℕ) (s : Simulator) → Keeps s (guarded seed c now s).1
unfolding guarded
guarded-Keeps seed c now s = ground (arith, handle-Keeps seed c now c.order s)

perform_token :
    (seed : ℕ) (c : DeviceCommand) (now : ℕ) (s : Simulator)
    → let t = (perform seed c now s).1 in
      (t.feedback ≡ s.feedback)
      × (s.last_fencing_token ≤ t.last_fencing_token)
      × (c.fencing_token ≤ t.last_fencing_token)
unfolding perform
perform_token seed c now s = elim (Bool-cases (ltb c.fencing_token s.last_fencing_token)) [
  | inl stale ↦ rw stale (refl, le_refl _, ground arith)
  | inr fresh ↦
      let kept = guarded-Keeps seed c now (record s { last_fencing_token = c.fencing_token }) in
      rw fresh (kept.0, rw (kept.2) (ground arith), rw (kept.2) (le_refl _))
]

execute_recalled :
    (seed : ℕ) (c : DeviceCommand) (now : ℕ) (s : Simulator) (f : DeviceFeedback)
    → recall c.idempotency_key s.feedback ≡ some f
    → execute seed c now s ≡ (f, s)
unfolding execute
execute_recalled seed c now s f h = rw (h, execute) refl

execute_taken :
    (seed : ℕ) (c : DeviceCommand) (now : ℕ) (s : Simulator)
    → recall c.idempotency_key s.feedback ≡ none
    → c.fencing_token ≤ (execute seed c now s).1.last_fencing_token
unfolding execute remember
execute_taken seed c now s h = rw (h, execute) ((perform_token seed c now s).2)

execute_stale :
    (seed : ℕ) (c : DeviceCommand) (now : ℕ) (s : Simulator)
    → recall c.idempotency_key s.feedback ≡ none
    → c.fencing_token < s.last_fencing_token
    → let (answer, t) = execute seed c now s in
      (answer.status ≡ CommandStatus.rejected)
      × (answer.error_code ≡ some stale_fencing_token)
      × (t.values ≡ s.values)
      × (t.faults ≡ s.faults)
      × (t.last_fencing_token ≡ s.last_fencing_token)
unfolding execute perform remember
execute_stale seed c now s h older =
    rw (h, execute) (rw (lt→ltb _ _ older) (refl, refl, refl, refl, refl))

-- What is remembered stays, whatever is executed.
recall-execute :
    (seed : ℕ) (c : DeviceCommand) (now : ℕ) (s : Simulator) (k : CommandKey) (f : DeviceFeedback)
    → recall k s.feedback ≡ some f
    → recall k (execute seed c now s).1.feedback ≡ some f
unfolding recall remember
recall-execute seed c now s k f h = elim (execute_cases seed c now s) [
  | inl (_, _, e) ↦ rw e h
  | inr (n, e) ↦
      rw (e, remember)
        (elim (Bool-cases (same_key c.idempotency_key k)) [
          | inl same ↦ cc (n, h, same_key→eq c.idempotency_key k same)
          | inr other ↦ rw (recall, other) (rw ((perform_token seed c now s).0) h)
        ])
]

-- The answer of a command is remembered under its key.
recall-execute_self :
    (seed : ℕ) (c : DeviceCommand) (now : ℕ) (s : Simulator)
    → recall c.idempotency_key (execute seed c now s).1.feedback ≡ some (execute seed c now s).0
unfolding remember
recall-execute_self seed c now s = elim (execute_cases seed c now s) [
  | inl (f, r, e) ↦ rw e r
  | inr (_, e) ↦ rw (e, remember) (recall_head _ _ _)
]

execute_token :
    (seed : ℕ) (c : DeviceCommand) (now : ℕ) (s : Simulator)
    → s.last_fencing_token ≤ (execute seed c now s).1.last_fencing_token
unfolding remember
execute_token seed c now s = elim (execute_cases seed c now s) [
  | inl (_, _, e) ↦ rw e (le_refl _)
  | inr (_, e) ↦ rw (e, remember) ((perform_token seed c now s).1)
]

-- One event keeps the memory and does not lower the token.
apply_keeps :
    (e : DeviceEvent) (s : Simulator)
    → ((k : CommandKey) (f : DeviceFeedback)
        → recall k s.feedback ≡ some f
        → recall k (apply e s).feedback ≡ some f)
      × (s.last_fencing_token ≤ (apply e s).last_fencing_token)
unfolding apply inject_fault
apply_keeps (command seed now c) s =
    (λ k f. recall-execute seed c now s k f, execute_token seed c now s)
apply_keeps (fault f active) s = (λ k g h. h, le_refl _)

recall-apply_all :
    (es : List DeviceEvent) (s : Simulator) (k : CommandKey) (f : DeviceFeedback)
    → recall k s.feedback ≡ some f
    → recall k (apply_all es s).feedback ≡ some f
unfolding apply_all
recall-apply_all [] s k f h = h
recall-apply_all (e ∷ es) s k f h = recall-apply_all es (apply e s) k f ((apply_keeps e s).0 k f h)

apply_all_token :
    (es : List DeviceEvent) (s : Simulator)
    → s.last_fencing_token ≤ (apply_all es s).last_fencing_token
unfolding apply_all
apply_all_token [] s = le_refl _
apply_all_token (e ∷ es) s = le_trans ((apply_keeps e s).1) (apply_all_token es (apply e s))

-- After a command, and whatever commands and faults follow it, a command with its key gets the
-- answer that the first one got and leaves the simulator as it is: each key acts at most once.
pub execute_once :
    (seed now : ℕ) (c : DeviceCommand) (s : Simulator) (es : List DeviceEvent) (seed' now' : ℕ)
    (retry : DeviceCommand)
    → retry.idempotency_key ≡ c.idempotency_key
    → let t = apply_all es (execute seed c now s).1 in
      execute seed' retry now' t ≡ ((execute seed c now s).0, t)
execute_once seed now c s es seed' now' retry e =
    execute_recalled seed' retry now' (apply_all es (execute seed c now s).1) _
      (rw e (recall-apply_all es _ c.idempotency_key _ (recall-execute_self seed c now s)))

-- After a new command has been taken, and whatever follows it, a command with a smaller token whose
-- key is new is rejected as stale: readings, faults and the token stay as they were.
pub execute_fences :
    (seed now : ℕ) (c : DeviceCommand) (s : Simulator) (es : List DeviceEvent) (seed' now' : ℕ)
    (late : DeviceCommand)
    → recall c.idempotency_key s.feedback ≡ none
    → late.fencing_token < c.fencing_token
    → recall late.idempotency_key (apply_all es (execute seed c now s).1).feedback ≡ none
    → let t = apply_all es (execute seed c now s).1 in
      let (answer, u) = execute seed' late now' t in
      (answer.status ≡ CommandStatus.rejected)
      × (answer.error_code ≡ some stale_fencing_token)
      × (u.values ≡ t.values)
      × (u.faults ≡ t.faults)
      × (u.last_fencing_token ≡ t.last_fencing_token)
execute_fences seed now c s es seed' now' late new older fresh =
    execute_stale seed' late now' (apply_all es (execute seed c now s).1) fresh
      (le_trans older (le_trans (execute_taken seed c now s new) (apply_all_token es _)))
