-- ===== src/Api/Sequences/Lifecycle.antt =====
-- What an action of a client does to a sequence: a step of its life, and nothing to any other
-- sequence.
use most_sprite.Prelude.{
  ℕ, subst, sym, ◌+◌, ◌≡◌, ◌≢◌, refl, ap, ◌∙◌, arith, Bool, true, false, Option, none, some, inl,
  inr, if◌then◌else◌, ◌==◌, find_if, find_if-update_if, find_if-update_if_keeps,
}
use mathlib.Core.Option
use most_sprite.Domain.{InstrumentState, SequenceStatus, same_state, same_state_refl}
use most_sprite.Domain.Errors.{ok, ok_injective, raise, recovery_not_required}
use most_sprite.Devices.Contracts.{Action, CommandKey, same_key_refl}
use most_sprite.Store.{Db, Sequence, Command, get_sequence, update_sequence, emit}
use most_sprite.Api.Sequences.{
  ActionRequest, CommandAccepted, accepted, is_action_allowed, action_target, action_result,
  is_retry, find_command, apply_action, action_command, guarded_action, answer_or_act, on_sequence,
  sequence_action, recover_instrument,
}
use most_sprite.Api.Sequences.Actions.{sequence_action_writes, recover_instrument_writes}

-- The steps of a sequence's life that a client can ask for: from a status to the next, and whether
-- the attempt counts up.
pub data ClientStep : Action → SequenceStatus → SequenceStatus → Bool → Type 0 where
  started : ClientStep Action.start SequenceStatus.validated SequenceStatus.queued false
  paused_queued : ClientStep Action.pause SequenceStatus.queued SequenceStatus.pausing false
  paused_running : ClientStep Action.pause SequenceStatus.running SequenceStatus.pausing false
  resumed : ClientStep Action.resume SequenceStatus.paused SequenceStatus.queued false
  retried : ClientStep Action.resume SequenceStatus.failed SequenceStatus.queued true
  aborted_queued : ClientStep Action.abort SequenceStatus.queued SequenceStatus.aborting false
  aborted_running : ClientStep Action.abort SequenceStatus.running SequenceStatus.aborting false
  aborted_pausing : ClientStep Action.abort SequenceStatus.pausing SequenceStatus.aborting false
  aborted_paused : ClientStep Action.abort SequenceStatus.paused SequenceStatus.aborted false

allowed_step :
    (a : Action) (s : SequenceStatus)
    → is_action_allowed a s ≡ true
    → ClientStep a s (action_result a s) (is_retry a s)
unfolding is_action_allowed action_result action_target is_retry
allowed_step Action.start SequenceStatus.validated h = started
allowed_step Action.pause SequenceStatus.queued h = paused_queued
allowed_step Action.pause SequenceStatus.running h = paused_running
allowed_step Action.resume SequenceStatus.paused h = resumed
allowed_step Action.resume SequenceStatus.failed h = retried
allowed_step Action.abort SequenceStatus.queued h = aborted_queued
allowed_step Action.abort SequenceStatus.running h = aborted_running
allowed_step Action.abort SequenceStatus.pausing h = aborted_pausing
allowed_step Action.abort SequenceStatus.paused h = aborted_paused
allowed_step _ _ h = cc

-- The key of a request among the commands.
abbrev pub key_of : ActionRequest → CommandKey
key_of r = CommandKey.api_sequence r.sequence_id r.action r.key

-- What a request that was answered has done to the sequence that it names, with its answer.
pub data Change (r : ActionRequest) (db : Db) (s : Sequence) : CommandAccepted → Db → Type 0 where
  -- Its key was recorded: it is answered from the command that has it, and nothing changes.
  answered_before :
      (c : Command) → find_command (key_of r) db ≡ some c → Change r db s (accepted r c) db
  -- Its key was not recorded: it is now, and the sequence has moved.
  stepped :
      {e : Db} (b : Bool) (st : SequenceStatus) (c : Command)
      → find_command (key_of r) db ≡ none
      → find_command (key_of r) e ≡ some c
      → ClientStep r.action s.status st b
      → (b ≡ true → db.instrument.state ≢ InstrumentState.safe_fault)
      → get_sequence r.sequence_id e
        ≡ some (record s { status = st; attempt = if b then s.attempt + 1 else s.attempt })
      → Change r db s (accepted r c) e

state_faulted :
    {x : InstrumentState}
    → x ≡ InstrumentState.safe_fault
    → same_state x InstrumentState.safe_fault ≡ true
state_faulted h = rw h (same_state_refl InstrumentState.safe_fault)

-- The write of an action, as it is seen by the next request.
apply_action_row :
    (r : ActionRequest) (now : ℕ) (db : Db) (s : Sequence)
    → get_sequence r.sequence_id db ≡ some s
    → get_sequence r.sequence_id (apply_action r s now db)
      ≡ some (record s {
        status = action_result r.action s.status;
        attempt = if is_retry r.action s.status then s.attempt + 1 else s.attempt;
      })
unfolding get_sequence apply_action update_sequence emit
apply_action_row r now db s found =
    find_if-update_if (λ (x : Sequence). x.id == r.sequence_id) _ (λ x. refl) db.sequences
    ∙ ap (Option.map _) found

recorded :
    (r : ActionRequest) (now : ℕ) (db : Db) (s : Sequence)
    → find_command (key_of r) (apply_action r s now db) ≡ some (action_command r s.status now)
unfolding find_command apply_action find_if update_sequence emit action_command
recorded r now db s = rw (same_key_refl (key_of r)) refl

module _ (r : ActionRequest) (now : ℕ) (db : Db) (s : Sequence) where
  guarded_action_answer :
      {a : CommandAccepted × Db}
      → guarded_action r now db s ≡ ok a
      → a ≡ (accepted r (action_command r s.status now), apply_action r s now db)
  unfolding guarded_action
  guarded_action_answer h = ground arith

  guarded-Change :
      {a : CommandAccepted × Db}
      → get_sequence r.sequence_id db ≡ some s
      → find_command (key_of r) db ≡ none
      → guarded_action r now db s ≡ ok a
      → Change r db s a.0 a.1
  unfolding guarded_action
  guarded-Change {a} found new h =
      subst (λ (x : CommandAccepted × Db). Change r db s x.0 x.1) (sym (guarded_action_answer h))
        (stepped (is_retry r.action s.status) (action_result r.action s.status)
          (action_command r s.status now) new (recorded r now db s)
          (allowed_step r.action s.status (ground arith))
          (λ retry faulted. ground (arith, state_faulted faulted))
          (apply_action_row r now db s found))

  act-Change :
      {a : CommandAccepted × Db} (c : Option Command)
      → get_sequence r.sequence_id db ≡ some s
      → find_command (key_of r) db ≡ c
      → answer_or_act r now db s c ≡ ok a
      → Change r db s a.0 a.1
  unfolding answer_or_act
  act-Change none found new h = guarded-Change found new h
  act-Change (some c) found known h =
      subst (λ (x : CommandAccepted × Db). Change r db s x.0 x.1) (ok_injective h)
        (answered_before c known)

  -- A request on a sequence of the table that is answered: either its key was recorded, and it is
  -- answered from the command that has the key and changes nothing; or its key was not recorded, and
  -- now it is, with the command of the answer, and its sequence has moved by a step of its life. That
  -- counts the attempt up where the sequence is retried, which it is not while the instrument is in
  -- SAFE_FAULT.
  pub sequence_action-Change :
      {a : CommandAccepted × Db}
      → get_sequence r.sequence_id db ≡ some s
      → sequence_action r now db ≡ ok a
      → Change r db s a.0 a.1
  unfolding sequence_action on_sequence
  sequence_action-Change {a} found h = act-Change _ found refl (rw found at h)

module _ (r : ActionRequest) (now : ℕ) (db : Db) where
  -- A request changes no other sequence.
  pub sequence_action_apart :
      (id : ℕ) {a : CommandAccepted × Db}
      → id ≢ r.sequence_id
      → sequence_action r now db ≡ ok a
      → get_sequence id a.1 ≡ get_sequence id db
  unfolding get_sequence apply_action update_sequence emit
  sequence_action_apart id apart h = elim (sequence_action_writes r now db h) [
    | inl same ↦ ap (get_sequence id) same
    | inr (s, p) ↦
        ap (get_sequence id) p
        ∙ find_if-update_if_keeps (λ (x : Sequence). x.id == id) _ _ (λ x same. ground arith)
            (λ x. refl) db.sequences
  ]

-- After a recovery the instrument is OFFLINE, and a second recovery is refused.
recover_instrument_once :
    (now later : ℕ) (db e : Db)
    → recover_instrument now db ≡ ok e
    → (e.instrument.state ≡ InstrumentState.offline)
      × (recover_instrument later e ≡ raise recovery_not_required)
unfolding recover_instrument same_state
recover_instrument_once now later db e h =
    let (faulted, p) = recover_instrument_writes now db h in rw p (refl, refl)
