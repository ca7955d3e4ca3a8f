-- ===== src/Control/Runner/Sequences/FailSafe.antt =====
-- The failure path of the control process, and the reading of the device on which it stands.
use most_sprite.Prelude.{
  Bool-cases, Option-cases, ◌⊎◌, inl, inr, none, ℕ, ◌≡◌, refl, sym, find_if-update_if, ap, subst,
  ==_iff, find_if_passes, ◌∙◌, arith, true, false, none, some, Option-cases, ◌⊎◌, inl, inr, All,
  List, [], ◌∷◌, ◌==◌, ◌&&◌, update_if, find_if, if◌then◌else◌,
}
use mathlib.Core.Option
use most_sprite.Domain.{InstrumentState, SequenceStatus, ExposureStatus, same_state, same_state→eq}
use most_sprite.Domain.Errors.{Code, SpriteError, Result, ok, err}
use most_sprite.Devices.Contracts.{Order, Suffix}
use most_sprite.Store.{Settings, Db, Sequence, Exposure, update_sequence, emit, get_sequence}
use most_sprite.Control.StateMachine.{is_allowed, assert_transition}
use most_sprite.Control.World.{
  World, pure, gets, write, lift, the, continue, suppress, session, roll_back, turn, ◌>>=◌,
}
use most_sprite.Control.Runner.Commands.{execute_command}
use most_sprite.Control.Runner.Commands.Effects.{OnlyCommands, execute_command-OnlyCommands}
use most_sprite.Control.Runner.Transitions.{
  transition, change, enter, device_state, device_reading, current_state,
}
use most_sprite.Control.Runner.Sequences.{
  force_fault, is_unfinished, fail_exposures, raise_alarm, fail_found, fail_sequence,
}

-- The tables that a change of the instrument's state leaves alone.
abbrev SameRows : World → World → Type 0
SameRows v w = (w.db.sequences ≡ v.db.sequences) × (w.db.exposures ≡ v.db.exposures)

-- An exposure with this status is not under way.
pub data IsClosed : ExposureStatus → Type 0 where
  committed_closed : IsClosed ExposureStatus.committed
  failed_closed : IsClosed ExposureStatus.failed
  replaced_closed : IsClosed ExposureStatus.replaced

-- What the failure path leaves behind for a sequence and the code of an error.
pub record IsFailedSafe (id : ℕ) (code : Code) (w : World) : Type 0 where
  pub faulted : w.db.instrument.state ≡ InstrumentState.safe_fault
  pub failed :
      (q : Sequence) × (get_sequence id w.db ≡ some q)
      × (q.status ≡ SequenceStatus.failed)
      × (q.last_error_code ≡ some code)
  pub closed : All (λ (e : Exposure). e.sequence_id ≡ id → IsClosed e.status) w.db.exposures

mark_failed : Code → Sequence → Sequence
mark_failed code q = record q { status = SequenceStatus.failed; last_error_code = some code }

get_sequence-id : (id : ℕ) (db : Db) (s : Sequence) → get_sequence id db ≡ some s → s.id ≡ id
unfolding get_sequence
get_sequence-id id db s found = (==_iff s.id id).0 (find_if_passes _ db.sequences found)

-- What a failed reading raises.
abbrev unread : SpriteError
unread = record { code = Code.control_failure; retryable = false }

pair-ok : (p : Result (Unit {0}) × World) → p.0 ≡ ok tt → p ≡ (ok tt, p.1)
pair-ok (ok tt, w) h = refl
pair-ok (err e, w) h = cc

pair-err : {e : SpriteError} (p : Result (Unit {0}) × World) → p.0 ≡ err e → p ≡ (err e, p.1)
pair-err (ok tt, w) h = cc
pair-err {e} (err x, w) h = ap (λ (r : Result (Unit {0})). (r, w)) h

-- How the failure path may end, from the world `u` in which it runs.
pub data FailureOutcome (id : ℕ) (code : Code) (u : World)
    : Result (Unit {0}) → World → Type 0 where
  safe : {v : World} → IsFailedSafe id code v → FailureOutcome id code u (ok tt) v
  -- The device could not be read: it raises, and its transaction is rolled back.
  undone :
      {e : SpriteError} {v : World}
      → device_reading u ≡ none
      → v.db ≡ u.db
      → FailureOutcome id code u (err e) v

raised-FailureOutcome :
    (id : ℕ) (code : Code) (u : World) (r : Result (Unit {0}) × World)
    → device_reading u ≡ none
    → r.0 ≡ err unread
    → FailureOutcome id code u (roll_back u.db r).0 (roll_back u.db r).1
unfolding roll_back
raised-FailureOutcome id code u (ok tt, v) none_read raised = cc
raised-FailureOutcome id code u (err e, v) none_read raised = FailureOutcome.undone none_read refl

module _ (st : Settings) where
  moved :
      (token : ℕ) (w : World)
      → same_state w.db.instrument.state InstrumentState.safe_fault ≡ false
      → is_allowed w.db.instrument.state InstrumentState.safe_fault ≡ true
      → transition InstrumentState.safe_fault token w
        ≡ enter w.db.instrument.state InstrumentState.safe_fault token w
  unfolding transition change current_state gets lift ◌>>=◌ continue assert_transition
  moved token w other allowed = rw (other, allowed) refl

  force_fault_lem :
      (token : ℕ) (w : World)
      → let (r, v) = force_fault st token w.db.instrument.state w in
        ((r ≡ ok tt) × (v.db.instrument.state ≡ InstrumentState.safe_fault) × SameRows w v)
        ⊎ ((device_reading w ≡ none) × (r ≡ err unread))
  unfolding force_fault enter device_state gets write the ◌>>=◌ continue pure emit
  force_fault_lem token w =
      let current = w.db.instrument.state in
      elim (Bool-cases (same_state current InstrumentState.safe_fault)) [
        | inl there ↦ rw there (inl (refl, same_state→eq _ _ there, (refl, refl)))
        | inr other ↦ elim (Bool-cases (is_allowed current InstrumentState.safe_fault)) [
          | inr forced ↦ rw (other, forced) (inl (refl, refl, (refl, refl)))
          | inl allowed ↦ elim (Option-cases (device_reading w)) [
            | inl none_read ↦
                rw (other, allowed, moved token w other allowed, none_read) (inr (refl, refl))
            | inr (d, read) ↦
                rw (other, allowed, moved token w other allowed, read)
                  (inl (refl, refl, (refl, refl)))
          ]
        ]
      ]

  marked : Sequence → Code → World → World
  marked s code w = record w {
    db = fail_exposures st s.id (update_sequence s.id (mark_failed code) w.db);
  }

  -- The rows are not read of the device.
  device_reading-marked :
      (s : Sequence) (code : Code) (w : World)
      → device_reading (marked s code w) ≡ none
      → device_reading w ≡ none
  unfolding device_reading marked
  device_reading-marked s code w h = h

  -- The world after the failure path, but for the last command to the device.
  faulted : ℕ → Sequence → Code → World → World
  faulted token s code w =
      let v = (force_fault st token (marked s code w).db.instrument.state (marked s code w)).1 in
      record v { db = raise_alarm st s.id code v.db }

  -- Where the fall has been written, it goes on from there; where it has raised, so has this.
  fail_found-eq :
      (token : ℕ) (code : Code) (s : Sequence) (w : World)
      → (force_fault st token (marked s code w).db.instrument.state (marked s code w)).0 ≡ ok tt
      → fail_found st token code (some s) w ≡ (
        ok tt,
        (execute_command st s Order.safe token Suffix.safe_fault (faulted token s code w)).1,
      )
  unfolding fail_found faulted marked mark_failed ◌>>=◌ write gets suppress current_state
  fail_found-eq token code s w returned =
      rw
        (pair-ok (force_fault st token (marked s code w).db.instrument.state (marked s code w))
          returned)
        refl

  fail_found-err :
      (token : ℕ) (code : Code) (s : Sequence) (w : World)
      → (force_fault st token (marked s code w).db.instrument.state (marked s code w)).0
        ≡ err unread
      → (fail_found st token code (some s) w).0 ≡ err unread
  unfolding fail_found marked mark_failed ◌>>=◌ write gets current_state
  fail_found-err token code s w raised =
      rw
        (pair-err (force_fault st token (marked s code w).db.instrument.state (marked s code w))
          raised)
        refl

  head-IsClosed :
      (id : ℕ) (e : Exposure)
      → let f : Exposure =
          (if (e.sequence_id == id) && is_unfinished st e.status
            then record e { status = ExposureStatus.failed }
            else e) in
        f.sequence_id ≡ id → IsClosed f.status
  unfolding is_unfinished
  head-IsClosed id e h = grind (arith, committed_closed, failed_closed, replaced_closed)

  fail_exposures-IsClosed :
      (id : ℕ) (es : List Exposure)
      → All
          (λ (e : Exposure). e.sequence_id ≡ id → IsClosed e.status)
          (update_if
            (λ e. (e.sequence_id == id) && is_unfinished st e.status)
            (λ e. record e { status = ExposureStatus.failed })
            es)
  unfolding update_if is_unfinished
  fail_exposures-IsClosed id [] = tt
  fail_exposures-IsClosed id (e ∷ es) = (head-IsClosed id e, fail_exposures-IsClosed id es)

  marked_row :
      (code : Code) (s : Sequence) (ss : List Sequence)
      → find_if (λ q. q.id == s.id) ss ≡ some s
      → find_if (λ q. q.id == s.id) (update_if (λ q. q.id == s.id) (mark_failed code) ss)
        ≡ some (mark_failed code s)
  unfolding mark_failed
  marked_row code s ss found =
      find_if-update_if (λ (q : Sequence). q.id == s.id) _ (λ q. refl) ss ∙ ap (Option.map _) found

  faulted-IsFailedSafe :
      (token : ℕ) (s : Sequence) (code : Code) (w : World)
      → get_sequence s.id w.db ≡ some s
      → (let v = (force_fault st token (marked s code w).db.instrument.state (marked s code w)).1 in
          (v.db.instrument.state ≡ InstrumentState.safe_fault) × SameRows (marked s code w) v)
      → IsFailedSafe s.id code (faulted token s code w)
  unfolding faulted raise_alarm marked fail_exposures emit update_sequence get_sequence mark_failed
  faulted-IsFailedSafe token s code w found v = record {
    faulted = v.0;
    failed = (
      mark_failed code s,
      ap (find_if (λ q. q.id == s.id)) (v.1.0) ∙ marked_row code s w.db.sequences found,
      refl,
      refl,
    );
    closed = rw (v.1.1) (fail_exposures-IsClosed s.id w.db.exposures);
  }

  -- A command changes none of this.
  OnlyCommands-IsFailedSafe :
      (id : ℕ) (code : Code) (v w : World)
      → OnlyCommands v w
      → IsFailedSafe id code v
      → IsFailedSafe id code w
  unfolding get_sequence
  OnlyCommands-IsFailedSafe id code v w p f = record {
    faulted = ap (λ (z : World). z.db.instrument.state) p ∙ f.faulted;
    failed =
        let (q, found, status, error) = f.failed in
        (q, ap (λ (z : World). find_if (λ r. r.id == id) z.db.sequences) p ∙ found, status, error);
    closed = rw (ap (λ (z : World). z.db.exposures) p) (f.closed);
  }

  -- If the sequence is there when the failure path runs, in a world in which others have had their
  -- turn: either it returns, and leaves the instrument in SAFE_FAULT, the sequence FAILED with the
  -- code of the error, and none of the exposures of the sequence under way; or it raises, only where
  -- the device cannot be read, and then it leaves the database as the others left it.
  pub fail_sequence_outcome :
      (id token : ℕ) (e : SpriteError) (w : World) (s : Sequence)
      → get_sequence id (turn w).db ≡ some s
      → FailureOutcome id e.code
          (turn w)
          (fail_sequence st id token e w).0
          (fail_sequence st id token e w).1
  unfolding fail_sequence session ◌>>=◌ gets roll_back continue
  fail_sequence_outcome id token e w s found =
      let before = marked s e.code (turn w) in
      let own =
        subst (λ k. get_sequence k (turn w).db ≡ some s)
          (sym (get_sequence-id id (turn w).db s found)) found in
      elim (force_fault_lem token before) [
        | inl (returned, state, rows) ↦
            let v = faulted token s e.code (turn w) in
            let u = (execute_command st s Order.safe token Suffix.safe_fault v).1 in
            let safe =
              OnlyCommands-IsFailedSafe s.id e.code v u
                (execute_command-OnlyCommands st s Order.safe token Suffix.safe_fault v)
                (faulted-IsFailedSafe token s e.code (turn w) own (state, rows)) in
            rw (found, fail_found-eq token e.code s (turn w) returned)
              (FailureOutcome.safe (
                subst (λ k. IsFailedSafe k e.code u) (get_sequence-id id (turn w).db s found) safe))
        | inr (none_read, raised) ↦ rw found (
            raised-FailureOutcome id e.code (turn w) (fail_found st token e.code (some s) (turn w))
              (device_reading-marked s e.code (turn w) none_read)
              (fail_found-err token e.code s (turn w) raised))
      ]
