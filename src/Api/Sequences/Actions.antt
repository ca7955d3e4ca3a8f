-- ===== src/Api/Sequences/Actions.antt =====
-- What an action of a client does to the database, for `sequence_action` and `recover_instrument`
-- of backend/src/most_sprite/api/routes.py.
use most_sprite.Prelude.{ℕ, ◌≡◌, arith, Bool-cases, Option, none, some, ◌⊎◌, inl, inr}
use most_sprite.Domain.{InstrumentState, same_state, same_state→eq}
use most_sprite.Domain.Errors.{ok}
use most_sprite.Store.{Db, Sequence, Command, get_sequence}
use most_sprite.Control.StateMachine.{assert_transition}
use most_sprite.Api.Sequences.{
  ActionRequest, CommandAccepted, apply_action, guarded_action, answer_or_act, on_sequence,
  sequence_action, recover_instrument,
}

module _ (r : ActionRequest) (now : ℕ) where
  pub guarded_action_writes :
      (db : Db) (s : Sequence) {a : CommandAccepted × Db}
      → guarded_action r now db s ≡ ok a
      → a.1 ≡ apply_action r s now db
  unfolding guarded_action
  guarded_action_writes db s h = ground arith

  -- A request that is answered has written nothing, or has done the one write of its action.
  pub sequence_action_writes :
      (db : Db) {a : CommandAccepted × Db}
      → sequence_action r now db ≡ ok a
      → (a.1 ≡ db) ⊎ ((s : Sequence) × (a.1 ≡ apply_action r s now db))
  unfolding sequence_action on_sequence answer_or_act
  sequence_action_writes db {a} h = by_row (get_sequence r.sequence_id db) h
    where
      by_command :
          (s : Sequence) (c : Option Command)
          → answer_or_act r now db s c ≡ ok a
          → (a.1 ≡ db) ⊎ ((s : Sequence) × (a.1 ≡ apply_action r s now db))
      by_command s none e = inr (s, guarded_action_writes db s e)
      by_command s (some c) e = inl cc

      by_row :
          (o : Option Sequence)
          → on_sequence r now db o ≡ ok a
          → (a.1 ≡ db) ⊎ ((s : Sequence) × (a.1 ≡ apply_action r s now db))
      by_row none e = cc
      by_row (some s) e = by_command s _ e

module _ (now : ℕ) where
  -- A recovery is answered only in SAFE_FAULT, and leaves the instrument OFFLINE.
  pub recover_instrument_writes :
      (db : Db) {e : Db}
      → recover_instrument now db ≡ ok e
      → (db.instrument.state ≡ InstrumentState.safe_fault)
        × (e ≡ record db {
          instrument = record (db.instrument) {
            state = InstrumentState.offline;
            observed_at = now;
          };
        })
  unfolding recover_instrument assert_transition
  recover_instrument_writes db {e} h =
      elim (Bool-cases (same_state db.instrument.state InstrumentState.safe_fault)) [
        | inl f ↦ (same_state→eq _ _ f, cc)
        | inr f ↦ cc
      ]
