-- ===== src/Control/World/Others.antt =====
-- What others do to the database between two transactions, as three writes: none, the write of an
-- action that passed its guards, and a recovery from SAFE_FAULT.
use most_sprite.Prelude.{ℕ, ◌≡◌, refl, sym, subst, inl, inr}
use most_sprite.Domain.{InstrumentState}
use most_sprite.Domain.Errors.{Result, ok, err}
use most_sprite.Store.{Db, Sequence}
use most_sprite.Control.World.{World, Outside, outside, after_request}
use most_sprite.Api.Sequences.{
  ActionRequest, CommandAccepted, sequence_action, recover_instrument, apply_action,
}
use most_sprite.Api.Sequences.Actions.{sequence_action_writes, recover_instrument_writes}

-- A relation that covers the three writes.
pub record AllowsOthers (Q : Db → Db → Type 0) : Type 0 where
  pub start : (d : Db) → Q d d
  pub acts : (r : ActionRequest) (s : Sequence) (now : ℕ) (d : Db) → Q d (apply_action r s now d)
  pub recovery :
      (now : ℕ) (d : Db)
      → d.instrument.state ≡ InstrumentState.safe_fault
      → Q d (record d {
        instrument = record (d.instrument) { state = InstrumentState.offline; observed_at = now };
      })

module _ {Q : Db → Db → Type 0} (k : AllowsOthers Q) where
  request_leads :
      (r : ActionRequest) (now : ℕ) (d : Db) (a : Result (CommandAccepted × Db))
      → sequence_action r now d ≡ a
      → Q d (after_request d a (λ x. x.1))
  unfolding after_request
  request_leads r now d (err e) h = k.start d
  request_leads r now d (ok a) h = elim (sequence_action_writes r now d h) [
    | inl p ↦ subst (Q d) (sym p) (k.start d)
    | inr (s, p) ↦ subst (Q d) (sym p) (k.acts r s now d)
  ]

  recovery_leads :
      (now : ℕ) (d : Db) (a : Result Db)
      → recover_instrument now d ≡ a
      → Q d (after_request d a (λ x. x))
  unfolding after_request
  recovery_leads now d (err e) h = k.start d
  recovery_leads now d (ok e) h =
      let (faulted, p) = recover_instrument_writes now d h in
      subst (Q d) (sym p) (k.recovery now d faulted)

  pub outside_leads : (o : Outside) (w : World) → Q w.db (outside o w).db
  unfolding outside
  outside_leads (Outside.request r) w = request_leads r w.now w.db _ refl
  outside_leads Outside.recovers w = recovery_leads w.now w.db _ refl
  outside_leads (Outside.faults f active) w = k.start w.db
  outside_leads Outside.device_restarts w = k.start w.db
  outside_leads (Outside.free_space n) w = k.start w.db
  outside_leads (Outside.connects reached) w = k.start w.db
  outside_leads (Outside.time_passes n) w = k.start w.db
