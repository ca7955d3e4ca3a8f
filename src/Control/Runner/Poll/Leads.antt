-- ===== src/Control/Runner/Poll/Leads.antt =====
-- A poll of the control process leads along every relation that has the runner's writes.
use most_sprite.Prelude.{ℕ, ◌-◌, ltb, Bool-cases, inl, inr, refl, Option, none, some, true}
use most_sprite.Domain.{SequenceStatus}
use most_sprite.Domain.Errors.{Result, ok, err}
use most_sprite.Control.Runner.Commands.{start_or_resume}
use most_sprite.Store.{Settings, Db, Sequence}
use most_sprite.Control.World.{World, pure}
use most_sprite.Control.World.Relates.{
  Leads, Leads-write, Leads-bind, Leads-if, Leads-gets, Leads-pure, Leads-session,
}
use most_sprite.Control.Runner.History.{IsRunnerHistory, of_heartbeat}
use most_sprite.Control.Runner.Commands.Leads.{complete_action_command-Leads}
use most_sprite.Control.Runner.Transitions.Leads.{device_state-Leads, announce_status-Leads}
use most_sprite.Control.Runner.Sequences.Leads.{run_sequence-Leads, fail_sequence-Leads}
use most_sprite.Control.Runner.Sequences.{run_sequence}
use most_sprite.Control.Runner.Poll.{
  lead, mark_refreshed, refresh, refresh_idle_snapshot, claim_found, claim_led, claim_sequence,
  handle, run_guarded, run_claimed, run_once,
}

module _ {Q : Db → Db → Type 0} (k : IsRunnerHistory Q) where
  lead-Leads : (owner : ℕ) → Leads Q (lead owner)
  unfolding lead
  lead-Leads owner = record { at = λ w. k.leads w.db _ }

  mark_refreshed-Leads : Leads Q mark_refreshed
  unfolding mark_refreshed
  mark_refreshed-Leads = record { at = λ w. k.history.start w.db }

  refresh-Leads : (token : ℕ) → Leads Q (refresh token)
  unfolding refresh
  refresh-Leads token = Leads-bind (k.history) _ _ (device_state-Leads k) λ d.
      Leads-bind (k.history) _ _ (Leads-gets (k.history) _) λ old.
        Leads-bind (k.history) _ _ (Leads-write (k.history) _ (λ b. k.refreshes b _ refl)) λ _.
          Leads-bind (k.history) _ _ mark_refreshed-Leads λ _.
            Leads-if (k.history) _ _ _
              (Leads-write (k.history) _ (λ b. k.announces b _ of_heartbeat))
              (Leads-pure (k.history) _)

  refresh_idle_snapshot-Leads : (token : ℕ) → Leads Q (refresh_idle_snapshot token)
  unfolding refresh_idle_snapshot pure
  refresh_idle_snapshot-Leads token = record {
    at = λ w. elim (Bool-cases (ltb (w.now - w.last_idle_refresh) 1000)) [
      | inl early ↦ rw early (k.history.start w.db)
      | inr late ↦ rw late ((refresh-Leads token).at w)
    ];
  }

  pub claim_found-Leads : (token : ℕ) (found : Option Sequence) → Leads Q (claim_found token found)
  unfolding claim_found
  claim_found-Leads token none =
      Leads-bind (k.history) _ _ (refresh_idle_snapshot-Leads token) λ _. Leads-pure (k.history) _
  claim_found-Leads token (some s) =
      Leads-bind (k.history) _ _
        (Leads-bind (k.history) _ _ (complete_action_command-Leads k s.id start_or_resume)
          λ _. announce_status-Leads k s.id SequenceStatus.running)
        λ _. Leads-pure (k.history) _

  claim_led-Leads : (token : Option ℕ) → Leads Q (claim_led token)
  unfolding claim_led
  claim_led-Leads none = Leads-pure (k.history) _
  claim_led-Leads (some token) =
      Leads-bind (k.history) _ _ (Leads-gets (k.history) _) (claim_found-Leads token)

  claim_sequence-Leads : (owner : ℕ) → Leads Q (claim_sequence owner)
  unfolding claim_sequence
  claim_sequence-Leads owner =
      Leads-session (k.history) _ (Leads-bind (k.history) _ _ (lead-Leads owner) claim_led-Leads)

  module _ (st : Settings) where
    handle_leads :
        (id token : ℕ) (d : Db) (r : Result (Unit {0}) × World)
        → Q d r.1.db
        → Q d (handle st id token r).1.db
    unfolding handle
    handle_leads id token d (ok _, w) q = q
    handle_leads id token d (err e, w) q = k.history.onward _ _ _ q (
        (Leads-bind (k.history) _ _ (fail_sequence-Leads k st id token e)
            λ _. Leads-pure (k.history) true).at
          w)

    run_claimed-Leads : (c : Option (ℕ × ℕ)) → Leads Q (run_claimed st c)
    unfolding run_claimed run_guarded
    run_claimed-Leads none = Leads-pure (k.history) _
    run_claimed-Leads (some (id, token)) = record {
      at = λ w.
          handle_leads id token w.db (run_sequence st id token w)
            ((run_sequence-Leads k st id token).at w);
    }

    -- Any relation that has the runner's writes holds between the database before and after a poll.
    pub run_once-Leads : (owner : ℕ) → Leads Q (run_once st owner)
    unfolding run_once
    run_once-Leads owner = Leads-bind (k.history) _ _ (claim_sequence-Leads owner) run_claimed-Leads
