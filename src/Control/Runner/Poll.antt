-- ===== src/Control/Runner/Poll.antt =====
-- `run_once` and `_refresh_idle_snapshot` of runner.py.
pub mod Leads
pub mod Outcome
use most_sprite.Prelude.{
  ℕ, ◌-◌, Bool, true, false, Option, none, some, List, [], ◌∷◌, ltb, ite, if◌then◌else◌, ℕ_discrete,
}
use most_sprite.Domain.{SequenceStatus}
use most_sprite.Domain.Errors.{Result, ok, err}
use most_sprite.Devices.Simulator.{DeviceState, Values, FaultTable}
use most_sprite.Control.Lease.{acquire_or_renew_lease}
use most_sprite.Store.{Settings, Sequence, OutboxEvent, emit}
use most_sprite.Control.World.{World, Run, pure, gets, write, session, ◌>>=◌, ◌>>◌}
use most_sprite.Control.Runner.Commands.{complete_action_command, start_or_resume}
use most_sprite.Control.Runner.Transitions.{device_state, announce_status}
use most_sprite.Control.Runner.Sequences.{run_sequence, fail_sequence}

-- `ttl_seconds` at its default, in milliseconds.
abbrev pub lease_ttl : ℕ
lease_ttl = 15000

is_queued : SequenceStatus → Bool
is_queued SequenceStatus.queued = true
is_queued _ = false

-- The oldest queued sequence, which is the last one of the table.
unfoldable pub oldest_queued : List Sequence → Option Sequence
unfolding is_queued
oldest_queued [] = none
oldest_queued (s ∷ ss) = elim (oldest_queued ss) [
  | some q ↦ some q
  | none ↦ if is_queued s.status then some s else none
]

Values-discrete : Discrete (Values × FaultTable)
Values-discrete = hlevel ℕ_discrete

-- `record.devices_json != state.values`
unfoldable pub readings_changed : Option DeviceState → DeviceState → Bool
unfolding Values-discrete
readings_changed none d = true
readings_changed (some c) d =
    ite (Values-discrete (c.values, c.faults) (d.values, d.faults)) false true

-- `acquire_or_renew_lease` by this process.
lead : ℕ → Run (Option ℕ)
lead owner w =
    let (token, lease) = acquire_or_renew_lease lease_ttl w.db.lease w.now owner in
    (ok token, record w { db = record (w.db) { lease = lease } })

mark_refreshed : Run (Unit {0})
mark_refreshed w = (ok tt, record w { last_idle_refresh = w.now })

refresh : ℕ → Run (Unit {0})
unfolding emit readings_changed mark_refreshed
refresh token = do
  d ← device_state
  old ← gets (λ w. w.db.instrument)
  write λ db. record db {
    instrument = record (db.instrument) {
      observed_at = d.observed_at;
      fencing_token = token;
      devices = some d;
    };
  }
  mark_refreshed
  if readings_changed old.devices d then write (emit (OutboxEvent.heartbeat old.state)) else pure tt

-- `_refresh_idle_snapshot`, at most once a second.
unfoldable pub refresh_idle_snapshot : ℕ → Run (Unit {0})
unfolding refresh
refresh_idle_snapshot token w =
    if ltb (w.now - w.last_idle_refresh) 1000 then pure tt w else refresh token w

take_up : Sequence → Run (Unit {0})
take_up s = do
  complete_action_command s.id start_or_resume
  announce_status s.id SequenceStatus.running

pub claim_found : ℕ → Option Sequence → Run (Option (ℕ × ℕ))
unfolding take_up
claim_found token none = do refresh_idle_snapshot token; pure none
claim_found token (some s) = do take_up s; pure (some (s.id, token))

pub claim_led : Option ℕ → Run (Option (ℕ × ℕ))
unfolding claim_found
claim_led none = pure none
claim_led (some token) = do
  found ← gets (λ w. oldest_queued w.db.sequences)
  claim_found token found

-- The first transaction of `run_once`: the sequence that this process now runs, under its token.
unfoldable pub claim_sequence : ℕ → Run (Option (ℕ × ℕ))
unfolding lead claim_led
claim_sequence owner = session (do token ← lead owner; claim_led token)

module _ (st : Settings) where
  handle : ℕ → ℕ → Result (Unit {0}) × World → Result Bool × World
  handle id token (ok _, w) = (ok true, w)
  handle id token (err e, w) = (do fail_sequence st id token e; pure true) w

  -- `try: _run_sequence except Exception: _fail_sequence`
  unfoldable pub run_guarded : ℕ → ℕ → Run Bool
  unfolding handle
  run_guarded id token w = handle id token (run_sequence st id token w)

  run_claimed : Option (ℕ × ℕ) → Run Bool
  run_claimed none = pure false
  run_claimed (some (id, token)) = run_guarded id token

  -- `run_once`
  unfoldable pub run_once : ℕ → Run Bool
  unfolding run_claimed
  run_once owner = do claimed ← claim_sequence owner; run_claimed claimed
