-- ===== src/Control/Runner/Poll/Outcome.antt =====
-- How a poll ends, and what it leaves.
use most_sprite.Prelude.{
  ℕ, ◌-◌, ltb, Bool-cases, sym, ◌≡◌, refl, ap, subst, arith, Bool, true, false, Option, none, some,
  Option-cases, ◌⊎◌, inl, inr, List, [], ◌∷◌, find_if, ◌==◌, if◌then◌else◌,
}
use most_sprite.Domain.Errors.{SpriteError, Result, ok, err}
use most_sprite.Store.{Settings, Db, Sequence, emit, get_sequence}
use most_sprite.Control.World.{
  World, turn, the, session, roll_back, ◌>>=◌, gets, pure, write, continue,
}
use most_sprite.Control.World.Relates.{turn_leads}
use most_sprite.Control.Runner.Commands.{complete_action_command}
use most_sprite.Control.Runner.Transitions.{device_state, device_reading, announce_status}
use most_sprite.Control.Runner.Sequences.{run_sequence, fail_sequence}
use most_sprite.Control.Runner.Sequences.Leads.{run_sequence-Leads}
use most_sprite.Control.Runner.Sequences.FailSafe.{
  IsFailedSafe, FailureOutcome, fail_sequence_outcome,
}
use most_sprite.Control.Runner.Requests.{KeepsRequests, KeepsRequests-IsRunnerHistory}
use most_sprite.Control.Lease.{acquire_or_renew_lease}
use most_sprite.Control.Runner.Poll.Leads.{claim_found-Leads}
use most_sprite.Control.Runner.Poll.{
  lease_ttl, lead, readings_changed, refresh, mark_refreshed, refresh_idle_snapshot, take_up,
  claim_found, claim_led, claim_sequence, handle, run_guarded, run_claimed, run_once, oldest_queued,
}

module _ (st : Settings) where
  -- The failure path finds the row that was there when the run began.
  row_remains :
      (id token : ℕ) (w : World) (s : Sequence)
      → get_sequence id w.db ≡ some s
      → (t : Sequence) × (get_sequence id (turn (run_sequence st id token w).1).db ≡ some t)
  unfolding KeepsRequests
  row_remains id token w s found =
      let (t, at_end, _) =
        (run_sequence-Leads KeepsRequests-IsRunnerHistory st id token).at w id s found in
      let (u, later, _) =
        turn_leads (KeepsRequests-IsRunnerHistory.history) (run_sequence st id token w).1 id t
          at_end in
      (u, later)

  -- How the run of a sequence ends that started in the world `u`.
  pub data RunOutcome (id token : ℕ) (u : World) : Result Bool → World → Type 0 where
    -- It has returned.
    ran : {v : World} → run_sequence st id token u ≡ (ok tt, v) → RunOutcome id token u (ok true) v
    -- It has raised, and its failure has been written.
    failed :
        (e : SpriteError) {v : World}
        → (run_sequence st id token u).0 ≡ err e
        → IsFailedSafe id e.code v
        → RunOutcome id token u (ok true) v
    -- It has raised, and so has the failure path, which could not read the device: nothing of it is
    -- written.
    undone :
        (e : SpriteError) {later : SpriteError} {v : World}
        → (run_sequence st id token u).0 ≡ err e
        → device_reading (turn (run_sequence st id token u).1) ≡ none
        → v.db ≡ (turn (run_sequence st id token u).1).db
        → RunOutcome id token u (err later) v

  handle_undone :
      (id token : ℕ) (u : World) (e : SpriteError) (p : Result (Unit {0}) × World)
      → (run_sequence st id token u).0 ≡ err e
      → FailureOutcome id e.code (turn (run_sequence st id token u).1) p.0 p.1
      → RunOutcome id token u (continue p (λ _. pure true)).0 (continue p (λ _. pure true)).1
  unfolding continue pure
  handle_undone id token u e (ok tt, v) raised (FailureOutcome.safe is_safe) =
      RunOutcome.failed e raised is_safe
  handle_undone id token u e (err later, v) raised (FailureOutcome.undone none_read same) =
      RunOutcome.undone e raised none_read same

  handle_outcome :
      (id token : ℕ) (u : World) (r : Result (Unit {0}) × World)
      → run_sequence st id token u ≡ r
      → (t : Sequence) × (get_sequence id (turn r.1).db ≡ some t)
      → RunOutcome id token u (handle st id token r).0 (handle st id token r).1
  unfolding handle ◌>>=◌
  handle_outcome id token u (ok tt, v) done row = RunOutcome.ran done
  handle_outcome id token u (err e, v) done (t, row) =
      let left : (run_sequence st id token u).1 ≡ v =
        ap (λ (x : Result (Unit {0}) × World). x.1) done in
      handle_undone id token u e (fail_sequence st id token e v)
        (ap (λ (x : Result (Unit {0}) × World). x.0) done)
        (subst
          (λ x.
            FailureOutcome id e.code (turn x) (fail_sequence st id token e v).0
              (fail_sequence st id token e v).1)
          (sym left) (fail_sequence_outcome st id token e v t row))

  run_guarded_outcome :
      (id token : ℕ) (u : World) (s : Sequence)
      → get_sequence id u.db ≡ some s
      → RunOutcome id token u (run_guarded st id token u).0 (run_guarded st id token u).1
  unfolding run_guarded
  run_guarded_outcome id token u s found =
      handle_outcome id token u (run_sequence st id token u) refl (row_remains id token u s found)

finds_later :
    (id : ℕ) (q : Sequence) (qs : List Sequence) (b : Bool)
    → (t : Sequence) × (find_if (λ s. s.id == id) qs ≡ some t)
    → (t : Sequence) × ((if b then some q else find_if (λ s. s.id == id) qs) ≡ some t)
finds_later id q qs true (t, found) = (q, refl)
finds_later id q qs false (t, found) = (t, found)

oldest_found :
    (ss : List Sequence) (s : Sequence)
    → oldest_queued ss ≡ some s
    → (t : Sequence) × (find_if (λ q. q.id == s.id) ss ≡ some t)
unfolding oldest_queued find_if
oldest_found [] s h = cc
oldest_found (q ∷ qs) s h = elim (Option-cases (oldest_queued qs)) [
  | inl absent ↦ (q, ground arith)
  | inr (p, found) ↦ finds_later s.id q qs (q.id == s.id) (oldest_found qs s cc)
]

-- What the lease answers to this process in a world.
abbrev pub grant : ℕ → World → Option ℕ
grant owner w = (acquire_or_renew_lease lease_ttl w.db.lease w.now owner).0

-- How the first transaction of a poll may end, from the world `w` in which it runs.
data ClaimOutcome (token : Option ℕ) (w : World) : Result (Option (ℕ × ℕ)) → World → Type 0 where
  -- This process does not lead, or nothing is queued.
  idle :
      {v : World}
      → (token ≡ none) ⊎ (oldest_queued w.db.sequences ≡ none)
      → v.db.sequences ≡ w.db.sequences
      → ClaimOutcome token w (ok none) v
  unread : {e : SpriteError} {v : World} → device_reading w ≡ none → ClaimOutcome token w (err e) v
  taken :
      {v : World} (k : ℕ) (s t : Sequence)
      → token ≡ some k
      → oldest_queued w.db.sequences ≡ some s
      → get_sequence s.id v.db ≡ some t
      → ClaimOutcome token w (ok (some (s.id, k))) v

idle_cases :
    (token : ℕ) (w : World)
    → let (r, v) = refresh_idle_snapshot token w in
      ((r ≡ ok tt) × (v.db.sequences ≡ w.db.sequences))
      ⊎ ((e : SpriteError) × (device_reading w ≡ none) × (r ≡ err e))
unfolding refresh_idle_snapshot refresh device_state the gets write pure emit ◌>>=◌ continue
    mark_refreshed
idle_cases token w = elim (Bool-cases (ltb (w.now - w.last_idle_refresh) 1000)) [
  | inl early ↦ rw early (inl (refl, refl))
  | inr late ↦ elim (Option-cases (device_reading w)) [
    | inl none_read ↦ rw (late, none_read) (inr (_, refl, refl))
    | inr (d, read) ↦ elim (Bool-cases (readings_changed w.db.instrument.devices d)) [
      | inl changed ↦ rw (late, read, changed) (inl (refl, refl))
      | inr same ↦ rw (late, read, same) (inl (refl, refl))
    ]
  ]
]

idle_claim :
    (k : ℕ) (w : World) (p : Result (Unit {0}) × World)
    → oldest_queued w.db.sequences ≡ none
    → ((p.0 ≡ ok tt) × (p.1.db.sequences ≡ w.db.sequences))
      ⊎ ((e : SpriteError) × (device_reading w ≡ none) × (p.0 ≡ err e))
    → let (r, v) = continue p (λ _. pure none) in ClaimOutcome (some k) w r v
unfolding continue pure
idle_claim k w (ok tt, v) empty (inl (fine, same)) = ClaimOutcome.idle (inr empty) same
idle_claim k w (ok tt, v) empty (inr (e, none_read, raised)) = cc
idle_claim k w (err x, v) empty (inl (fine, same)) = cc
idle_claim k w (err x, v) empty (inr (e, none_read, raised)) = ClaimOutcome.unread none_read

claim_found_outcome :
    (k : ℕ) (w : World) (found : Option Sequence)
    → oldest_queued w.db.sequences ≡ found
    → ClaimOutcome (some k) w (claim_found k found w).0 (claim_found k found w).1
unfolding claim_found take_up ◌>>=◌ continue pure complete_action_command announce_status write gets
    KeepsRequests
claim_found_outcome k w none h = idle_claim k w (refresh_idle_snapshot k w) h (idle_cases k w)
claim_found_outcome k w (some s) h =
    let (t, found) = oldest_found w.db.sequences s h in
    let (u, later, _) =
      (claim_found-Leads KeepsRequests-IsRunnerHistory k (some s)).at w s.id t
        (unfold get_sequence in found) in
    ClaimOutcome.taken k s u refl h later

claim_led_outcome :
    (token : Option ℕ) (w : World)
    → ClaimOutcome token w (claim_led token w).0 (claim_led token w).1
unfolding claim_led pure ◌>>=◌ continue gets
claim_led_outcome none w = ClaimOutcome.idle (inl refl) refl
claim_led_outcome (some k) w = claim_found_outcome k w (oldest_queued w.db.sequences) refl

module _ (st : Settings) (owner : ℕ) (w : World) where
  -- How a poll may end. Others have had their turn before its first transaction.
  pub data PollOutcome : Result Bool → World → Type 0 where
    -- It answers false: it does not lead, or nothing is queued, and it has touched no sequence.
    idle :
        {v : World}
        → (grant owner (turn w) ≡ none) ⊎ (oldest_queued (turn w).db.sequences ≡ none)
        → v.db.sequences ≡ (turn w).db.sequences
        → PollOutcome (ok false) v
    -- It raises, because the device cannot be read, and leaves the database as the others did.
    unread :
        {e : SpriteError} {v : World}
        → device_reading (turn w) ≡ none
        → v.db ≡ (turn w).db
        → PollOutcome (err e) v
    -- It leads, and its first transaction has taken the oldest queued sequence, which it has then run.
    taken :
        {r : Result Bool} {v : World} (u : World) (token : ℕ) (s : Sequence)
        → grant owner (turn w) ≡ some token
        → oldest_queued (turn w).db.sequences ≡ some s
        → claim_sequence owner w ≡ (ok (some (s.id, token)), u)
        → RunOutcome st s.id token u r v
        → PollOutcome r v

  end_of_claim :
      (p : Result (Option (ℕ × ℕ)) × World) (d : Db)
      → d ≡ (turn w).db
      → claim_sequence owner w ≡ roll_back d p
      → let led : World = record (turn w) {
        db = record ((turn w).db) {
          lease = (acquire_or_renew_lease lease_ttl (turn w).db.lease (turn w).now owner).1;
        };
      } in
        ClaimOutcome (grant owner (turn w)) led p.0 p.1
        → PollOutcome
            (continue (roll_back d p) (run_claimed st)).0
            (continue (roll_back d p) (run_claimed st)).1
  unfolding continue run_claimed pure roll_back device_reading
  end_of_claim (ok none, u) d before claim (ClaimOutcome.idle why same) = PollOutcome.idle why same
  end_of_claim (err e, u) d before claim (ClaimOutcome.unread none_read) =
      PollOutcome.unread none_read before
  end_of_claim (ok (some (id, token)), u) d before claim
        (ClaimOutcome.taken k s t granted oldest row) =
      PollOutcome.taken u k s granted oldest claim (run_guarded_outcome st s.id k u t row)

-- A poll answers false only where it does not lead or nothing is queued, and then it has touched no
-- sequence. Else it leads, has taken the oldest queued sequence and run it: it answers true where the run
-- has returned, or has raised and the instrument is in SAFE_FAULT, the sequence FAILED with the code
-- of the error, and none of its exposures under way. It raises only where the device cannot be read:
-- in its first transaction, of which nothing stays, or in the failure path of a run, of which
-- nothing stays either. This holds whatever others do meanwhile.
pub run_once_outcome :
    (st : Settings) (owner : ℕ) (w : World)
    → PollOutcome st owner w (run_once st owner w).0 (run_once st owner w).1
unfolding run_once claim_sequence session lead ◌>>=◌ continue
run_once_outcome st owner w =
    let v = turn w in
    let (token, lease) = acquire_or_renew_lease lease_ttl v.db.lease v.now owner in
    let led : World = record v { db = record (v.db) { lease = lease } } in
    end_of_claim st owner w (claim_led token led) v.db refl refl (claim_led_outcome token led)
