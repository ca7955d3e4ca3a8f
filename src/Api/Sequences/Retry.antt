-- ===== src/Api/Sequences/Retry.antt =====
-- A request that comes again with its key, whatever requests of clients came in between.
use most_sprite.Prelude.{
  ℕ, ◌≡◌, refl, subst, sym, ◌==◌, false, Bool-cases, some, inl, inr, List, [], ◌∷◌, find_if,
  update_if,
}
use most_sprite.Domain.Errors.{Result, ok, err, Result-cases}
use most_sprite.Devices.Contracts.{same_key, same_key→eq}
use most_sprite.Store.{Db, Sequence, Command, get_sequence, update_sequence, emit}
use most_sprite.Api.Sequences.{
  ActionRequest, CommandAccepted, accepted, find_command, apply_action, action_command,
  answer_or_act, on_sequence, sequence_action,
}
use most_sprite.Api.Sequences.Actions.{sequence_action_writes}
use most_sprite.Api.Sequences.Lifecycle.{Change, key_of, sequence_action-Change}

-- The database after a request: one that raises changes nothing.
unfoldable pub after : Result (CommandAccepted × Db) → Db → Db
after (ok a) db = a.1
after (err e) db = db

-- Requests of clients, each at its time.
unfoldable pub later_requests : List (ActionRequest × ℕ) → Db → Db
unfolding after
later_requests [] db = db
later_requests ((q, now) ∷ qs) db = later_requests qs (after (sequence_action q now db) db)

-- A command has the key, and the sequence of the request is there.
record IsRecorded (r : ActionRequest) (c : Command) (db : Db) : Type 0 where
  known : find_command (key_of r) db ≡ some c
  sequence : Sequence
  there : get_sequence r.sequence_id db ≡ some sequence

-- It is answered from that command.
again :
    (r : ActionRequest) (now : ℕ) (c : Command) (db : Db)
    → IsRecorded r c db
    → sequence_action r now db ≡ ok (accepted r c, db)
unfolding sequence_action on_sequence answer_or_act
again r now c db w = rw (w.there, w.known) refl

found_still :
    (id k : ℕ) (f : Sequence → Sequence)
    → ((s : Sequence) → (f s).id ≡ s.id)
    → (ss : List Sequence) (s : Sequence) → find_if (λ s. s.id == id) ss ≡ some s
    → (t : Sequence) × (find_if (λ s. s.id == id) (update_if (λ s. s.id == k) f ss) ≡ some t)
unfolding find_if update_if
found_still id k f same [] s found = cc
found_still id k f same (x ∷ xs) s found = elim (Bool-cases (x.id == k)) [
  | inl hit ↦ elim (Bool-cases (x.id == id)) [
    | inl here ↦ (f x, rw (hit, same x, here) refl)
    | inr other ↦
        let (t, later) = found_still id k f same xs s (rw other at found) in
        (t, rw (hit, same x, other) later)
  ]
  | inr miss ↦ elim (Bool-cases (x.id == id)) [
    | inl here ↦ (x, rw (miss, here) refl)
    | inr other ↦
        let (t, later) = found_still id k f same xs s (rw other at found) in
        (t, rw (miss, other) later)
  ]
]

-- The write of an action under another key.
apply_action-IsRecorded :
    (r q : ActionRequest) (c : Command) (s : Sequence) (now : ℕ) (db : Db)
    → same_key (key_of q) (key_of r) ≡ false
    → IsRecorded r c db
    → IsRecorded r c (apply_action q s now db)
unfolding apply_action update_sequence emit find_command get_sequence find_if action_command
apply_action-IsRecorded r q c s now db other w =
    let (t, later) =
      found_still r.sequence_id q.sequence_id _ (λ x. refl) db.sequences w.sequence w.there in
    record { known = rw other w.known; sequence = t; there = later }

-- A request of the same key finds it.
same-IsRecorded :
    (r q : ActionRequest) (c : Command) (db : Db)
    → key_of q ≡ key_of r
    → IsRecorded r c db
    → IsRecorded q c db
same-IsRecorded r q c db same w =
    let id : q.sequence_id ≡ r.sequence_id = cc in
    record {
      known = subst (λ k. find_command k db ≡ some c) (sym same) w.known;
      sequence = w.sequence;
      there = subst (λ k. get_sequence k db ≡ some w.sequence) (sym id) w.there;
    }

after-IsRecorded :
    (r q : ActionRequest) (c : Command) (now : ℕ) (db : Db)
    → IsRecorded r c db
    → IsRecorded r c (after (sequence_action q now db) db)
unfolding after
after-IsRecorded r q c now db w = elim (Bool-cases (same_key (key_of q) (key_of r))) [
  | inl same ↦ rw (again q now c db (same-IsRecorded r q c db (same_key→eq _ _ same) w)) w
  | inr other ↦ elim (Result-cases (sequence_action q now db)) [
    | inl (e, raised) ↦ rw raised w
    | inr (a, answered) ↦ elim (sequence_action_writes q now db answered) [
      | inl kept ↦ rw (answered, kept) w
      | inr (s, written) ↦ rw (answered, written) (apply_action-IsRecorded r q c s now db other w)
    ]
  ]
]

later_requests-IsRecorded :
    (r : ActionRequest) (c : Command) (qs : List (ActionRequest × ℕ)) (db : Db)
    → IsRecorded r c db
    → IsRecorded r c (later_requests qs db)
unfolding later_requests
later_requests-IsRecorded r c [] db w = w
later_requests-IsRecorded r c ((q, now) ∷ qs) db w =
    later_requests-IsRecorded r c qs (after (sequence_action q now db) db)
      (after-IsRecorded r q c now db w)

-- What an answered request has recorded.
Change-IsRecorded :
    (r : ActionRequest) (db : Db) (s : Sequence) (a : CommandAccepted) (e : Db)
    → get_sequence r.sequence_id db ≡ some s
    → Change r db s a e
    → (c : Command) × (a ≡ accepted r c) × IsRecorded r c e
Change-IsRecorded r db s a e found (Change.answered_before c known) =
    (c, refl, record { known = known; sequence = s; there = found })
Change-IsRecorded r db s a e found (Change.stepped b st c new known step retry row) =
    (c, refl, record { known = known; sequence = _; there = row })

-- A request that was answered, on a sequence of the table, is answered with the same command and
-- status when it comes again with its key and another id for its command, after any requests of
-- clients on any sequences, and then it changes nothing.
pub sequence_action_retry :
    (r : ActionRequest) (now later id : ℕ) (db : Db) (s : Sequence) (a : CommandAccepted × Db)
    (qs : List (ActionRequest × ℕ))
    → get_sequence r.sequence_id db ≡ some s
    → sequence_action r now db ≡ ok a
    → sequence_action (record r { command_id = id }) later (later_requests qs a.1)
      ≡ ok (a.0, later_requests qs a.1)
unfolding accepted
sequence_action_retry r now later id db s a qs found answered =
    let (c, same, recorded) =
      Change-IsRecorded r db s a.0 a.1 found (sequence_action-Change r now db s found answered) in
    let kept = later_requests-IsRecorded r c qs a.1 recorded in
    let retried : IsRecorded (record r { command_id = id }) c (later_requests qs a.1) = record {
      known = kept.known;
      sequence = kept.sequence;
      there = kept.there;
    } in
    rw same (again (record r { command_id = id }) later c (later_requests qs a.1) retried)
