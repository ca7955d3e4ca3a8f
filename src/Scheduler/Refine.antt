-- ===== src/Scheduler/Refine.antt =====
-- The outbox as the queue of the numbers of its pending events, which a round takes from the front.
use mathlib.Core.List.{append_assoc, append-nil}
use most_sprite.Prelude.{
  ℕ, suc, ◌+◌, ◌≡◌, refl, ap, sym, ◌∙◌, ◌==◌, Bool, true, false, Bool-cases, inl, inr, Option, none,
  some, Option-cases, List, [], ◌∷◌, ◌++◌, if◌then◌else◌, find_if, update_first, ==_iff,
}
use most_sprite.Domain.Errors.{SpriteError, Result, ok, err, Result-cases}
use most_sprite.Scheduler.{
  OutboxEvent, Outbox, Task, Handlers, World, is_pending, mark_published, handle_event, send,
  run_inline, take_event, found_event, run_once,
}
use most_sprite.Scheduler.Order.{IsRising, IsRising-append, IsRising-find_if}
use most_sprite.Scheduler.Waiting.{find_if-append, other_number}
use most_sprite.Scheduler.Grows.{leave-Of, handle_event-Of}

-- The numbers of the pending events.
pub queue : List OutboxEvent → List ℕ
queue [] = []
queue (e ∷ es) = if is_pending e then e.sequence_no ∷ queue es else queue es

-- What a round may do to a queue: it finds it empty; it raises and leaves it; or it takes the front
-- and adds what has been emitted, and then returns, or raises in the work after the commit.
pub data QueueStep : List ℕ → Result Bool → List ℕ → Type 0 where
  idle : QueueStep [] (ok false) []
  kept : (raised : SpriteError) (q : List ℕ) → QueueStep q (err raised) q
  taken : (k : ℕ) (q new : List ℕ) → QueueStep (k ∷ q) (ok true) (q ++ new)
  broken :
      (raised : SpriteError) (k : ℕ) (q new : List ℕ) → QueueStep (k ∷ q) (err raised) (q ++ new)

queue-append :
    (es : List OutboxEvent) (e : OutboxEvent) → queue (es ++ e ∷ []) ≡ queue es ++ queue (e ∷ [])
unfolding queue
queue-append [] e = refl
queue-append (x ∷ es) e = elim (Bool-cases (is_pending x)) [
  | inl waits ↦ rw (waits, queue-append es e) refl
  | inr done ↦ rw (done, queue-append es e) refl
]

queue-none : (es : List OutboxEvent) → find_if is_pending es ≡ none → queue es ≡ []
unfolding queue find_if
queue-none [] nothing = refl
queue-none (e ∷ es) nothing = elim (Bool-cases (is_pending e)) [
  | inl waits ↦ let found = rw waits at nothing in absurd (cc)
  | inr done ↦ let later = rw done at nothing in rw done (queue-none es later)
]

-- The event in front is the head of the queue, and its publication takes it off.
queue-update_first :
    (f : OutboxEvent → OutboxEvent)
    → ((e : OutboxEvent) → is_pending (f e) ≡ false)
    → (first : ℕ) (es : List OutboxEvent) (last : ℕ) (event : OutboxEvent) → IsRising first es last
    → find_if is_pending es ≡ some event
    → queue es
      ≡ event.sequence_no ∷ queue (update_first (λ e. e.sequence_no == event.sequence_no) f es)
unfolding queue find_if update_first IsRising
queue-update_first f settled first [] last event rising found = cc
queue-update_first f settled first (e ∷ es) last event rising found =
    elim (Bool-cases (is_pending e)) [
      | inl waits ↦
          let here = rw waits at found in
          let it : e ≡ event = cc in
          let number : e.sequence_no ≡ event.sequence_no = ap (λ x. x.sequence_no) it in
          let hit : (e.sequence_no == event.sequence_no) ≡ true =
            (==_iff e.sequence_no event.sequence_no).1 number in
          rw (hit, settled e, waits) (ap (λ k. k ∷ queue es) number)
      | inr done ↦
          let there = rw done at found in
          let above =
            IsRising-find_if is_pending (suc e.sequence_no) es last event rising.1 there in
          rw (other_number e.sequence_no event.sequence_no above, done)
            (queue-update_first f settled (suc e.sequence_no) es last event rising.1 there)
    ]

-- The queue has `q` in front, and after it what has been emitted.
abbrev HasFront : List ℕ → List OutboxEvent → ℕ → Type 0
HasFront q es last = (new : List ℕ) × (queue es ≡ q ++ new)

HasFront-append :
    (q : List ℕ) (es : List OutboxEvent) (last : ℕ) (e : OutboxEvent)
    → e.sequence_no ≡ last
    → HasFront q es last
    → HasFront q (es ++ e ∷ []) (last + 1)
HasFront-append q es last e same (new, front) = (
  new ++ queue (e ∷ []),
  queue-append es e ∙ ap (λ xs. xs ++ queue (e ∷ [])) front ∙ append_assoc q new _,
)

-- As it is under the work of a handler, with `event` found.
abbrev IsTaking : OutboxEvent → List ℕ → List OutboxEvent → ℕ → Type 0
IsTaking event q es last =
    HasFront q es last × (IsRising 0 es last × (find_if is_pending es ≡ some event))

IsTaking-append :
    (event : OutboxEvent) (q : List ℕ) (es : List OutboxEvent) (last : ℕ) (e : OutboxEvent)
    → e.sequence_no ≡ last
    → IsTaking event q es last
    → IsTaking event q (es ++ e ∷ []) (last + 1)
IsTaking-append event q es last e same (front, (rising, found)) = (
  HasFront-append q es last e same front,
  (IsRising-append 0 es e last same rising, find_if-append is_pending es e event found),
)

module _ {S : Type 0} (h : Handlers S) (inline : Bool) where
  mark_published-HasFront :
      (now : ℕ) (event : OutboxEvent) (q : List ℕ) (db : Outbox S)
      → IsTaking event (event.sequence_no ∷ q) db.events db.next_no
      → let after = mark_published now event db in HasFront q after.events after.next_no
  unfolding mark_published is_pending
  mark_published-HasFront now event q db ((new, front), (rising, found)) =
      let head =
        queue-update_first (λ e. record e { published_at = some now }) (λ e. refl) 0 db.events
          db.next_no event rising found in
      (new, cc)

  -- What a taken event leaves, when the work after the commit returns or raises.
  run_inline-QueueStep :
      (inline : Bool) (task : Option Task) (k : ℕ) (q : List ℕ) (w : World S)
      → HasFront q w.db.events w.db.next_no
      → let done = run_inline h inline task w in QueueStep (k ∷ q) done.1 (queue done.0.db.events)
  unfolding run_inline
  run_inline-QueueStep true (some task) k q w front =
      let left = h.run task w.db.store in
      let (new, same) = leave-Of (HasFront q) (HasFront-append q) left.0 w.db front in
      elim (Result-cases left.1) [
        | inl (raised, fails) ↦ rw (fails, same) (QueueStep.broken raised k q new)
        | inr (done, works) ↦ rw (works, same) (QueueStep.taken k q new)
      ]
  run_inline-QueueStep true none k q w (new, same) = rw same (QueueStep.taken k q new)
  run_inline-QueueStep false task k q w (new, same) = rw same (QueueStep.taken k q new)

  take_event-QueueStep :
      (now : ℕ) (event : OutboxEvent) (q : List ℕ) (w : World S)
      → queue w.db.events ≡ event.sequence_no ∷ q
      → IsTaking event (event.sequence_no ∷ q) w.db.events w.db.next_no
      → let done = take_event h inline now event w in
        QueueStep (event.sequence_no ∷ q) done.1 (queue done.0.db.events)
  unfolding take_event
  take_event-QueueStep now event q w all taking = elim (Result-cases (handle_event h event w.db)) [
    | inl (raised, fails) ↦ rw (fails, all) (QueueStep.kept raised _)
    | inr (done, handled) ↦ elim (Result-cases (send h inline done.1)) [
      | inl (raised, refused) ↦ rw (handled, refused, all) (QueueStep.kept raised _)
      | inr (sent, told) ↦
          let still =
            handle_event-Of (IsTaking event (event.sequence_no ∷ q))
              (IsTaking-append event (event.sequence_no ∷ q)) h event w.db done handled taking in
          rw (handled, told)
            (run_inline-QueueStep inline done.1 event.sequence_no q _
              (mark_published-HasFront now event q done.0 still))
    ]
  ]

  -- A round does to the queue of the pending events what `QueueStep` allows, with the answer that it
  -- names: it answers false only with the queue empty, true only when it has taken the front, and
  -- when it raises it has left the queue or has taken the front. What is emitted goes to the end.
  -- The events stand by rising numbers, below the number of the next one.
  pub run_once-QueueStep :
      (now : ℕ) (w : World S)
      → IsRising 0 w.db.events w.db.next_no
      → QueueStep
          (queue w.db.events)
          (run_once h inline now w).1
          (queue (run_once h inline now w).0.db.events)
  unfolding run_once found_event
  run_once-QueueStep now w rising = elim (Option-cases (find_if is_pending w.db.events)) [
    | inl nothing ↦ rw (nothing, queue-none w.db.events nothing) QueueStep.idle
    | inr (event, found) ↦
        let front =
          queue-update_first (λ e. record e { published_at = some now }) (λ e. refl) 0 w.db.events
            w.db.next_no event rising found in
        let rest = queue (
          update_first (λ e. e.sequence_no == event.sequence_no)
            (λ e. record e { published_at = some now }) w.db.events) in
        let whole : HasFront (event.sequence_no ∷ rest) w.db.events w.db.next_no =
          ([], front ∙ sym (append-nil (event.sequence_no ∷ rest))) in
        rw (found, front) (take_event-QueueStep now event rest w front (whole, (rising, found)))
  ]
