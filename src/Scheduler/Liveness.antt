-- ===== src/Scheduler/Liveness.antt =====
-- Every event of the outbox is published, once the rounds before it have returned.
use most_sprite.Prelude.{
  ℕ, suc, ◌+◌, ◌≤◌, ◌≡◌, refl, ◌==◌, arith, Bool, true, false, Bool-cases, ◌⊎◌, inl, inr, Option,
  none, some, Option-cases, List, [], ◌∷◌, ◌++◌, find_if,
}
use most_sprite.Domain.Errors.{Result-cases}
use most_sprite.Scheduler.{
  OutboxEvent, Outbox, Task, Handlers, World, is_pending, mark_published, handle_event, send,
  run_inline, take_event, found_event, run_once,
}
use most_sprite.Scheduler.Order.{IsRising, IsRising-append, IsRising-update_first}
use most_sprite.Scheduler.Waiting.{
  has_number, is_published, ahead, has_number-append, ahead-append, ahead-is_published, ahead-none,
  has_number-update_first, find_if-append, ahead-update_first,
}
use most_sprite.Scheduler.Grows.{leave-Of, handle_event-Of}
use most_sprite.Scheduler.Turns.{
  Turn, returned, take_turn, take_turns, has_returned, one_for, rounds_returned,
}

-- The event with number `k` is there, with at most `n` events to publish up to it.
record IsWaiting (k n : ℕ) (es : List OutboxEvent) (last : ℕ) : Type 0 where
  rising : IsRising 0 es last
  here : has_number k es ≡ true
  few : ahead k es ≤ n

IsWaiting-append :
    (k n : ℕ) (es : List OutboxEvent) (last : ℕ) (e : OutboxEvent)
    → e.sequence_no ≡ last
    → IsWaiting k n es last
    → IsWaiting k n (es ++ e ∷ []) (last + 1)
IsWaiting-append k n es last e same w = record {
  rising = IsRising-append 0 es e last same w.rising;
  here = has_number-append k es e w.here;
  few = rw (ahead-append k es e w.here) w.few;
}

-- It waits behind `event`.
abbrev IsBehind : OutboxEvent → ℕ → ℕ → List OutboxEvent → ℕ → Type 0
IsBehind event k n es last = IsWaiting k n es last × (find_if is_pending es ≡ some event)

IsBehind-append :
    (event : OutboxEvent) (k n : ℕ) (es : List OutboxEvent) (last : ℕ) (e : OutboxEvent)
    → e.sequence_no ≡ last
    → IsBehind event k n es last
    → IsBehind event k n (es ++ e ∷ []) (last + 1)
IsBehind-append event k n es last e same w =
    (IsWaiting-append k n es last e same w.0, find_if-append is_pending es e event w.1)

IsWaiting-more :
    {k m n : ℕ} {es : List OutboxEvent} {last : ℕ}
    → m ≤ n
    → IsWaiting k m es last
    → IsWaiting k n es last
IsWaiting-more more w = record {
  rising = w.rising;
  here = w.here;
  few = (let few = w.few in omega arith);
}

module _ {S : Type 0} (k n : ℕ) where
  abbrev Waits : Outbox S → Type 0
  Waits db = IsWaiting k n db.events db.next_no

  -- Publication of the event in front.
  mark_published-Waits :
      (now : ℕ) (event : OutboxEvent) (db : Outbox S)
      → IsBehind event k (suc n) db.events db.next_no
      → Waits (mark_published now event db)
  unfolding mark_published is_pending
  mark_published-Waits now event db w = record {
    rising = IsRising-update_first _ _ (λ e. refl) 0 db.events db.next_no w.0.rising;
    here =
        rw
          (has_number-update_first (λ e. e.sequence_no == event.sequence_no)
            (λ e. record e { published_at = some now }) (λ e. refl) k db.events)
          w.0.here;
    few =
        ahead-update_first _ (λ e. refl) (λ e. refl) k n 0 db.events db.next_no event w.0.rising w.1
          w.0.few;
  }

  module _ (h : Handlers S) (inline : Bool) where
    run_inline-Waits :
        (inline : Bool) (task : Option Task) (w : World S)
        → Waits w.db
        → Waits (run_inline h inline task w).0.db
    unfolding run_inline
    run_inline-Waits true (some task) w held =
        leave-Of (IsWaiting k n) (IsWaiting-append k n) (h.run task w.db.store).0 w.db held
    run_inline-Waits true none w held = held
    run_inline-Waits false task w held = held

    -- A round takes an event off, or raises and leaves the world.
    take_event-Waits :
        (now : ℕ) (event : OutboxEvent) (w : World S)
        → IsBehind event k (suc n) w.db.events w.db.next_no
        → Waits (take_event h inline now event w).0.db
          ⊎ (((take_event h inline now event w).0 ≡ w)
              × (returned (take_event h inline now event w).1 ≡ false))
    unfolding take_event returned
    take_event-Waits now event w behind = elim (Result-cases (handle_event h event w.db)) [
      | inl (raised, fails) ↦ rw fails (inr (refl, refl))
      | inr (done, handled) ↦ elim (Result-cases (send h inline done.1)) [
        | inl (raised, refused) ↦ rw (handled, refused) (inr (refl, refl))
        | inr (sent, told) ↦
            let kept =
              handle_event-Of (IsBehind event k (suc n)) (IsBehind-append event k (suc n)) h event
                w.db done handled behind in
            rw (handled, told)
              (inl (run_inline-Waits inline done.1 _ (mark_published-Waits now event done.0 kept)))
      ]
    ]

    -- A round that returns has taken an event off, where one was left.
    run_once-returned :
        (now : ℕ) (w : World S)
        → IsWaiting k (suc n) w.db.events w.db.next_no
        → returned (run_once h inline now w).1 ≡ true
        → Waits (run_once h inline now w).0.db
    unfolding run_once found_event
    run_once-returned now w held back = elim (Option-cases (find_if is_pending w.db.events)) [
      | inl idle ↦
          let few = ahead-none k w.db.events idle in
          rw idle (record { rising = held.rising; here = held.here; few = omega arith })
      | inr (event, found) ↦
          let back_here = rw found at back in
          rw found (elim (take_event-Waits now event w (held, found)) [
            | inl taken ↦ taken
            | inr (same, raised) ↦ absurd (cc)
          ])
    ]

    run_once-Waits : (now : ℕ) (w : World S) → Waits w.db → Waits (run_once h inline now w).0.db
    unfolding run_once found_event
    run_once-Waits now w held = elim (Option-cases (find_if is_pending w.db.events)) [
      | inl idle ↦ rw idle held
      | inr (event, found) ↦
          let more = IsWaiting-more {n = suc n} (omega arith) held in
          rw found (elim (take_event-Waits now event w (more, found)) [
            | inl taken ↦ taken
            | inr (same, raised) ↦ rw same held
          ])
    ]

module _ {S : Type 0} (h : Handlers S) (inline : Bool) (k : ℕ) where
  take_turn-IsWaiting :
      (n : ℕ) (turn : Turn S) (w : World S)
      → IsWaiting k (one_for h inline (has_returned h inline turn w) + n) w.db.events w.db.next_no
      → IsWaiting k n (take_turn h inline turn w).db.events (take_turn h inline turn w).db.next_no
  unfolding take_turn has_returned one_for
  take_turn-IsWaiting n (Turn.round now) w held =
      elim (Bool-cases (returned (run_once h inline now w).1)) [
        | inl back ↦
            let counted = rw back at held in
            run_once-returned k n h inline now w (IsWaiting-more (omega arith) counted) back
        | inr raised ↦
            let counted = rw raised at held in
            run_once-Waits k n h inline now w (IsWaiting-more (omega arith) counted)
      ]
  take_turn-IsWaiting n (Turn.other change contents) w held =
      leave-Of (IsWaiting k n) (IsWaiting-append k n) (change w.db.store, contents) w.db
        (IsWaiting-more (omega arith) held)

  take_turns-IsWaiting :
      (turns : List (Turn S)) (w : World S)
      → IsWaiting k (rounds_returned h inline turns w) w.db.events w.db.next_no
      → IsWaiting k 0
          (take_turns h inline turns w).db.events
          (take_turns h inline turns w).db.next_no
  unfolding take_turns rounds_returned
  take_turns-IsWaiting [] w held = held
  take_turns-IsWaiting (turn ∷ turns) w held =
      take_turns-IsWaiting turns (take_turn h inline turn w) (take_turn-IsWaiting _ turn w held)

  -- Whatever the handlers do and whatever other transactions commit between the rounds: an event of
  -- the outbox has been published once as many rounds have returned as there were pending events up
  -- to it. The events stand by rising numbers, below the number of the next one.
  pub take_turns-is_published :
      (turns : List (Turn S)) (w : World S)
      → IsRising 0 w.db.events w.db.next_no
      → has_number k w.db.events ≡ true
      → ahead k w.db.events ≤ rounds_returned h inline turns w
      → is_published k (take_turns h inline turns w).db.events ≡ true
  take_turns-is_published turns w rising here enough =
      let held =
        take_turns-IsWaiting turns w (record { rising = rising; here = here; few = enough }) in
      ahead-is_published k (take_turns h inline turns w).db.events held.here held.few
