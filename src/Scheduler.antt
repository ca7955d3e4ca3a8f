-- ===== src/Scheduler.antt =====
-- backend/src/most_sprite/scheduler/service.py with `emit_event` of events/outbox.py and the two
-- tables of db/models.py that they share: the scheduler reads the outbox, oldest event first, and
-- starts the work that an event asks for. There is one scheduler, so no event is locked by another.
-- The tables of the handlers are a parameter, as are the handlers.
pub mod Order
pub mod Waiting
pub mod Grows
pub mod Turns
pub mod Liveness
pub mod Refine
pub mod Runs
mod Tests
use most_sprite.Prelude.{
  ℕ, suc, ◌+◌, ◌==◌, Bool, true, false, not, Option, none, some, List, [], ◌∷◌, ◌++◌, if◌then◌else◌,
  find_if, update_first,
}
use most_sprite.Domain.{EventType, ProcessingStatus}
use most_sprite.Domain.Errors.{SpriteError, Result, ok, err, ◌>>=◌}

-- The fields of a payload that the scheduler reads.
pub record Payload : Type 0 where
  pub status : Option ProcessingStatus
  pub processing_run_id : Option ℕ
  pub calibration_run_id : Option ℕ

-- The arguments of `emit_event`.
pub record EventContent : Type 0 where
  pub event_type : EventType
  pub sequence_id : Option ℕ
  pub exposure_id : Option ℕ
  pub payload : Payload

pub record OutboxEvent : Type 0 where
  pub sequence_no : ℕ
  pub event_id : ℕ
  pub content : EventContent
  pub published_at : Option ℕ

-- The database: the events by `sequence_no`, the ids that the scheduler has consumed, the number
-- that the next event gets, and the other tables.
pub record Outbox (S : Type 0) : Type 0 where
  pub events : List OutboxEvent
  pub consumed : List ℕ
  pub next_no : ℕ
  pub store : S

-- The tasks that a worker runs.
pub data Task : Type 0 where
  process_run build_calibration_run : ℕ → Task

-- What the scheduler calls. A handler in the transaction of the scheduler returns the tables and the
-- events that it emits, or raises. A run commits as it goes, so what it left stays when it raises.
pub record Handlers (S : Type 0) : Type 0 where
  pub ensure_quicklook_for_exposure : ℕ → S → Result (S × List EventContent)
  pub ensure_processing_run : ℕ → S → Result (S × List EventContent)
  pub processing_status : ℕ → S → Option ProcessingStatus
  pub calibration_status : ℕ → S → Option ProcessingStatus
  pub send_task : Task → Result (Unit {0})
  pub run : Task → S → (S × List EventContent) × Result (Unit {0})

pub record World (S : Type 0) : Type 0 where
  pub db : Outbox S
  pub sent : List Task

-- `published_at.is_(None)`
unfoldable pub is_pending : OutboxEvent → Bool
is_pending event = unpublished event.published_at
  where
    unpublished : Option ℕ → Bool
    unpublished none = true
    unpublished (some time) = false

is_queued : Option ProcessingStatus → Bool
is_queued (some ProcessingStatus.queued) = true
is_queued _ = false

-- Whether a run is there and has not succeeded.
is_open : Option ProcessingStatus → Bool
is_open none = false
is_open (some ProcessingStatus.succeeded) = false
is_open (some _) = true

is_in : ℕ → List ℕ → Bool
is_in id [] = false
is_in id (x ∷ xs) = if x == id then true else is_in id xs

new_event : ℕ → EventContent → OutboxEvent
new_event number content = record {
  sequence_no = number;
  event_id = number;
  content = content;
  published_at = none;
}

module _ {S : Type 0} where
  -- `emit_event`. The number is the event's id too, which the program draws at random.
  unfoldable pub emit_event : EventContent → Outbox S → Outbox S
  unfolding new_event
  emit_event content db = record db {
    events = db.events ++ new_event db.next_no content ∷ [];
    next_no = db.next_no + 1;
  }

  unfoldable pub emit_all : List EventContent → Outbox S → Outbox S
  unfolding emit_event
  emit_all [] db = db
  emit_all (content ∷ contents) db = emit_all contents (emit_event content db)

  -- The tables and the events that a handler leaves.
  unfoldable pub leave : S × List EventContent → Outbox S → Outbox S
  unfolding emit_all
  leave left db = emit_all left.1 (record db { store = left.0 })

  unfoldable pub call :
      (ℕ → S → Result (S × List EventContent)) → Option ℕ → Outbox S → Result (Outbox S)
  unfolding leave
  call handler none db = ok db
  call handler (some id) db = handler id db.store >>= λ left. ok (leave left db)

  -- The task for a run that is queued, under its test.
  candidate : (ℕ → Task) → (ℕ → S → Option ProcessingStatus) → Option ℕ → S → Option Task
  unfolding is_open
  candidate task status none store = none
  candidate task status (some id) store = if is_open (status id store) then some (task id) else none

  unfoldable pub consume : OutboxEvent → Outbox S → Outbox S
  consume event db = record db { consumed = event.event_id ∷ db.consumed }

  unfoldable pub mark_published : ℕ → OutboxEvent → Outbox S → Outbox S
  mark_published now event db = record db {
    events =
        update_first (λ e. e.sequence_no == event.sequence_no)
          (λ e. record e { published_at = some now }) db.events;
  }

  module _ (h : Handlers S) where
    -- The branches on the type of an event.
    dispatch : EventType → OutboxEvent → Outbox S → Result (Outbox S × Option Task)
    unfolding call is_queued candidate
    dispatch EventType.raw_file_committed event db =
        call h.ensure_quicklook_for_exposure event.content.exposure_id db >>= λ after.
        call h.ensure_processing_run event.content.sequence_id after >>= λ later. ok (later, none)
    dispatch EventType.processing_run_state_changed event db =
        let payload = event.content.payload in
        ok (
          db,
          if is_queued payload.status
              then candidate Task.process_run h.processing_status payload.processing_run_id db.store
              else none,
        )
    dispatch EventType.calibration_run_state_changed event db =
        let payload = event.content.payload in
        ok (
          db,
          if is_queued payload.status
              then candidate Task.build_calibration_run h.calibration_status
                  payload.calibration_run_id db.store
              else none,
        )
    dispatch _ event db = ok (db, none)

    -- `if consumed is None:`
    pub handle_event : OutboxEvent → Outbox S → Result (Outbox S × Option Task)
    unfolding is_in dispatch consume
    handle_event event db = handle_unless (is_in event.event_id db.consumed)
      where
        handle_unless : Bool → Result (Outbox S × Option Task)
        handle_unless true = ok (db, none)
        handle_unless false =
            dispatch event.content.event_type event db >>= λ done. ok (consume event done.0, done.1)

    -- `send_task`, where the processing is not inline.
    pub send : Bool → Option Task → Result (List Task)
    send false (some task) = h.send_task task >>= λ sent. ok (task ∷ [])
    send _ _ = ok []

    -- The work after the commit, where the processing is inline.
    pub run_inline : Bool → Option Task → World S → World S × Result Bool
    unfolding leave
    run_inline true (some task) w =
        let done = h.run task w.db.store in
        (record w { db = leave done.0 w.db }, done.1 >>= λ finished. ok true)
    run_inline _ _ w = (w, ok true)

    -- The block of the session for an event that was found. An exception takes the database back, not
    -- the tasks that were sent.
    pub take_event : Bool → ℕ → OutboxEvent → World S → World S × Result Bool
    unfolding handle_event send mark_published run_inline
    take_event inline now event w = after (handle_event event w.db)
      where
        commit : Outbox S → Option Task → Result (List Task) → World S × Result Bool
        commit db task (err raised) = (w, err raised)
        commit db task (ok sent) =
            run_inline inline task
              (record { db = mark_published now event db; sent = sent ++ w.sent })

        after : Result (Outbox S × Option Task) → World S × Result Bool
        after (err raised) = (w, err raised)
        after (ok done) = commit done.0 done.1 (send inline done.1)

    pub found_event : Bool → ℕ → Option OutboxEvent → World S → World S × Result Bool
    unfolding take_event
    found_event inline now none w = (w, ok false)
    found_event inline now (some event) w = take_event inline now event w

    unfoldable pub run_once : Bool → ℕ → World S → World S × Result Bool
    unfolding found_event is_pending
    run_once inline now w = found_event inline now (find_if is_pending w.db.events) w
