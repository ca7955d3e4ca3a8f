-- ===== src/Scheduler/Grows.antt =====
-- The handlers only add events, so what holds of a growing outbox holds after them.
use most_sprite.Prelude.{
  ℕ, ◌+◌, ◌≡◌, refl, subst, Bool-cases, inl, inr, Option, none, some, List, [], ◌∷◌, ◌++◌,
}
use most_sprite.Domain.{EventType}
use most_sprite.Domain.Errors.{Result, ok, first_line-ok, ok_injective}
use most_sprite.Scheduler.{
  EventContent, OutboxEvent, Outbox, Task, Handlers, emit_event, emit_all, leave, call, dispatch,
  consume, handle_event, is_in,
}

module _ (P : List OutboxEvent → ℕ → Type 0) where
  abbrev Of : {S : Type 0} → Outbox S → Type 0
  Of db = P db.events db.next_no

  module _
      (grows : (es : List OutboxEvent) (last : ℕ) (e : OutboxEvent)
        → e.sequence_no ≡ last
        → P es last
        → P (es ++ e ∷ []) (last + 1))
      {S : Type 0} where
    emit_all-Of : (contents : List EventContent) (db : Outbox S) → Of db → Of (emit_all contents db)
    unfolding emit_all emit_event
    emit_all-Of [] db held = held
    emit_all-Of (content ∷ contents) db held =
        emit_all-Of contents (emit_event content db) (grows db.events db.next_no _ refl held)

    pub leave-Of : (left : S × List EventContent) (db : Outbox S) → Of db → Of (leave left db)
    unfolding leave
    leave-Of left db held = emit_all-Of left.1 (record db { store = left.0 }) held

    call-Of :
        (handler : ℕ → S → Result (S × List EventContent)) (o : Option ℕ) (db after : Outbox S)
        → call handler o db ≡ ok after
        → Of db
        → Of after
    unfolding call
    call-Of handler none db after done held = subst Of (ok_injective done) held
    call-Of handler (some id) db after done held =
        let (left, called, same) = first_line-ok (handler id db.store) _ done in
        subst Of (ok_injective same) (leave-Of left db held)

    module _ (h : Handlers S) where
      dispatch-Of :
          (type : EventType) (event : OutboxEvent) (db : Outbox S) (done : Outbox S × Option Task)
          → dispatch h type event db ≡ ok done
          → Of db
          → Of done.0
      unfolding dispatch
      dispatch-Of EventType.raw_file_committed event db done finished held =
          let (after, quick, rest) =
            first_line-ok (call h.ensure_quicklook_for_exposure event.content.exposure_id db) _
              finished in
          let (later, ensured, same) =
            first_line-ok (call h.ensure_processing_run event.content.sequence_id after) _ rest in
          let kept =
            call-Of h.ensure_processing_run _ after later ensured
              (call-Of h.ensure_quicklook_for_exposure _ db after quick held) in
          subst (λ d. Of d.0) (ok_injective same) kept
      dispatch-Of _ event db done finished held = subst (λ d. Of d.0) (ok_injective finished) held

      pub handle_event-Of :
          (event : OutboxEvent) (db : Outbox S) (done : Outbox S × Option Task)
          → handle_event h event db ≡ ok done
          → Of db
          → Of done.0
      unfolding handle_event consume
      handle_event-Of event db done finished held =
          elim (Bool-cases (is_in event.event_id db.consumed)) [
            | inl already ↦
                let skipped = rw already at finished in
                subst (λ d. Of d.0) (ok_injective skipped) held
            | inr fresh ↦
                let handled = rw fresh at finished in
                let (before, dispatched, same) =
                  first_line-ok (dispatch h event.content.event_type event db) _ handled in
                subst (λ d. Of d.0) (ok_injective same)
                  (dispatch-Of event.content.event_type event db before dispatched held)
          ]
