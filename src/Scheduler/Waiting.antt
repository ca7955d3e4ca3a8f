-- ===== src/Scheduler/Waiting.antt =====
-- How many events the scheduler publishes before and with an event, and how its steps change that.
use most_sprite.Prelude.{
  ℕ, suc, ◌+◌, ◌≤◌, ◌≡◌, refl, subst, ◌==◌, arith, Bool, true, false, not, Bool-cases, inl, inr,
  none, some, List, [], ◌∷◌, ◌++◌, if◌then◌else◌, find_if, update_first, ==_iff,
}
use most_sprite.Scheduler.{OutboxEvent, is_pending}
use most_sprite.Scheduler.Order.{IsRising, IsRising-find_if}

-- The table has a row with this number.
unfoldable pub has_number : ℕ → List OutboxEvent → Bool
has_number k [] = false
has_number k (e ∷ es) = if e.sequence_no == k then true else has_number k es

-- The row with this number has been published.
unfoldable pub is_published : ℕ → List OutboxEvent → Bool
is_published k [] = false
is_published k (e ∷ es) = if e.sequence_no == k then not (is_pending e) else is_published k es

one_if : Bool → ℕ
one_if true = 1
one_if false = 0

-- The number of pending events up to and with the row with this number.
unfoldable pub ahead : ℕ → List OutboxEvent → ℕ
unfolding one_if
ahead k [] = 0
ahead k (e ∷ es) = one_if (is_pending e) + (if e.sequence_no == k then 0 else ahead k es)

pub has_number-append :
    (k : ℕ) (es : List OutboxEvent) (new : OutboxEvent)
    → has_number k es ≡ true
    → has_number k (es ++ new ∷ []) ≡ true
unfolding has_number
has_number-append k [] new here = cc
has_number-append k (e ∷ es) new here = elim (Bool-cases (e.sequence_no == k)) [
  | inl same ↦ rw same refl
  | inr other ↦ let there = rw other at here in rw other (has_number-append k es new there)
]

pub ahead-append :
    (k : ℕ) (es : List OutboxEvent) (new : OutboxEvent)
    → has_number k es ≡ true
    → ahead k (es ++ new ∷ []) ≡ ahead k es
unfolding has_number ahead
ahead-append k [] new here = cc
ahead-append k (e ∷ es) new here = elim (Bool-cases (e.sequence_no == k)) [
  | inl same ↦ rw same refl
  | inr other ↦ let there = rw other at here in rw (other, ahead-append k es new there) refl
]

-- With nothing ahead, the event has been published.
pub ahead-is_published :
    (k : ℕ) (es : List OutboxEvent)
    → has_number k es ≡ true
    → ahead k es ≤ 0
    → is_published k es ≡ true
unfolding has_number ahead is_published one_if
ahead-is_published k [] here nothing = cc
ahead-is_published k (e ∷ es) here nothing = elim (Bool-cases (e.sequence_no == k)) [
  | inl same ↦ elim (Bool-cases (is_pending e)) [
    | inl waits ↦ let some_left = rw (waits, same) at nothing in absurd (omega arith)
    | inr done ↦ rw (same, done) refl
  ]
  | inr other ↦
      let there = rw other at here in
      let rest = rw other at nothing in rw other (ahead-is_published k es there (omega arith))
]

-- With no pending event, nothing is ahead.
pub ahead-none : (k : ℕ) (es : List OutboxEvent) → find_if is_pending es ≡ none → ahead k es ≤ 0
unfolding find_if ahead one_if
ahead-none k [] idle = omega arith
ahead-none k (e ∷ es) idle = elim (Bool-cases (is_pending e)) [
  | inl waits ↦ let found = rw waits at idle in absurd (cc)
  | inr done ↦
      let later = rw done at idle in
      let rest = ahead-none k es later in
      rw done (elim (Bool-cases (e.sequence_no == k)) [
        | inl same ↦ rw same (omega arith)
        | inr other ↦ rw other (omega arith)
      ])
]

pub has_number-update_first :
    (test : OutboxEvent → Bool) (f : OutboxEvent → OutboxEvent)
    → ((e : OutboxEvent) → (f e).sequence_no ≡ e.sequence_no)
    → (k : ℕ) (es : List OutboxEvent) → has_number k (update_first test f es) ≡ has_number k es
unfolding has_number update_first
has_number-update_first test f same k [] = refl
has_number-update_first test f same k (e ∷ es) = elim (Bool-cases (test e)) [
  | inl hit ↦ rw (hit, same e) refl
  | inr miss ↦ rw (miss, has_number-update_first test f same k es) refl
]

-- A new row changes no search that found one.
pub find_if-append :
    (test : OutboxEvent → Bool) (es : List OutboxEvent) (new event : OutboxEvent)
    → find_if test es ≡ some event
    → find_if test (es ++ new ∷ []) ≡ some event
unfolding find_if
find_if-append test [] new event found = cc
find_if-append test (e ∷ es) new event found = elim (Bool-cases (test e)) [
  | inl hit ↦ let here = rw hit at found in rw hit here
  | inr miss ↦ let there = rw miss at found in rw miss (find_if-append test es new event there)
]

pub other_number : (a b : ℕ) → suc a ≤ b → (a == b) ≡ false
other_number a b above = ground arith

-- Publication of the first pending event takes it off what is ahead.
pub ahead-update_first :
    (f : OutboxEvent → OutboxEvent)
    → ((e : OutboxEvent) → (f e).sequence_no ≡ e.sequence_no)
    → ((e : OutboxEvent) → is_pending (f e) ≡ false)
    → (k n first : ℕ) (es : List OutboxEvent) (last : ℕ) (event : OutboxEvent)
    → IsRising first es last
    → find_if is_pending es ≡ some event
    → ahead k es ≤ suc n
    → ahead k (update_first (λ e. e.sequence_no == event.sequence_no) f es) ≤ n
unfolding find_if update_first ahead one_if IsRising
ahead-update_first f same settled k n first [] last event rising found few = cc
ahead-update_first f same settled k n first (e ∷ es) last event rising found few =
    elim (Bool-cases (is_pending e)) [
      | inl waits ↦
          let here = rw waits at found in
          let it : e ≡ event = cc in
          let hit : (e.sequence_no == event.sequence_no) ≡ true =
            (==_iff e.sequence_no event.sequence_no).1
              (subst (λ x. e.sequence_no ≡ x.sequence_no) it refl) in
          let left = rw waits at few in rw (hit, settled e, same e) (omega arith)
      | inr done ↦
          let there = rw done at found in
          let above =
            IsRising-find_if is_pending (suc e.sequence_no) es last event rising.1 there in
          let left = rw done at few in
          rw (other_number e.sequence_no event.sequence_no above, done)
            (elim (Bool-cases (e.sequence_no == k)) [
              | inl here ↦ rw here (omega arith)
              | inr other ↦
                  let rest = rw other at left in
                  let later =
                    ahead-update_first f same settled k n (suc e.sequence_no) es last event rising.1
                      there (omega arith) in
                  rw other (omega arith)
            ])
    ]
