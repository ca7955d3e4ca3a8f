-- ===== src/Scheduler/Turns.antt =====
-- `OutboxScheduler.run_forever`: rounds of the scheduler, with what other transactions commit in
-- between.
use most_sprite.Prelude.{ℕ, ◌+◌, Bool, true, false, List, [], ◌∷◌}
use most_sprite.Domain.Errors.{Result, ok, err}
use most_sprite.Scheduler.{EventContent, Handlers, World, run_once, leave}

-- A round at a time, or another transaction with the events that it emits.
pub data Turn (S : Type 0) : Type 0 where
  round : ℕ → Turn S
  other : (S → S) → List EventContent → Turn S

-- A round that raises ends the loop: a round after it is one of a loop that was started again.
unfoldable pub returned : Result Bool → Bool
returned (ok handled) = true
returned (err raised) = false

module _ {S : Type 0} (h : Handlers S) (inline : Bool) where
  unfoldable pub take_turn : Turn S → World S → World S
  unfolding run_once leave
  take_turn (Turn.round now) w = (run_once h inline now w).0
  take_turn (Turn.other change contents) w = record w {
    db = leave (change w.db.store, contents) w.db;
  }

  unfoldable pub take_turns : List (Turn S) → World S → World S
  unfolding take_turn
  take_turns [] w = w
  take_turns (turn ∷ turns) w = take_turns turns (take_turn turn w)

  -- Whether a turn is a round that returns.
  unfoldable pub has_returned : Turn S → World S → Bool
  unfolding run_once returned
  has_returned (Turn.round now) w = returned (run_once h inline now w).1
  has_returned (Turn.other change contents) w = false

  unfoldable pub one_for : Bool → ℕ
  one_for true = 1
  one_for false = 0

  -- The number of rounds among the turns that return.
  unfoldable pub rounds_returned : List (Turn S) → World S → ℕ
  unfolding take_turn has_returned one_for
  rounds_returned [] w = 0
  rounds_returned (turn ∷ turns) w =
      one_for (has_returned turn w) + rounds_returned turns (take_turn turn w)
