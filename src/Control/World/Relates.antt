-- ===== src/Control/World/Relates.antt =====
-- Relations between the database before and after an action, one rule for each way to build an
-- action. `Q` is any relation that holds from a database to itself, goes on along a history, and
-- covers what others do between two transactions.
use most_sprite.Prelude.{ℕ, Bool, true, false, Option, none, some, List, [], ◌∷◌, if◌then◌else◌}
use most_sprite.Domain.Errors.{Code, Result, ok, err}
use most_sprite.Store.{Db}
use most_sprite.Control.World.{
  World, Outside, Run, outside, outside_all, take_turn, turn, pure, fail, fail_retryable, gets, the,
  lift, roll_back, session, write, fresh_id, sleep, suppress, continue, ◌>>=◌,
}

pub record IsHistory (Q : Db → Db → Type 0) : Type 0 where
  pub start : (d : Db) → Q d d
  pub onward : (a b c : Db) → Q a b → Q b c → Q a c
  pub others : (o : Outside) (w : World) → Q w.db (outside o w).db

-- The action leads along `Q`, whether it returns or raises.
pub record Leads {A : Type 0} (Q : Db → Db → Type 0) (m : Run A) : Type 0 where
  pub at : (w : World) → Q w.db (m w).1.db

module _ {Q : Db → Db → Type 0} (h : IsHistory Q) where
  others_all : (os : List Outside) (w : World) → Q w.db (outside_all os w).db
  unfolding outside_all
  others_all [] w = h.start w.db
  others_all (o ∷ os) w = h.onward _ _ _ (h.others o w) (others_all os (outside o w))

  pub turn_leads : (w : World) → Q w.db (turn w).db
  unfolding turn
  turn_leads w = by_schedule w.schedule
    where
      by_schedule : (os : List (List Outside)) → Q w.db (take_turn os w).db
      by_schedule [] = h.start w.db
      by_schedule (os ∷ rest) = others_all os (record w { schedule = rest })

  pub Leads-pure : {A : Type 0} (a : A) → Leads Q (pure a)
  unfolding pure
  Leads-pure a = record { at = λ w. h.start w.db }

  pub Leads-fail : {A : Type 0} (c : Code) → Leads Q (fail {A = A} c)
  unfolding fail
  Leads-fail c = record { at = λ w. h.start w.db }

  pub Leads-fail_retryable : {A : Type 0} (c : Code) → Leads Q (fail_retryable {A = A} c)
  unfolding fail_retryable
  Leads-fail_retryable c = record { at = λ w. h.start w.db }

  pub Leads-gets : {A : Type 0} (f : World → A) → Leads Q (gets f)
  unfolding gets
  Leads-gets f = record { at = λ w. h.start w.db }

  pub Leads-the : {A : Type 0} (o : Option A) → Leads Q (the o)
  unfolding the
  Leads-the none = record { at = λ w. h.start w.db }
  Leads-the (some a) = record { at = λ w. h.start w.db }

  pub Leads-lift : {A : Type 0} (r : Result A) → Leads Q (lift r)
  unfolding lift
  Leads-lift r = record { at = λ w. h.start w.db }

  pub Leads-fresh_id : Leads Q fresh_id
  unfolding fresh_id
  Leads-fresh_id = record { at = λ w. h.start w.db }

  pub Leads-sleep : (n : ℕ) → Leads Q (sleep n)
  unfolding sleep
  Leads-sleep n = record { at = λ w. h.start w.db }

  pub Leads-write : (f : Db → Db) → ((d : Db) → Q d (f d)) → Leads Q (write f)
  unfolding write
  Leads-write f q = record { at = λ w. q w.db }

  pub Leads-suppress : {A : Type 0} (m : Run A) → Leads Q m → Leads Q (suppress m)
  unfolding suppress
  Leads-suppress m l = record { at = λ w. l.at w }

  pub Leads-session : {A : Type 0} (m : Run A) → Leads Q m → Leads Q (session m)
  unfolding session
  Leads-session {A} m l = record {
    at = λ w. h.onward _ _ _ (turn_leads w) (back (turn w) (m (turn w)) (l.at (turn w)));
  }
    where
      back : (v : World) (r : Result A × World) → Q v.db r.1.db → Q v.db (roll_back v.db r).1.db
      back v (ok a, w) q = unfold roll_back in q
      back v (err e, w) q = unfold roll_back in h.start v.db

  pub Leads-bind :
      {A B : Type 0} (m : Run A) (f : A → Run B)
      → Leads Q m
      → ((a : A) → Leads Q (f a))
      → Leads Q (m >>= f)
  unfolding ◌>>=◌
  Leads-bind {A} {B} m f l k = record { at = λ w. go w.db (m w) (l.at w) }
    where
      go : (d : Db) (r : Result A × World) → Q d r.1.db → Q d (continue r f).1.db
      go d (ok a, v) q = h.onward _ _ _ q ((k a).at v)
      go d (err e, v) q = q

  pub Leads-if :
      {A : Type 0} (b : Bool) (m n : Run A) → Leads Q m → Leads Q n → Leads Q (if b then m else n)
  Leads-if true m n l k = l
  Leads-if false m n l k = k

pub ruleset leads_rules = (
  Leads-pure, Leads-fail, Leads-fail_retryable, Leads-gets, Leads-the, Leads-lift, Leads-fresh_id,
  Leads-sleep, Leads-suppress, Leads-session, Leads-bind, Leads-if,
)
