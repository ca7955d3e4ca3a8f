-- ===== src/Control/World.antt =====
-- What the control process of backend/src/most_sprite/control/runner.py acts on: the database, the
-- device, the disk and the clock; and the actions of its methods, which may raise. A transaction of
-- db/session.py (`session_scope`) is atomic: what other processes do between two of them is a
-- schedule, taken one turn at the start of each. An exception rolls the database back to the
-- start of the transaction; what the device and the disk have done stays.
pub mod Relates
pub mod Others
pub mod Returns
use most_sprite.Prelude.{ℕ, suc, ◌+◌, Bool, true, false, Option, none, some, List, [], ◌∷◌}
use most_sprite.Domain.Errors.{Code, SpriteError, Result, ok, err}
use most_sprite.Devices.Simulator
use most_sprite.Devices.Simulator.{Simulator, Fault, inject_fault}
use most_sprite.Store.{Db, Settings}
use most_sprite.Api.Sequences.{ActionRequest, sequence_action, recover_instrument}

-- An L0 file on disk, named after the day and the exposure, with the header cards that the code
-- reads back.
pub record L0File : Type 0 where
  pub day : ℕ
  pub exposure_id : ℕ
  pub raw_file_id : ℕ
  pub command_id : Option ℕ

-- What others do between two transactions: a client's request, a recovery, a fault injected or
-- cleared, a restart of the device agent, a loss of the connection to it, a change of the free space on
-- disk, and time.
pub data Outside : Type 0 where
  request : ActionRequest → Outside
  recovers : Outside
  faults : Fault → Bool → Outside
  device_restarts : Outside
  free_space : ℕ → Outside
  connects : Bool → Outside
  time_passes : ℕ → Outside

pub record World : Type 0 where
  pub db : Db
  pub device : Simulator
  pub files : List L0File
  pub free_bytes : ℕ
  pub is_reachable : Bool
  pub now : ℕ
  pub next_id : ℕ
  pub last_idle_refresh : ℕ
  pub schedule : List (List Outside)

-- A request that raises changes nothing.
pub after_request {ℓ} : {A : Type ℓ} → Db → Result A → (A → Db) → Db
after_request db (ok a) f = f a
after_request db (err e) f = db

pub outside : Outside → World → World
unfolding after_request
outside (request r) w = record w {
  db = after_request w.db (sequence_action r w.now w.db) (λ a. a.1);
}
outside recovers w = record w { db = after_request w.db (recover_instrument w.now w.db) (λ d. d) }
outside (faults f active) w = record w { device = inject_fault f active w.device }
outside device_restarts w = record w { device = Simulator.new }
outside (free_space n) w = record w { free_bytes = n }
outside (connects reached) w = record w { is_reachable = reached }
outside (time_passes n) w = record w { now = w.now + n }

pub outside_all : List Outside → World → World
outside_all [] w = w
outside_all (o ∷ os) w = outside_all os (outside o w)

take_turn : List (List Outside) → World → World
take_turn [] w = w
take_turn (os ∷ rest) w = outside_all os (record w { schedule = rest })

-- The others take their turn.
unfoldable pub turn : World → World
unfolding take_turn outside_all outside
turn w = take_turn w.schedule w

abbrev pub Run : Type 0 → Type 0
Run A = World → Result A × World

module _ {A : Type 0} where
  unfoldable pub pure : A → Run A
  pure a w = (ok a, w)

  unfoldable pub fail : Code → Run A
  fail c w = (err (record { code = c; retryable = false }), w)

  -- An error that the client may retry.
  unfoldable pub fail_retryable : Code → Run A
  fail_retryable c w = (err (record { code = c; retryable = true }), w)

  -- Read the world.
  unfoldable pub gets : (World → A) → Run A
  gets f w = (ok (f w), w)

  -- `assert value is not None`, and a lookup that raises: the exception is no `SpriteError`.
  unfoldable pub the : Option A → Run A
  the none w = (err (record { code = Code.control_failure; retryable = false }), w)
  the (some a) w = (ok a, w)

  unfoldable pub lift : Result A → Run A
  lift r w = (r, w)

  unfoldable pub roll_back : Db → Result A × World → Result A × World
  roll_back db (ok a, w) = (ok a, w)
  roll_back db (err e, w) = (err e, record w { db = db })

  -- `async with session_scope() as session`
  unfoldable pub session : Run A → Run A
  unfolding roll_back
  session m w = let v = turn w in roll_back v.db (m v)

-- Write the database.
unfoldable pub write : (Db → Db) → Run (Unit {0})
write f w = (ok tt, record w { db = f w.db })

-- `uuid4()`: an id that no row has.
unfoldable pub fresh_id : Run ℕ
fresh_id w = (ok w.next_id, record w { next_id = suc w.next_id })

-- `asyncio.sleep`
unfoldable pub sleep : ℕ → Run (Unit {0})
sleep n w = (ok tt, record w { now = w.now + n })

-- `with contextlib.suppress(Exception)`: what was written before the exception stays.
unfoldable pub suppress : {A : Type 0} → Run A → Run (Unit {0})
suppress m w = (ok tt, (m w).1)

module _ {A B : Type 0} where
  infixl 5 ◌>>=◌ ◌>>◌
  unfoldable pub continue : Result A × World → (A → Run B) → Result B × World
  continue (ok a, w) f = f a w
  continue (err e, w) f = (err e, w)

  unfoldable pub ◌>>=◌ : Run A → (A → Run B) → Run B
  unfolding continue
  ◌>>=◌ m f w = continue (m w) f

  abbrev pub ◌>>◌ : Run A → Run B → Run B
  m >> n = m >>= λ _. n
