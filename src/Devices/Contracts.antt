-- ===== src/Devices/Contracts.antt =====
-- backend/src/most_sprite/devices/contracts.py, and the forms of `Command.idempotency_key`. Angles
-- are in units of 1/10000 degree and times in milliseconds. Identifiers (UUIDs), texts that a client
-- chooses and file paths are numbers: the code only compares them.
use most_sprite.Prelude.{ℕ, ◌≡◌, refl, Bool, true, false, Option, ite, arith, ℕ_discrete}
use most_sprite.Prelude.Int.{ℤ}
use most_sprite.Domain.{DataMode, CommandStatus}
use most_sprite.Domain.Errors.{Code}

-- What follows the attempt in a key of the runner, `f"{sequence.id}:{sequence.attempt}:{suffix}"`.
pub data Suffix : Type 0 where
  initialize safe_fault : Suffix
  optics : DataMode → Suffix
  move expose abort : ℕ → Suffix

-- The actions of a sequence that a client may ask for.
pub data Action : Type 0 where
  start pause resume abort : Action

-- The formats of idempotency keys: of the runner's commands, `api-create:`, `api-sequence:`,
-- `api-recover:` and `recovered-l0:`.
pub data CommandKey : Type 0 where
  run : ℕ → ℕ → Suffix → CommandKey
  api_create api_recover recovered_l0 : ℕ → CommandKey
  api_sequence : ℕ → Action → ℕ → CommandKey

unfoldable pub CommandKey-discrete : Discrete CommandKey
CommandKey-discrete = hlevel ℕ_discrete

-- `==` of two keys.
unfoldable pub same_key : CommandKey → CommandKey → Bool
unfolding CommandKey-discrete ℕ_discrete
same_key k j = ite (CommandKey-discrete k j) true false

pub same_key→eq : (k j : CommandKey) → same_key k j ≡ true → k ≡ j
unfolding same_key
same_key→eq k j h = elim (CommandKey-discrete k j) [ yes e ↦ e | no n ↦ ground arith ]

pub same_key_refl : (k : CommandKey) → same_key k k ≡ true
unfolding same_key
same_key_refl k = elim (CommandKey-discrete k k) [ yes e ↦ ground arith | no n ↦ absurd (n refl) ]

-- `command_type` with the `parameters` that its handler reads; `unknown` is any other type.
pub data Order : Type 0 where
  initialize abort safe unknown : Order
  set_optics : DataMode → Order
  move_fr : ℤ → ℤ → Order
  expose : DataMode → ℕ → ℕ → Order

pub record DeviceCommand : Type 0 where
  pub command_id : ℕ
  pub idempotency_key : CommandKey
  pub order : Order
  pub deadline : ℕ
  pub fencing_token : ℕ

-- The `result` of a feedback: of SET_OPTICS, of MOVE_FR, and of EXPOSE with the path of its frame.
pub data FeedbackResult : Type 0 where
  empty : FeedbackResult
  optics_set : DataMode → FeedbackResult
  moved : ℤ → ℤ → FeedbackResult
  exposed : ℕ → ℤ → ℤ → Bool → Bool → FeedbackResult

pub record DeviceFeedback : Type 0 where
  pub command_id : ℕ
  pub status : CommandStatus
  pub completed_at : ℕ
  pub result : FeedbackResult
  pub error_code : Option Code
