-- ===== src/Processing/Claims.antt =====
-- The claim of `process_run` in backend/src/most_sprite/products/processing.py, its first transaction.
pub mod Exclusion
use most_sprite.Prelude.{
  ℕ, ◌+◌, Bool, true, false, not, ◌&&◌, ◌==◌, ltb, Option, none, some, ◌∷◌, find_if, update_first,
  if◌then◌else◌,
}
use most_sprite.Domain.{ProcessingStatus}
use most_sprite.Domain.Errors.{Result, ok, raise, Code}
use most_sprite.Processing.{ProcessingRun, RunTable}

is_final : ProcessingStatus → Bool
is_final ProcessingStatus.succeeded = true
is_final _ = false

is_running : ProcessingStatus → Bool
is_running ProcessingStatus.running = true
is_running _ = false

same_token : Option ℕ → ℕ → Bool
same_token none token = false
same_token (some a) token = a == token

-- `claim_age < timeout`; without a time the age is infinite.
is_fresh : Option ℕ → ℕ → ℕ → Bool
is_fresh none timeout now = false
is_fresh (some at) timeout now = ltb now (at + timeout)

claim_row : ℕ → ℕ → ProcessingRun → ProcessingRun
claim_row token now r = record r {
  status = ProcessingStatus.running;
  claim_token = some token;
  claimed_at = some now;
  error_code = none;
}

claim_found : ℕ → ℕ → ℕ → RunTable → Option ProcessingRun → Result (Bool × RunTable)
unfolding is_final is_running same_token is_fresh claim_row
claim_found timeout token now t none = raise Code.control_failure
claim_found timeout token now t (some r) =
    if is_final r.status
    then ok (false, t)
    else if is_running r.status
        && not (same_token r.claim_token token)
        && is_fresh r.claimed_at timeout now
    then ok (false, t)
    else ok (
      true,
      record t {
        runs = update_first (λ x. x.id == r.id) (claim_row token now) t.runs;
        events = (r.id, ProcessingStatus.running) ∷ t.events;
      },
    )

-- The first transaction of `process_run`: whether this worker has the run now.
unfoldable pub claim_run : ℕ → ℕ → ℕ → ℕ → RunTable → Result (Bool × RunTable)
unfolding claim_found
claim_run timeout id token now t =
    claim_found timeout token now t (find_if (λ r. r.id == id) t.runs)
