-- ===== src/Control/Lease.antt =====
-- backend/src/most_sprite/control/lease.py: the lease by which one control process leads, with the
-- fencing token that tells its leaders apart. Times are numbers; `_aware` only adds a time zone.
pub mod Fencing
mod Tests
use most_sprite.Prelude.{
  ℕ, ◌+◌, Bool, not, ◌&&◌, Option, none, some, List, [], ◌∷◌, ltb, ◌==◌, if◌then◌else◌,
}

pub record ControlLease : Type 0 where
  pub owner_id : ℕ
  pub fencing_token : ℕ
  pub expires_at : ℕ

-- The row "primary" and what the call returns; `ttl` is `ttl_seconds`.
unfoldable pub acquire_or_renew_lease :
    ℕ → Option ControlLease → ℕ → ℕ → Option ℕ × Option ControlLease
acquire_or_renew_lease ttl none now owner =
    (some 1, some (record { owner_id = owner; fencing_token = 1; expires_at = now + ttl }))
acquire_or_renew_lease ttl (some lease) now owner =
    let token = if same then lease.fencing_token else lease.fencing_token + 1 in
    if not same && ltb now lease.expires_at then (none, some lease) else (
      some token,
      some (record { owner_id = owner; fencing_token = token; expires_at = now + ttl }),
    )
  where
    same : Bool
    same = lease.owner_id == owner

-- A call of the function, by the owner that makes it and the time that it reads.
pub record Attempt : Type 0 where
  pub owner : ℕ
  pub now : ℕ

-- What a granted call gave out.
pub record Grant : Type 0 where
  pub owner : ℕ
  pub token : ℕ

abbrev pub granted : ℕ → Option ℕ → List Grant → List Grant
granted owner none gs = gs
granted owner (some token) gs = record { owner = owner; token = token } ∷ gs

-- A history of calls by any processes, with the grants so far, newest first.
unfoldable pub run_attempts :
    ℕ → Option ControlLease → List Grant → List Attempt → Option ControlLease × List Grant
unfolding acquire_or_renew_lease
run_attempts ttl lease gs [] = (lease, gs)
run_attempts ttl lease gs (a ∷ rest) =
    let (token, lease') = acquire_or_renew_lease ttl lease a.now a.owner in
    run_attempts ttl lease' (granted a.owner token gs) rest
