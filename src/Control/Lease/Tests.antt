-- ===== src/Control/Lease/Tests.antt =====
-- Examples for the lease: process 1 leads until 100, and process 2 asks.
use most_sprite.Prelude.{ℕ, Option, refl, ◌≡◌, ◌≢◌, none, some, List, [], ◌∷◌, arith}
use most_sprite.Control.Lease.{ControlLease, Attempt, acquire_or_renew_lease, run_attempts}
use most_sprite.Control.Lease.Fencing.{IsFenced, leader_alone, run_attempts-IsFenced}

abbrev lease : ControlLease
lease = record { owner_id = 1; fencing_token = 4; expires_at = 100 }

two_apart : ◌≢◌ {A = ℕ} 2 1
two_apart h = ground arith

abbrev calls : List Attempt
calls =
    record { owner = 1; now = 0 }
    ∷ record { owner = 2; now = 5 }
    ∷ record { owner = 2; now = 40 }
    ∷ record { owner = 1; now = 90 }
    ∷ []

run_attempts-IsFenced_example : IsFenced (run_attempts 15 none [] calls).1
run_attempts-IsFenced_example = run_attempts-IsFenced 15 calls

abbrev rivals : List Attempt
rivals = record { owner = 2; now = 50 } ∷ record { owner = 2; now = 14 } ∷ []

abbrev renewed : Option ControlLease
renewed = some (record { owner_id = 1; fencing_token = 4; expires_at = 60 })

lease-renewal : acquire_or_renew_lease 15 (some lease) 45 1 ≡ (some 4, renewed)
unfolding acquire_or_renew_lease
lease-renewal = refl

leader_alone_example :
    (run_attempts 15 renewed [] rivals ≡ (renewed, []))
    × ((acquire_or_renew_lease 15 (run_attempts 15 renewed [] rivals).0 90 1).0 ≡ some 4)
leader_alone_example =
    leader_alone 15 (some lease) renewed 45 1 4 [] rivals 90 lease-renewal
      ((two_apart, omega arith), ((two_apart, omega arith), tt))
