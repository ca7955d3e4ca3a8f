-- ===== src/Control/Lease/Fencing.antt =====
-- The tokens that the lease hands out tell the leaders apart, in the order in which they led.
use most_sprite.Prelude.{
  ℕ, ◌+◌, ◌≤◌, ◌<◌, ◌≡◌, ◌≢◌, refl, ◌==◌, ltb, ◌⊎◌, inl, inr, Bool-cases, Option, none, some, List,
  [], ◌∷◌, All, All-map, arith,
}
use most_sprite.Control.Lease.{
  ControlLease, Attempt, Grant, acquire_or_renew_lease, run_attempts, granted,
}

-- A call that finds the lease of another process before it has expired.
abbrev pub IsShutOut : ControlLease → Attempt → Type 0
IsShutOut lease a = (a.owner ≢ lease.owner_id) × (a.now < lease.expires_at)

shut_out :
    (ttl : ℕ) (lease : ControlLease) (gs : List Grant) (calls : List Attempt)
    → All (IsShutOut lease) calls
    → run_attempts ttl (some lease) gs calls ≡ (some lease, gs)
unfolding run_attempts acquire_or_renew_lease
shut_out ttl lease gs [] h = refl
shut_out ttl lease gs (a ∷ rest) ((other, early), h) =
    let refused : acquire_or_renew_lease ttl (some lease) a.now a.owner ≡ (none, some lease) =
      ground arith in
    rw refused (shut_out ttl lease gs rest h)

lease_of :
    (ttl : ℕ) (lease : Option ControlLease) (now owner : ℕ) (token : ℕ) (held : Option ControlLease)
    → acquire_or_renew_lease ttl lease now owner ≡ (some token, held)
    → held ≡ some (record { owner_id = owner; fencing_token = token; expires_at = now + ttl })
unfolding acquire_or_renew_lease
lease_of ttl none now owner token held h = cc
lease_of ttl (some l) now owner token held h = ground arith

renewed :
    (ttl owner token expires later : ℕ)
    → (acquire_or_renew_lease ttl
        (some (record { owner_id = owner; fencing_token = token; expires_at = expires }))
        later
        owner).0
      ≡ some token
unfolding acquire_or_renew_lease
renewed ttl owner token expires later = ground arith

-- Once a process has been granted the lease, whatever other processes call before it expires is
-- refused and changes nothing, and then the holder's next call, at any time, gets the same token.
pub leader_alone :
    (ttl : ℕ) (lease held : Option ControlLease) (now owner token : ℕ) (gs : List Grant)
    (calls : List Attempt) (later : ℕ)
    → acquire_or_renew_lease ttl lease now owner ≡ (some token, held)
    → All (λ (a : Attempt). (a.owner ≢ owner) × (a.now < now + ttl)) calls
    → (run_attempts ttl held gs calls ≡ (held, gs))
      × ((acquire_or_renew_lease ttl (run_attempts ttl held gs calls).0 later owner).0 ≡ some token)
leader_alone ttl lease held now owner token gs calls later granted_ shut =
    let p = lease_of ttl lease now owner token held granted_ in
    rw p (
      rw
        (shut_out ttl (record { owner_id = owner; fencing_token = token; expires_at = now + ttl })
          gs calls shut)
        (refl, renewed ttl owner token (now + ttl) later))

-- `g` went out before `later`, and went to the same owner if it has the same token.
abbrev pub Before : Grant → Grant → Type 0
Before later g = (g.token ≤ later.token) × (g.token ≡ later.token → g.owner ≡ later.owner)

-- Every grant stands so to the ones after it; the list is newest first.
abbrev pub IsFenced : List Grant → Type 0
IsFenced [] = Unit
IsFenced (g ∷ gs) = All (Before g) gs × IsFenced gs

held : ControlLease → Grant
held l = record { owner = l.owner_id; token = l.fencing_token }

-- The lease was the last grant.
abbrev Inv : Option ControlLease → List Grant → Type 0
Inv none gs = gs ≡ []
Inv (some l) gs = All (Before (held l)) gs × IsFenced gs

Before-trans : (a b g : Grant) → Before a b → Before b g → Before a g
Before-trans a b g h k = (omega arith, λ e. ground arith)

grant-Inv :
    (l m : ControlLease) (gs : List Grant)
    → Before (held m) (held l)
    → Inv (some l) gs
    → Inv (some m) (granted m.owner_id (some m.fencing_token) gs)
unfolding held
grant-Inv l m gs b h =
    let older = All-map (Before (held l)) (Before (held m)) (λ g. Before-trans _ _ g b) gs h.0 in
    (((omega arith, λ _. refl), older), (older, h.1))

-- A call on a held lease is refused, or grants a lease that its caller did not hold under an
-- older token or another owner's.
held_cases :
    (ttl : ℕ) (l : ControlLease) (now owner : ℕ)
    → (acquire_or_renew_lease ttl (some l) now owner ≡ (none, some l))
      ⊎ ((m : ControlLease) × (acquire_or_renew_lease ttl (some l) now owner
            ≡ (some m.fencing_token, some m))
          × (m.owner_id ≡ owner)
          × Before (held m) (held l))
unfolding acquire_or_renew_lease held
held_cases ttl l now owner = elim (Bool-cases (l.owner_id == owner)) [
  | inl same ↦ inr (
    record { owner_id = owner; fencing_token = l.fencing_token; expires_at = now + ttl },
    ground arith,
    refl,
    (omega arith, λ _. ground arith),
  )
  | inr other ↦ elim (Bool-cases (ltb now l.expires_at)) [
    | inl early ↦ inl (ground arith)
    | inr late ↦ inr (
      record { owner_id = owner; fencing_token = l.fencing_token + 1; expires_at = now + ttl },
      ground arith,
      refl,
      (omega arith, λ e. absurd (omega arith)),
    )
  ]
]

step-Inv :
    (ttl : ℕ) (lease : Option ControlLease) (now owner : ℕ) (gs : List Grant)
    → Inv lease gs
    → let (token, lease') = acquire_or_renew_lease ttl lease now owner in
      Inv lease' (granted owner token gs)
step-Inv ttl none now owner [] h =
    unfold acquire_or_renew_lease held in (((omega arith, λ _. refl), tt), (tt, tt))
step-Inv ttl none now owner (g ∷ gs) h = cc
step-Inv ttl (some l) now owner gs h = elim (held_cases ttl l now owner) [
  | inl e ↦ rw e h
  | inr (m, e, o, b) ↦ rw (e, ← o) (grant-Inv l m gs b h)
]

run-Inv :
    (ttl : ℕ) (lease : Option ControlLease) (gs : List Grant) (calls : List Attempt)
    → Inv lease gs
    → let (lease', gs') = run_attempts ttl lease gs calls in Inv lease' gs'
unfolding run_attempts
run-Inv ttl lease gs [] h = h
run-Inv ttl lease gs (a ∷ rest) h =
    run-Inv ttl (acquire_or_renew_lease ttl lease a.now a.owner).1 _ rest
      (step-Inv ttl lease a.now a.owner gs h)

-- In every history of calls on the empty table, by any processes at any times, tokens never fall
-- from one grant to the next, and two grants with one token went to one owner.
pub run_attempts-IsFenced :
    (ttl : ℕ) (calls : List Attempt) → IsFenced (run_attempts ttl none [] calls).1
run_attempts-IsFenced ttl calls =
    last (run_attempts ttl none [] calls).0 (run-Inv ttl none [] calls refl)
  where
    last :
        (l : Option ControlLease)
        → Inv l (run_attempts ttl none [] calls).1
        → IsFenced (run_attempts ttl none [] calls).1
    last none e = rw e tt
    last (some l) h = h.1
