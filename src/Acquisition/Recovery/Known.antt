-- ===== src/Acquisition/Recovery/Known.antt =====
-- After a recovery every file is known, and a second recovery finds nothing to do.
use most_sprite.Prelude.{
  ℕ, ◌+◌, ◌≡◌, refl, subst, false, Bool-cases, inl, inr, none, some, Option-cases, List, [], ◌∷◌,
  All, find_if, ◌==◌,
}
use most_sprite.Domain.Errors.{ok, ok_injective, first_line-ok, refuse_if, Code, ◌>>=◌}
use most_sprite.Store.{Db, RawFile, get_exposure}
use most_sprite.Acquisition.Recovery.{
  L0Header, find_raw, some_row, recover_exposure, recover_found, recover_unknown, recover_file,
  recover_unregistered_l0,
}
use most_sprite.Acquisition.Recovery.Grows.{Grows, Grows-same, Grows-then, recover_exposure-Grows}

-- A file that a recovery passes over.
data IsKnown (f : L0Header) (db : Db) : Type 0 where
  invalid : f.is_valid ≡ false → IsKnown f db
  registered : (r : RawFile) → find_raw f.raw_file_id db ≡ some r → IsKnown f db
  foreign : get_exposure f.exposure_id db ≡ none → IsKnown f db

IsKnown-Grows : (f : L0Header) (db e : Db) → Grows db e → IsKnown f db → IsKnown f e
IsKnown-Grows f db e more (IsKnown.invalid bad) = IsKnown.invalid bad
IsKnown-Grows f db e more (IsKnown.registered r found) =
    let (q, there) = more.raw f.raw_file_id r found in IsKnown.registered q there
IsKnown-Grows f db e more (IsKnown.foreign gone) =
    IsKnown.foreign (more.exposure f.exposure_id gone)

-- A round has made its file known.
recover_file-IsKnown :
    (f : L0Header) (db : Db) (done : ℕ × Db)
    → recover_file f db ≡ ok done
    → Grows db done.1 × IsKnown f done.1
unfolding recover_file recover_unknown recover_found
recover_file-IsKnown f db done finished = elim (Bool-cases f.is_valid) [
  | inr bad ↦
      let skipped = rw bad at finished in
      rw (← ok_injective skipped) (Grows-same db, IsKnown.invalid bad)
  | inl good ↦
      let tried = rw good at finished in
      elim (Option-cases (find_raw f.raw_file_id db)) [
        | inr (r, found) ↦
            let skipped = rw found at tried in
            rw (← ok_injective skipped) (Grows-same db, IsKnown.registered r found)
        | inl new ↦
            let read = rw new at tried in
            elim (Option-cases (get_exposure f.exposure_id db)) [
              | inl gone ↦
                  let skipped = rw gone at read in
                  rw (← ok_injective skipped) (Grows-same db, IsKnown.foreign gone)
              | inr (e, found) ↦
                  let added = rw found at read in
                  let (passed, checked, same) =
                    first_line-ok
                      (refuse_if (some_row (find_if (λ r. r.exposure_id == e.id) db.raw_files))
                        Code.integrity_error)
                      (λ u. ok (1, recover_exposure f e db)) added in
                  let (more, (r, there)) = recover_exposure-Grows f e db in
                  rw (← ok_injective same) (more, IsKnown.registered r there)
            ]
      ]
]

-- A round on a known file does nothing.
recover_file-known : (f : L0Header) (db : Db) → IsKnown f db → recover_file f db ≡ ok (0, db)
unfolding recover_file recover_unknown recover_found
recover_file-known f db (IsKnown.invalid bad) = rw bad refl
recover_file-known f db (IsKnown.registered r found) = elim (Bool-cases f.is_valid) [
  | inl good ↦ rw (good, found) refl
  | inr bad ↦ rw bad refl
]
recover_file-known f db (IsKnown.foreign gone) = elim (Bool-cases f.is_valid) [
  | inl good ↦ elim (Option-cases (find_raw f.raw_file_id db)) [
    | inl new ↦ rw (good, new, gone) refl
    | inr (r, found) ↦ rw (good, found) refl
  ]
  | inr bad ↦ rw bad refl
]

All-IsKnown :
    (fs : List L0Header) (db : Db) (done : ℕ × Db)
    → recover_unregistered_l0 fs db ≡ ok done
    → Grows db done.1 × All (λ f. IsKnown f done.1) fs
unfolding recover_unregistered_l0
All-IsKnown [] db done finished = rw (← ok_injective finished) (Grows-same db, tt)
All-IsKnown (f ∷ fs) db done finished =
    let (first, read, later) =
      first_line-ok (recover_file f db)
        (λ first. recover_unregistered_l0 fs first.1 >>= λ rest. ok (first.0 + rest.0, rest.1))
        finished in
    let (rest, others, same) =
      first_line-ok (recover_unregistered_l0 fs first.1) (λ rest. ok (first.0 + rest.0, rest.1))
        later in
    let (grown, known) = recover_file-IsKnown f db first read in
    let (more, knowns) = All-IsKnown fs first.1 rest others in
    subst (λ (d : ℕ × Db). Grows db d.1 × All (λ g. IsKnown g d.1) (f ∷ fs)) (ok_injective same)
      (Grows-then db first.1 rest.1 grown more, (IsKnown-Grows f first.1 rest.1 more known, knowns))

nothing_left :
    (fs : List L0Header) (db : Db)
    → All (λ f. IsKnown f db) fs
    → recover_unregistered_l0 fs db ≡ ok (0, db)
unfolding recover_unregistered_l0
nothing_left [] db known = refl
nothing_left (f ∷ fs) db known =
    rw (recover_file-known f db known.0, nothing_left fs db known.1) refl

-- A recovery that came to its end has registered all that there is to register: a second recovery of
-- the same files counts none and changes nothing.
recover_unregistered_l0_once :
    (fs : List L0Header) (db : Db) (done : ℕ × Db)
    → recover_unregistered_l0 fs db ≡ ok done
    → recover_unregistered_l0 fs done.1 ≡ ok (0, done.1)
recover_unregistered_l0_once fs db done finished =
    nothing_left fs done.1 (All-IsKnown fs db done finished).1
