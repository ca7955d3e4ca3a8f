-- ===== src/Imports/Copy/Verified.antt =====
-- What a copy leaves under its name.
use text.Mathlib.TextEquality.{eq_iff}
use Prim.Native.String.{String}
use most_sprite.Prelude.{
  ℕ, Bool, true, false, Option, none, some, List, ◌≡◌, ◌≢◌, refl, arith, Bool-cases, inl, inr,
}
use most_sprite.Domain.Errors.{Code, ok, err}
use most_sprite.Imports.State.{
  ManagedPath, Archive, same_path, pure, fail, gets, fail_if, continue, ◌>>=◌,
}
use most_sprite.Imports.Copy.{find_file, matches, add_file, place, old_matches, copy_verified}

-- The name holds bytes of the size and the digest.
abbrev pub Holds : (List ℕ → String) → ManagedPath → String → ℕ → Archive → Type 0
Holds sha256 path expected_sha256 expected_size w =
    (bytes : List ℕ) × (find_file path w.files ≡ some bytes)
    × (matches sha256 expected_sha256 expected_size bytes ≡ true)

same_path_self : (path : ManagedPath) → same_path path path ≡ true
unfolding same_path
same_path_self path = ground (arith, eq_iff path.shard path.shard, eq_iff path.name path.name)

module _ (sha256 : List ℕ → String) (path : ManagedPath) (expected_sha256 : String)
    (expected_size : ℕ) where
  fits : List ℕ → Bool
  fits = matches sha256 expected_sha256 expected_size

  place-Holds :
      (bytes : List ℕ) (fit : Bool) (old : Option (List ℕ)) (w : Archive)
      → find_file path w.files ≡ old
      → fits bytes ≡ fit
      → (place path bytes fit old (old_matches fits old) w).0 ≡ ok tt
      → Holds sha256 path expected_sha256 expected_size
          (place path bytes fit old (old_matches fits old) w).1
  unfolding place old_matches add_file find_file fits fail_if pure fail
  place-Holds bytes fit (some old) w found same done =
      elim (Bool-cases (matches sha256 expected_sha256 expected_size old)) [
        | inl good ↦ rw good (old, found, good)
        | inr bad ↦ absurd (ground arith)
      ]
  place-Holds bytes true none w found same done = rw (same_path_self path) (bytes, refl, same)
  place-Holds bytes false none w found same done = absurd (ground arith)

  -- A copy that succeeds leaves bytes of the size and the digest that were recorded.
  pub copy_verified-Holds :
      (bytes : List ℕ) (w : Archive)
      → (copy_verified sha256 bytes path expected_sha256 expected_size w).0 ≡ ok tt
      → Holds sha256 path expected_sha256 expected_size
          (copy_verified sha256 bytes path expected_sha256 expected_size w).1
  unfolding copy_verified ◌>>=◌ continue gets fits
  copy_verified-Holds bytes w h =
      place-Holds bytes (fits bytes) (find_file path w.files) w refl refl h

  -- ... and is not made again.
  pub copy_verified_again :
      (bytes : List ℕ) (w : Archive)
      → Holds sha256 path expected_sha256 expected_size w
      → copy_verified sha256 bytes path expected_sha256 expected_size w ≡ (ok tt, w)
  unfolding copy_verified ◌>>=◌ continue gets place old_matches fail_if pure
  copy_verified_again bytes w (old, found, good) = rw (found, good)

module _ (sha256 : List ℕ → String) where
  digest_apart :
      (old : List ℕ) (expected other : String) (size other_size : ℕ)
      → matches sha256 expected size old ≡ true
      → other ≢ expected
      → matches sha256 other other_size old ≡ false
  unfolding matches
  digest_apart old expected other size other_size good apart =
      ground (arith, eq_iff (sha256 old) expected, eq_iff (sha256 old) other)

module _ (sha256 : List ℕ → String) (path : ManagedPath) where
  copy_verified_refused :
      (later : List ℕ) (expected other : String) (size other_size : ℕ) (w : Archive)
      → Holds sha256 path expected size w
      → other ≢ expected
      → copy_verified sha256 later path other other_size w
        ≡ (err (record { code = Code.import_immutable_conflict; retryable = false }), w)
  unfolding copy_verified ◌>>=◌ continue gets place old_matches fail_if pure fail
  copy_verified_refused later expected other size other_size w (old, found, good) apart =
      let bad : matches sha256 other other_size old ≡ false =
        digest_apart sha256 old expected other size other_size good apart in
      rw (found, bad)

  -- After a copy that succeeded, the bytes that it left have the size and the digest that were
  -- asked for, a copy that asks for the same succeeds and changes nothing, whatever its source holds
  -- by then, and a copy that asks for another digest is refused and changes nothing.
  pub copy_verified_once :
      (bytes later : List ℕ) (expected other : String) (size other_size : ℕ) (w : Archive)
      → (copy_verified sha256 bytes path expected size w).0 ≡ ok tt
      → other ≢ expected
      → let w' = (copy_verified sha256 bytes path expected size w).1 in
        Holds sha256 path expected size w'
        × (copy_verified sha256 later path expected size w' ≡ (ok tt, w'))
        × (copy_verified sha256 later path other other_size w'
            ≡ (err (record { code = Code.import_immutable_conflict; retryable = false }), w'))
  copy_verified_once bytes later expected other size other_size w done apart =
      let held = copy_verified-Holds sha256 path expected size bytes w done in
      (
        held,
        copy_verified_again sha256 path expected size later _ held,
        copy_verified_refused later expected other size other_size _ held apart,
      )
