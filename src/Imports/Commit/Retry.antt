-- ===== src/Imports/Commit/Retry.antt =====
-- What comes of a commit that is asked for again.
use text.Mathlib.Text.{◌==◌ as str_eq}
use text.Mathlib.TextEquality.{eq_iff}
use most_sprite.Prelude.{
  true, false, ◌&&◌, ◌==◌, some, ◌∷◌, ◌≡◌, ◌⊎◌, refl, subst, arith, inl, inr, find_if,
}
use most_sprite.Domain.Errors.{Code, SpriteError, Result, ok}
use most_sprite.Imports.State.{
  ImportBatch, Archive, Environment, pure, fail_if, gets, continue, ◌>>=◌,
}
use most_sprite.Imports.Commit.{CommitRequest, new_batch, by_key, commit_import}
use most_sprite.Imports.Commit.Outcome.{CommitOutcome, IsFresh, commit_import_outcome}

abbrev raised : Code → SpriteError
raised c = record { code = c; retryable = false }

-- The batch that a call has returned was there, or stands first in the table with the key of the call.
settled :
    (env : Environment) (r : CommitRequest) (u : Archive) (result : Result ImportBatch)
    (v : Archive) (b : ImportBatch)
    → CommitOutcome env r u result v
    → result ≡ ok b
    → (v ≡ u)
      ⊎ ((v.db.batches ≡ b ∷ u.db.batches)
          × (b.idempotency_key ≡ r.idempotency_key)
          × (b.inspection_id ≡ r.inspection_id)
          × (b.manifest_sha256 ≡ r.manifest_sha256))
unfolding new_batch
settled env r u result v b (CommitOutcome.refused _ _) h = absurd (ground arith)
settled env r u result v b (CommitOutcome.answered _ _ same) h = inl same
settled env r u result v b (CommitOutcome.failed id e made added _) h = inr (ground arith)
settled env r u result v b (CommitOutcome.imported id ids made added _ _ _) h = inr (ground arith)

module _ (env : Environment) (r : CommitRequest) where
  by_key_same :
      (b : ImportBatch) (w : Archive)
      → b.inspection_id ≡ r.inspection_id
      → b.manifest_sha256 ≡ r.manifest_sha256
      → by_key env r (some b) w ≡ (ok b, w)
  unfolding by_key ◌>>=◌ continue pure fail_if
  by_key_same b w inspection manifest =
      let same : ((b.inspection_id == r.inspection_id)
            && str_eq b.manifest_sha256 r.manifest_sha256)
          ≡ true =
        ground (arith, eq_iff b.manifest_sha256 r.manifest_sha256) in
      rw same

  -- A commit that has returned a batch returns the same batch when it is asked for again, and then
  -- changes nothing. A new id is one that no batch has.
  pub commit_import_retry :
      (w w' : Archive) (b : ImportBatch)
      → IsFresh w
      → commit_import env r w ≡ (ok b, w')
      → commit_import env r w' ≡ (ok b, w')
  unfolding commit_import ◌>>=◌ continue gets find_if
  commit_import_retry w w' b free returned =
      let outcome =
        subst (λ p. CommitOutcome env r w p.0 p.1) returned (commit_import_outcome env r w free) in
      elim (settled env r w (ok b) w' b outcome refl) [
        | inl same ↦ rw same (subst (λ v. commit_import env r w ≡ (ok b, v)) same returned)
        | inr (added, key, inspection, manifest) ↦
            let found : find_if (λ x. x.idempotency_key == r.idempotency_key) w'.db.batches
                ≡ some b =
              rw added (ground arith) in
            rw found (by_key_same b w' inspection manifest)
      ]
