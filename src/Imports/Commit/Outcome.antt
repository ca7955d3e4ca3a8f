-- ===== src/Imports/Commit/Outcome.antt =====
-- An import is done as a whole or not at all.
use text.Mathlib.Text.{◌==◌ as str_eq}
use text.Mathlib.TextEquality.{eq_iff}
use most_sprite.Prelude.{
  ℕ, suc, ◌<◌, true, ◌&&◌, ◌==◌, Option, none, some, List, [], ◌∷◌, ◌≡◌, ◌⊎◌, refl, ap, arith, All,
  find_if_passes, Option-cases, Bool-cases, inl, inr, find_if, update_if,
}
use most_sprite.Domain.{ImportStatus}
use most_sprite.Domain.Errors.{SpriteError, Result, ok, err, Result-cases}
use most_sprite.Imports.Paths.{resolve_source}
use most_sprite.Imports.State.{
  ImportInspection, ImportBatch, ImportEvent, Archive, Environment, pure, fail, fail_if, gets, lift,
  the, write, fresh_id, continue, ◌>>=◌,
}
use most_sprite.Imports.Copy.Kept.{AreKept}
use most_sprite.Imports.Register.{some_row}
use most_sprite.Imports.Commit.{
  CommitRequest, import_all, update_batch, finish, in_savepoint, new_batch, add_batch, is_succeeded,
  same_manifest, start, by_inspection, by_manifest, has_manifest, by_key, commit_import,
}
use most_sprite.Imports.Commit.Body.{import_all-IsBody}

-- An id that no batch has.
abbrev pub IsFresh : Archive → Type 0
IsFresh w = All (λ (b : ImportBatch). b.id < w.next_id) w.db.batches

update_if_absent :
    (id : ℕ) (f : ImportBatch → ImportBatch) (bs : List ImportBatch)
    → All (λ (b : ImportBatch). b.id < id) bs
    → update_if (λ b. b.id == id) f bs ≡ bs
unfolding update_if
update_if_absent id f [] h = refl
update_if_absent id f (b ∷ bs) h = ground (arith, update_if_absent id f bs h.1, h.0)

abbrev pub failed_batch : ℕ → CommitRequest → SpriteError → ImportBatch
failed_batch id r e = record (new_batch id r) {
  status = ImportStatus.failed;
  error_code = some e.code;
}

abbrev pub done_batch : ℕ → CommitRequest → List ℕ → ImportBatch
done_batch id r ids = record (new_batch id r) {
  sequence_ids = ids;
  status = ImportStatus.succeeded;
}

-- What a call may do to an archive.
pub data CommitOutcome (env : Environment) (r : CommitRequest) (u : Archive)
    : Result ImportBatch → Archive → Type 0 where
  -- It raises, and nothing has changed but that ids have been drawn.
  refused :
      {e : SpriteError} {v : Archive}
      → v.db ≡ u.db
      → v.files ≡ u.files
      → CommitOutcome env r u (err e) v
  -- It returns the batch of its key, or that of its manifest and policy, and nothing has changed.
  answered :
      {b : ImportBatch} {v : Archive}
      → (find_if (λ x. x.idempotency_key == r.idempotency_key) u.db.batches ≡ some b)
        ⊎ (find_if (has_manifest env r) u.db.batches ≡ some b)
      → b.manifest_sha256 ≡ r.manifest_sha256
      → v ≡ u
      → CommitOutcome env r u (ok b) v
  -- It returns a new batch that is FAILED, and the row of that batch is all that has been added.
  failed :
      {b : ImportBatch} {v : Archive} (id : ℕ) (e : SpriteError)
      → b ≡ failed_batch id r e
      → v.db ≡ record u.db { batches = b ∷ u.db.batches }
      → AreKept u v
      → CommitOutcome env r u (ok b) v
  -- It returns a new batch that is SUCCEEDED.
  imported :
      {b : ImportBatch} {v : Archive} (id : ℕ) (ids : List ℕ)
      → b ≡ done_batch id r ids
      → v.db.batches ≡ b ∷ u.db.batches
      → v.db.inspections ≡ u.db.inspections
      → v.db.outbox ≡ ImportEvent.import_completed id ids ∷ u.db.outbox
      → AreKept u v
      → CommitOutcome env r u (ok b) v

module _ (env : Environment) (r : CommitRequest) (id : ℕ) (u : Archive)
    (free : All (λ (b : ImportBatch). b.id < id) u.db.batches) where
  -- The end of the savepoint, for any body that leaves the batches and the files that are there.
  finish_outcome :
      (result : Result (List ℕ)) (v : Archive)
      → v.db.batches ≡ new_batch id r ∷ u.db.batches
      → v.db.inspections ≡ u.db.inspections
      → v.db.outbox ≡ u.db.outbox
      → AreKept u v
      → let after = finish (add_batch (new_batch id r) u.db) id (result, v) in
        (b : ImportBatch) × (find_if (λ x. x.id == id) after.db.batches ≡ some b)
        × CommitOutcome env r u (ok b) after
  unfolding finish update_batch add_batch new_batch update_if find_if
  finish_outcome (ok ids) v batches inspections outbox kept =
      let same =
        update_if_absent id (λ b. record b { sequence_ids = ids; status = ImportStatus.succeeded })
          u.db.batches free in
      (
        done_batch id r ids,
        rw (batches, same) (ground arith),
        CommitOutcome.imported id ids refl (rw (batches, same) (ground arith)) inspections
            (ap (λ l. ImportEvent.import_completed id ids ∷ l) outbox)
            (record { kept = kept.kept }),
      )
  finish_outcome (err e) v batches inspections outbox kept =
      let same =
        update_if_absent id
          (λ b. record b { status = ImportStatus.failed; error_code = some e.code }) u.db.batches
          free in
      (
        failed_batch id r e,
        rw same (ground arith),
        CommitOutcome.failed id e refl (rw same (ground arith)) (record { kept = kept.kept }),
      )

module _ (env : Environment) (r : CommitRequest) where
  start_outcome :
      (inspection : ImportInspection) (w : Archive)
      → IsFresh w
      → CommitOutcome env r w (start env r inspection w).0 (start env r inspection w).1
  unfolding start ◌>>=◌ continue fail_if fail pure lift gets write fresh_id in_savepoint the
  start_outcome inspection w free = elim (Bool-cases (is_succeeded inspection.status)) [
    | inr waits ↦ rw waits (CommitOutcome.refused refl refl)
    | inl ready ↦ elim (Bool-cases (same_manifest inspection.manifest_sha256 r.manifest_sha256)) [
      | inr changed ↦ rw (ready, changed) (CommitOutcome.refused refl refl)
      | inl same ↦
          elim (Result-cases
            (resolve_source env.fs env.import_roots inspection.root_id inspection.relative_path)) [
              | inl (e, lost) ↦ rw (ready, same, lost) (CommitOutcome.refused refl refl)
              | inr (found, there) ↦
                  elim (Bool-cases
                    (some_row (find_if (λ b. b.inspection_id == r.inspection_id) w.db.batches))) [
                      | inl taken ↦ rw (ready, same, there, taken) (CommitOutcome.refused refl refl)
                      | inr untaken ↦
                          let id = w.next_id in
                          let before : Archive = record w {
                            db = add_batch (new_batch id r) w.db;
                            next_id = suc id;
                          } in
                          let after = import_all env found.0 id r inspection before in
                          let body = import_all-IsBody env found.0 id r inspection before in
                          let (batch, found_batch, outcome) =
                            finish_outcome env r id w free after.0 after.1
                              (unfold add_batch in body.batches)
                              (unfold add_batch in body.inspections)
                              (unfold add_batch in body.outbox)
                              (record { kept = body.files.kept }) in
                          rw (ready, same, there, untaken) (rw found_batch outcome)
                    ]
            ]
    ]
  ]

  has_manifest-eq :
      (b : ImportBatch) → has_manifest env r b ≡ true → b.manifest_sha256 ≡ r.manifest_sha256
  unfolding has_manifest
  has_manifest-eq b h = ground (arith, eq_iff b.manifest_sha256 r.manifest_sha256)

  by_manifest_outcome :
      (found : Option ImportBatch) (w : Archive)
      → find_if (has_manifest env r) w.db.batches ≡ found
      → IsFresh w
      → CommitOutcome env r w (by_manifest env r found w).0 (by_manifest env r found w).1
  unfolding by_manifest by_inspection ◌>>=◌ continue fail pure gets
  by_manifest_outcome (some batch) w found free =
      CommitOutcome.answered (inr found)
        (has_manifest-eq batch (find_if_passes (has_manifest env r) w.db.batches found)) refl
  by_manifest_outcome none w found free =
      elim (Option-cases (find_if (λ i. i.id == r.inspection_id) w.db.inspections)) [
        | inl missing ↦ rw missing (CommitOutcome.refused refl refl)
        | inr (inspection, there) ↦ rw there (start_outcome inspection w free)
      ]

  by_key_outcome :
      (found : Option ImportBatch) (w : Archive)
      → find_if (λ b. b.idempotency_key == r.idempotency_key) w.db.batches ≡ found
      → IsFresh w
      → CommitOutcome env r w (by_key env r found w).0 (by_key env r found w).1
  unfolding by_key ◌>>=◌ continue fail pure gets fail_if
  by_key_outcome (some batch) w found free =
      elim (Bool-cases (
        (batch.inspection_id == r.inspection_id)
        && str_eq batch.manifest_sha256 r.manifest_sha256)) [
          | inl same ↦ rw same (
              CommitOutcome.answered (inl found)
                (ground (arith, eq_iff batch.manifest_sha256 r.manifest_sha256)) refl)
          | inr apart ↦ rw apart (CommitOutcome.refused refl refl)
        ]
  by_key_outcome none w found free =
      by_manifest_outcome (find_if (has_manifest env r) w.db.batches) w refl free

  pub commit_import_outcome :
      (w : Archive)
      → IsFresh w
      → CommitOutcome env r w (commit_import env r w).0 (commit_import env r w).1
  unfolding commit_import ◌>>=◌ continue gets
  commit_import_outcome w free =
      by_key_outcome (find_if (λ b. b.idempotency_key == r.idempotency_key) w.db.batches) w refl
        free
