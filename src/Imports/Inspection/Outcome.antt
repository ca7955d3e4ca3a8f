-- ===== src/Imports/Inspection/Outcome.antt =====
-- What an inspection may do to the tables.
use text.Mathlib.TextEquality.{eq_iff}
use most_sprite.Prelude.{
  ℕ, ◌<◌, true, ◌==◌, Option, none, some, List, [], ◌∷◌, ◌≡◌, refl, arith, All, Bool-cases, inl,
  inr, find_if, update_if,
}
use most_sprite.Domain.Errors.{SpriteError, Result, ok, err, Result-cases}
use most_sprite.Imports.Paths.{resolve_source}
use most_sprite.Imports.Names.{FilePath}
use most_sprite.Imports.Scan.{ScanResult}
use most_sprite.Imports.State.{
  ImportInspection, ImportEvent, Archive, Environment, pure, fail, fail_if, gets, lift, the, write,
  fresh_id, continue, ◌>>=◌,
}
use most_sprite.Imports.Inspection.{
  InspectionRequest, new_inspection, add_inspection, update_inspection, with_result, with_error,
  close_inspection, scan_with, is_same, by_inspection_key, inspect_import_directory,
}

-- An id that no inspection has.
abbrev pub IsFresh : Archive → Type 0
IsFresh w = All (λ (i : ImportInspection). i.id < w.next_id) w.db.inspections

update_if_absent :
    (id : ℕ) (f : ImportInspection → ImportInspection) (is : List ImportInspection)
    → All (λ (i : ImportInspection). i.id < id) is
    → update_if (λ i. i.id == id) f is ≡ is
unfolding update_if
update_if_absent id f [] h = refl
update_if_absent id f (i ∷ is) h = ground (arith, update_if_absent id f is h.1, h.0)

self : (n : ℕ) → (n == n) ≡ true
self n = ground arith

-- What a call may do.
pub data InspectionOutcome (env : Environment) (r : InspectionRequest) (u : Archive)
    : Result ImportInspection → Archive → Type 0 where
  -- It raises, and changes nothing.
  refused : {e : SpriteError} → InspectionOutcome env r u (err e) u
  -- It returns the inspection of its key, of the same directory, and changes nothing.
  answered :
      {i : ImportInspection}
      → find_if (λ x. x.idempotency_key == r.idempotency_key) u.db.inspections ≡ some i
      → i.root_id ≡ r.root_id
      → i.relative_path ≡ r.relative_path
      → i.instrument ≡ r.instrument
      → InspectionOutcome env r u (ok i) u
  -- It returns a new inspection with what the scan of the directory has found.
  succeeded :
      {i : ImportInspection} {v : Archive} (root source : FilePath) (result : ScanResult)
      → resolve_source env.fs env.import_roots r.root_id r.relative_path ≡ ok (root, source)
      → scan_with env (env.adapters r.instrument) root source ≡ ok result
      → i ≡ with_result result (new_inspection u.next_id r)
      → v.db ≡ record u.db {
        inspections = i ∷ u.db.inspections;
        outbox = ImportEvent.inspection_completed u.next_id result.manifest_sha256 ∷ u.db.outbox;
      }
      → InspectionOutcome env r u (ok i) v
  -- It returns a new inspection that has failed with the code of the error.
  failed :
      {i : ImportInspection} {v : Archive} (root source : FilePath) (e : SpriteError)
      → resolve_source env.fs env.import_roots r.root_id r.relative_path ≡ ok (root, source)
      → scan_with env (env.adapters r.instrument) root source ≡ err e
      → i ≡ with_error e (new_inspection u.next_id r)
      → v.db ≡ record u.db { inspections = i ∷ u.db.inspections }
      → InspectionOutcome env r u (ok i) v

module _ (env : Environment) (r : InspectionRequest) where
  by_inspection_key_outcome :
      (o : Option ImportInspection) (w : Archive)
      → find_if (λ i. i.idempotency_key == r.idempotency_key) w.db.inspections ≡ o
      → IsFresh w
      → InspectionOutcome env r w (by_inspection_key env r o w).0 (by_inspection_key env r o w).1
  unfolding by_inspection_key is_same ◌>>=◌ continue fail_if fail pure lift gets write fresh_id the
      close_inspection update_inspection add_inspection new_inspection with_result with_error
      update_if find_if
  by_inspection_key_outcome (some i) w found free = elim (Bool-cases (is_same env r i)) [
    | inl same ↦ rw same (
        InspectionOutcome.answered found (ground arith)
          (ground (arith, eq_iff i.relative_path r.relative_path)) (ground arith))
    | inr other ↦ rw other InspectionOutcome.refused
  ]
  by_inspection_key_outcome none w new free =
      elim (Result-cases (resolve_source env.fs env.import_roots r.root_id r.relative_path)) [
        | inl (e, lost) ↦ rw lost InspectionOutcome.refused
        | inr (found, there) ↦
            elim (Result-cases (scan_with env (env.adapters r.instrument) found.0 found.1)) [
              | inl (e, raised) ↦
                  let same = update_if_absent w.next_id (with_error e) w.db.inspections free in
                  rw (there, raised, same, self w.next_id)
                    (rw (self w.next_id)
                      (InspectionOutcome.failed found.0 found.1 e there raised refl refl))
              | inr (result, done) ↦
                  let same =
                    update_if_absent w.next_id (with_result result) w.db.inspections free in
                  rw (there, done, same, self w.next_id)
                    (rw (self w.next_id)
                      (InspectionOutcome.succeeded found.0 found.1 result there done refl refl))
            ]
      ]

  -- A call that raises has changed nothing. One that returns has returned the inspection of its key
  -- that was there, which is of the same directory and instrument, and changed nothing; or it has added an
  -- inspection, with what the scan of the directory has found, or with the code of the error that the
  -- scan has raised. Nothing else changes but the event of a successful inspection. A new id is one
  -- that no inspection has.
  pub inspect_import_directory_outcome :
      (w : Archive)
      → IsFresh w
      → InspectionOutcome env r w
          (inspect_import_directory env r w).0
          (inspect_import_directory env r w).1
  unfolding inspect_import_directory ◌>>=◌ continue gets
  inspect_import_directory_outcome w free =
      by_inspection_key_outcome
        (find_if (λ i. i.idempotency_key == r.idempotency_key) w.db.inspections) w refl free
