-- ===== src/Imports/Commit/Verified.antt =====
-- Every artifact that is registered has its file, with the size and the digest of the row.
use Prim.Native.String.{String}
use text.Mathlib.Text.{◌==◌ as str_eq}
use most_sprite.Prelude.{
  ℕ, Bool, true, false, not, Option, none, some, List, [], ◌≡◌, refl, sym, subst, ◌∙◌, All, All-map,
}
use most_sprite.Domain.Errors.{Code, Result, ok, err}
use most_sprite.Imports.Scan.{InventoryRecord, manifest_digest}
use most_sprite.Imports.State.{
  ImportInspection, ImportBatch, ImportDb, ManagedPath, Archive, Environment, Import, pure, fail,
  fail_if, ◌>>=◌,
}
use most_sprite.Imports.State.Respects.{
  Respects, Respects-bind, Respects-fail_if, Respects-fail, Respects-pure, Respects-gets,
  Respects-lift, Respects-the, Respects-write, Respects-fresh_id, after_bind,
}
use most_sprite.Imports.Names.{FilePath}
use most_sprite.Imports.Commit.{
  CommitRequest, import_all, update_batch, finish, in_savepoint, add_batch, start, by_inspection,
  by_manifest, by_key, commit_import,
}
use most_sprite.Imports.Commit.Body.{import_all-IsBody}
use most_sprite.Imports.Copy.{copy_all, managed_records}
use most_sprite.Imports.Copy.Kept.{copy_all-Respects, managed_records-Respects}
use most_sprite.Imports.Register.{register_artifacts, espadons_config, import_groups}
use most_sprite.Imports.Register.Keeps.{espadons_config-Respects, import_groups-Respects}
use most_sprite.Imports.Commit.Held.{
  IsHeld, AreHeld, Keeps, Keeps-history, Keeps-add_file, Keeps-writes, IsDescribed,
  managed_records-IsDescribed, register_artifacts-AreHeld,
}

module _ (env : Environment) where
  fail_if-same : (test : Bool) (c : Code) (w : Archive) → (fail_if test c w).1 ≡ w
  unfolding fail_if fail pure
  fail_if-same true c w = refl
  fail_if-same false c w = refl

  module _ (root : FilePath) (id : ℕ) (r : CommitRequest) (inspection : ImportInspection) where
    -- The rows of described records, and those of the groups.
    add_rows : List (String × ManagedPath) → List InventoryRecord → Import (List ℕ)
    add_rows copied records = do
      artifact_ids ← register_artifacts id copied records
      config ← espadons_config
      import_groups env id r.manifest_sha256 r.created_by config artifact_ids records
          inspection.groups

    add_rows-AreHeld :
        (copied : List (String × ManagedPath)) (records : List InventoryRecord) (w : Archive)
        → All (IsDescribed env copied w.files) records
        → AreHeld env w
        → AreHeld env (add_rows copied records w).1
    unfolding add_rows
    add_rows-AreHeld copied records w described h =
        let registered = register_artifacts-AreHeld env id copied records w described h in
        after_bind (AreHeld env) (register_artifacts id copied records) _ w registered
          λ artifact_ids _.
            Respects-bind (Keeps-history env) _ _
              (espadons_config-Respects (Keeps-history env) (Keeps-writes env))
              (λ config.
                import_groups-Respects (Keeps-history env) (Keeps-writes env) env id
                  r.manifest_sha256 r.created_by config artifact_ids records inspection.groups)
              (register_artifacts id copied records w).1 registered

    import_all-AreHeld : Respects (Keeps env) (import_all env root id r inspection)
    unfolding import_all add_rows
    import_all-AreHeld w h =
        let items = inspection.inventory in
        let v = (copy_all env root id items [] w).1 in
        let copied_held =
          copy_all-Respects (Keeps-history env) (Keeps-add_file env) env root id items [] w h in
        after_bind (AreHeld env) (copy_all env root id items []) _ w copied_held λ copied _.
          after_bind (AreHeld env) (managed_records env copied items) _ v
            (managed_records-Respects (Keeps-history env) env copied items v copied_held)
            λ records told.
              let (same, described) = managed_records-IsDescribed env copied items records v told in
              let test = not (str_eq (manifest_digest env.digest records) r.manifest_sha256) in
              let checked = fail_if test Code.source_changed in
              let u = (managed_records env copied items v).1 in
              let left : (checked u).1 ≡ v = fail_if-same test Code.source_changed u ∙ same in
              after_bind (AreHeld env) checked (λ _. add_rows copied records) u
                (subst (AreHeld env) (sym left) copied_held)
                λ _ _.
                  subst (λ x. AreHeld env (add_rows copied records x).1) (sym left)
                    (add_rows-AreHeld copied records v described copied_held)

  finish-AreHeld :
      (saved : ImportDb) (id : ℕ) (result : Result (List ℕ)) (v : Archive)
      → AreHeld env v
      → All (IsHeld env v.files) saved.artifacts
      → AreHeld env (finish saved id (result, v))
  unfolding finish update_batch
  finish-AreHeld saved id (ok ids) v h k = h
  finish-AreHeld saved id (err e) v h k = k

  in_savepoint-AreHeld :
      (root : FilePath) (id : ℕ) (r : CommitRequest) (inspection : ImportInspection)
      → Respects (Keeps env) (in_savepoint id (import_all env root id r inspection))
  unfolding in_savepoint
  in_savepoint-AreHeld root id r inspection w h =
      let after = import_all env root id r inspection w in
      let body = import_all-IsBody env root id r inspection w in
      finish-AreHeld w.db id after.0 after.1 (import_all-AreHeld root id r inspection w h) (
        All-map (IsHeld env w.files) (IsHeld env after.1.files)
          (λ a held. (held.0, body.files.kept a.managed_uri held.0 held.1, held.2, held.3))
          w.db.artifacts h)

  module _ (r : CommitRequest) where
    start-AreHeld : (inspection : ImportInspection) → Respects (Keeps env) (start env r inspection)
    unfolding start add_batch
    start-AreHeld inspection =
        let k = (Keeps-history env) in
        Respects-bind k _ _ (Respects-fail_if k _ _) λ _.
          Respects-bind k _ _ (Respects-fail_if k _ _) λ _.
            Respects-bind k _ _ (Respects-lift k _) λ found.
              Respects-bind k _ _ (Respects-fresh_id k) λ id.
                Respects-bind k _ _ (Respects-gets k _) λ other.
                  Respects-bind k _ _ (Respects-fail_if k _ _) λ _.
                    Respects-bind k _ _ (Respects-write k _ (λ w h. h)) λ _.
                      Respects-bind k _ _ (in_savepoint-AreHeld found.0 id r inspection)
                        λ _. Respects-bind k _ _ (Respects-gets k _) λ batch. Respects-the k batch

    by_inspection-AreHeld :
        (o : Option ImportInspection) → Respects (Keeps env) (by_inspection env r o)
    unfolding by_inspection
    by_inspection-AreHeld none = Respects-fail (Keeps-history env) ImportBatch _
    by_inspection-AreHeld (some inspection) = start-AreHeld inspection

    by_manifest-AreHeld : (o : Option ImportBatch) → Respects (Keeps env) (by_manifest env r o)
    unfolding by_manifest
    by_manifest-AreHeld (some batch) = Respects-pure (Keeps-history env) batch
    by_manifest-AreHeld none =
        Respects-bind (Keeps-history env) _ _ (Respects-gets (Keeps-history env) _)
          by_inspection-AreHeld

    by_key-AreHeld : (o : Option ImportBatch) → Respects (Keeps env) (by_key env r o)
    unfolding by_key
    by_key-AreHeld (some batch) =
        Respects-bind (Keeps-history env) _ _ (Respects-fail_if (Keeps-history env) _ _)
          (λ _. Respects-pure (Keeps-history env) batch)
    by_key-AreHeld none =
        Respects-bind (Keeps-history env) _ _ (Respects-gets (Keeps-history env) _)
          by_manifest-AreHeld

    -- If every artifact that is registered has its file, with bytes of the size and the digest of its
    -- row, that is so after any commit, whether it raises, fails or succeeds.
    pub commit_import-AreHeld :
        (w : Archive) → AreHeld env w → AreHeld env (commit_import env r w).1
    unfolding commit_import
    commit_import-AreHeld w h =
        Respects-bind (Keeps-history env) _ _ (Respects-gets (Keeps-history env) _) by_key-AreHeld w
          h
