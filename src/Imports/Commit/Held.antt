-- ===== src/Imports/Commit/Held.antt =====
-- Artifacts that have their files, and the actions of `commit_import` that add their rows.
use Prim.Native.String.{String}
use text.Mathlib.Text.{◌==◌ as str_eq}
use most_sprite.Prelude.{
  ℕ, suc, ◌&&◌, ◌==◌, Option, none, some, List, [], ◌∷◌, ◌≡◌, refl, sym, ap, subst, ◌∙◌, arith, All,
  All-map, All-update_if, Option-cases, Bool-cases, inl, inr, find_if, length,
}
use most_sprite.Domain.Errors.{ok, ok_injective}
use most_sprite.Imports.Scan.{InventoryRecord}
use most_sprite.Imports.State.{
  ManagedPath, ImportedArtifact, Archive, Environment, same_path, pure, fail, fail_if, gets, the,
  write, fresh_id, continue, ◌>>=◌,
}
use most_sprite.Imports.State.Respects.{IsHistory, after_bind, bind-ok, bind_run}
use most_sprite.Imports.Copy.{find_file, lookup, managed_record, managed_records}
use most_sprite.Imports.Copy.Kept.{AreKept-add, HasFileWrite}
use most_sprite.Imports.Register.{
  unique, some_row, add_artifact, register_artifacts, use_config, add_sequence, add_group,
  add_exposure, assign_artifact, add_raw, add_product,
}
use most_sprite.Imports.Register.Keeps.{HasGroupWrites}

module _ (env : Environment) where
  abbrev pub IsHeld : List (ManagedPath × List ℕ) → ImportedArtifact → Type 0
  IsHeld files a =
      (bytes : List ℕ) × (find_file a.managed_uri files ≡ some bytes)
      × (length bytes ≡ a.size)
      × (env.sha256 bytes ≡ a.sha256)

  abbrev pub AreHeld : Archive → Type 0
  AreHeld w = All (IsHeld w.files) w.db.artifacts

  abbrev pub Keeps : Archive → Archive → Type 0
  Keeps u v = AreHeld u → AreHeld v

  pub Keeps-history : IsHistory Keeps
  Keeps-history = record { stays = λ w h. h; follows = λ u v w a b h. b (a h); fresh = λ w h. h }

  pub Keeps-add_file : HasFileWrite Keeps
  Keeps-add_file path bytes w new h =
      let kept = AreKept-add path bytes w new in
      All-map (IsHeld w.files) _
        (λ a held. (held.0, kept.kept a.managed_uri held.0 held.1, held.2, held.3)) w.db.artifacts h

  Keeps-use_config :
      (id : ℕ) (found : Option ℕ) (w : Archive)
      → Keeps w (record w { db = use_config id found w.db })
  unfolding use_config
  Keeps-use_config id none w h = h
  Keeps-use_config id (some c) w h = h

  pub Keeps-writes : HasGroupWrites Keeps
  unfolding add_sequence add_group add_exposure assign_artifact add_raw add_product
  Keeps-writes = record {
    config = Keeps-use_config;
    sequence = λ id created_by config manifest group w h. h;
    group = λ id sequence_id g w h. h;
    exposure = λ id sequence_id group_id sub_index w h. h;
    artifact = λ artifact_id sequence_id exposure_id w h.
        All-update_if (IsHeld w.files) _ _ (λ a held _. held) w.db.artifacts h;
    raw = λ r w h. h;
    product = λ p w h. h;
  }

  -- A record whose copy has the size and the digest that it says.
  abbrev pub IsDescribed :
      List (String × ManagedPath) → List (ManagedPath × List ℕ) → InventoryRecord → Type 0
  IsDescribed copied files item =
      (path : ManagedPath) × (bytes : List ℕ) × (lookup item.relative_path copied ≡ some path)
      × (find_file path files ≡ some bytes)
      × (length bytes ≡ item.size)
      × (env.sha256 bytes ≡ item.sha256)

  managed_record-IsDescribed :
      (copied : List (String × ManagedPath)) (item managed : InventoryRecord) (w : Archive)
      → (managed_record env copied item w).0 ≡ ok managed
      → ((managed_record env copied item w).1 ≡ w) × IsDescribed copied w.files managed
  unfolding managed_record ◌>>=◌ continue the gets pure
  managed_record-IsDescribed copied item managed w h =
      elim (Option-cases (lookup item.relative_path copied)) [
        | inl missing ↦ absurd (ground arith)
        | inr (path, found) ↦ elim (Option-cases (find_file path w.files)) [
          | inl gone ↦ let bad = rw (found, gone) at h in absurd (cc)
          | inr (bytes, there) ↦
              let made = ok_injective (rw (found, there) at h) in
              (
                rw (found, there),
                subst (IsDescribed copied w.files) made (path, bytes, found, there, refl, refl),
              )
        ]
      ]

  pub managed_records-IsDescribed :
      (copied : List (String × ManagedPath)) (items managed : List InventoryRecord) (w : Archive)
      → (managed_records env copied items w).0 ≡ ok managed
      → ((managed_records env copied items w).1 ≡ w) × All (IsDescribed copied w.files) managed
  unfolding managed_records pure
  managed_records-IsDescribed copied [] managed w h =
      (refl, subst (All (IsDescribed copied w.files)) (ok_injective h) tt)
  managed_records-IsDescribed copied (item ∷ items) managed w h =
      let tail =
        λ (m : InventoryRecord). managed_records env copied items >>= λ rest. pure (m ∷ rest) in
      let (first, first_ok, _) = bind-ok (managed_record env copied item) tail w h in
      let (first_same, described) = managed_record-IsDescribed copied item first w first_ok in
      let run = bind_run (managed_record env copied item) tail w first_ok first_same in
      let last = λ (rest : List InventoryRecord). pure (first ∷ rest) in
      let rest_returns = ap (λ x. x.0) (sym run) ∙ h in
      let (rest, rest_ok, made) = bind-ok (managed_records env copied items) last w rest_returns in
      let (rest_same, rest_described) = managed_records-IsDescribed copied items rest w rest_ok in
      let run_rest = bind_run (managed_records env copied items) last w rest_ok rest_same in
      (
        ap (λ x. x.1) (run ∙ run_rest),
        subst (All (IsDescribed copied w.files)) (ok_injective made) (described, rest_described),
      )

  -- The loop that adds the rows of described records.
  pub register_artifacts-AreHeld :
      (batch_id : ℕ) (copied : List (String × ManagedPath)) (items : List InventoryRecord)
      (w : Archive)
      → All (IsDescribed copied w.files) items
      → AreHeld w
      → AreHeld (register_artifacts batch_id copied items w).1
  unfolding register_artifacts pure ◌>>=◌ continue the fresh_id unique gets fail_if fail write
  register_artifacts-AreHeld batch_id copied [] w d h = h
  register_artifacts-AreHeld batch_id copied (item ∷ items) w d h =
      let (path, bytes, found, there, size, sha) = d.0 in
      elim (Bool-cases (some_row (find_if (λ a. same_path a.managed_uri path) w.db.artifacts))) [
        | inl taken ↦ rw (found, taken) h
        | inr new ↦
            elim (Bool-cases (
              some_row (
                find_if
                  (λ a.
                    (a.import_batch_id == batch_id) && str_eq a.relative_path item.relative_path)
                  w.db.artifacts))) [
                    | inl taken ↦ rw (found, new, taken) h
                    | inr free ↦
                        let row : ImportedArtifact = record {
                          id = w.next_id;
                          import_batch_id = batch_id;
                          relative_path = item.relative_path;
                          managed_uri = path;
                          size = item.size;
                          sha256 = item.sha256;
                          artifact_role = item.role;
                          detector = item.detector;
                          sequence_id = none;
                          exposure_id = none;
                        } in
                        let next : Archive = record w {
                          next_id = suc w.next_id;
                          db = add_artifact row w.db;
                        } in
                        let rest =
                          register_artifacts-AreHeld batch_id copied items next d.1
                            (unfold add_artifact in ((bytes, there, size, sha), h)) in
                        rw (found, new, free)
                          (after_bind AreHeld (register_artifacts batch_id copied items) _ next rest
                            (λ _ _. rest))
                  ]
      ]
