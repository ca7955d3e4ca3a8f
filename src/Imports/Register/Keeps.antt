-- ===== src/Imports/Register/Keeps.antt =====
-- The actions that add rows stay within every relation that their writes stay within.
use Prim.Native.String.{String}
use most_sprite.Prelude.{ℕ, ◌+◌, Bool, Option, List, [], ◌∷◌}
use most_sprite.Instruments.{ScienceGroup}
use most_sprite.Imports.Scan.{InventoryRecord}
use most_sprite.Imports.State.{
  ImportDb, ImportedRawFile, ImportedProduct, ImportedArtifact, ManagedPath, Archive, Environment,
}
use most_sprite.Imports.State.Respects.{
  IsHistory, Respects, Respects-pure, Respects-gets, Respects-lift, Respects-the, Respects-fail_if,
  Respects-fresh_id, Respects-write, Respects-bind,
}
use most_sprite.Imports.Register.{
  add_artifact, register_artifacts, unique, add_exposure, assign_artifact, add_raw, add_product,
  add_sequence, add_group, use_config, espadons_config, import_exposure, import_exposures,
  import_group, import_groups,
}

abbrev After : (Archive → Archive → Type 0) → (ImportDb → ImportDb) → Type 0
After R f = (w : Archive) → R w (record w { db = f w.db })

-- The writes of the loop over the groups.
pub record HasGroupWrites (R : Archive → Archive → Type 0) : Type 0 where
  pub config : (id : ℕ) (found : Option ℕ) → After R (use_config id found)
  pub sequence :
      (id created_by config : ℕ) (manifest : String) (group : ScienceGroup)
      → After R (add_sequence id manifest created_by config group)
  pub group : (id sequence_id : ℕ) (g : ScienceGroup) → After R (add_group id sequence_id g)
  pub exposure :
      (id sequence_id group_id sub_index : ℕ)
      → After R (add_exposure id sequence_id group_id sub_index)
  pub artifact :
      (artifact_id sequence_id exposure_id : ℕ)
      → After R (assign_artifact artifact_id sequence_id exposure_id)
  pub raw : (r : ImportedRawFile) → After R (add_raw r)
  pub product : (p : ImportedProduct) → After R (add_product p)

module _ {R : Archive → Archive → Type 0} (h : IsHistory R) where
  pub Respects-unique :
      {A : Type 0} (test : A → Bool) (rows : ImportDb → List A) → Respects R (unique test rows)
  unfolding unique
  Respects-unique test rows =
      Respects-bind h _ _ (Respects-gets h _) (λ found. Respects-fail_if h _ _)

  module _ (g : HasGroupWrites R) (env : Environment) (batch_id : ℕ) where
    import_exposure-Respects :
        (artifact_ids : List (String × ℕ)) (records : List InventoryRecord)
        (sequence_id group_id sub_index : ℕ) (path : String)
        → Respects R
            (import_exposure env batch_id artifact_ids records sequence_id group_id sub_index path)
    unfolding import_exposure
    import_exposure-Respects artifact_ids records sequence_id group_id sub_index path =
        Respects-bind h _ _ (Respects-the h _) λ item.
          Respects-bind h _ _ (Respects-fresh_id h) λ exposure_id.
            Respects-bind h _ _
              (Respects-write h _ (g.exposure exposure_id sequence_id group_id sub_index))
              λ _. Respects-bind h _ _ (Respects-the h _) λ model.
                Respects-bind h _ _
                  (Respects-write h _ (g.artifact model.1 sequence_id exposure_id))
                  λ _. Respects-bind h _ _ (Respects-gets h _) λ found.
                    Respects-bind h _ _ (Respects-the h _) λ artifact.
                      Respects-bind h _ _ (Respects-fresh_id h) λ raw_id.
                        Respects-bind h _ _ (Respects-unique _ _) λ _.
                          Respects-bind h _ _ (Respects-unique _ _) λ _.
                            Respects-bind h _ _ (Respects-write h _ (g.raw _)) λ _.
                              Respects-bind h _ _ (Respects-gets h _) λ bytes.
                                Respects-bind h _ _ (Respects-the h _) λ raw_bytes.
                                  Respects-bind h _ _ (Respects-lift h _) λ image.
                                    Respects-bind h _ _ (Respects-the h _) λ mode.
                                      Respects-bind h _ _ (Respects-lift h _) λ _.
                                        Respects-bind h _ _ (Respects-fresh_id h)
                                          λ product_id. Respects-write h _ (g.product _)

    import_exposures-Respects :
        (artifact_ids : List (String × ℕ)) (records : List InventoryRecord)
        (sequence_id group_id sub_index : ℕ) (paths : List String)
        → Respects R (
            import_exposures env batch_id artifact_ids records sequence_id group_id sub_index paths)
    unfolding import_exposures
    import_exposures-Respects artifact_ids records sequence_id group_id sub_index [] =
        Respects-pure h tt
    import_exposures-Respects artifact_ids records sequence_id group_id sub_index (path ∷ paths) =
        Respects-bind h _ _
          (import_exposure-Respects artifact_ids records sequence_id group_id sub_index path)
          λ _.
            import_exposures-Respects artifact_ids records sequence_id group_id (sub_index + 1)
              paths

    import_group-Respects :
        (manifest : String) (created_by config : ℕ) (artifact_ids : List (String × ℕ))
        (records : List InventoryRecord) (group : ScienceGroup)
        → Respects R
            (import_group env batch_id manifest created_by config artifact_ids records group)
    unfolding import_group
    import_group-Respects manifest created_by config artifact_ids records group =
        Respects-bind h _ _ (Respects-fresh_id h) λ sequence_id.
          Respects-bind h _ _ (Respects-unique _ _) λ _.
            Respects-bind h _ _
              (Respects-write h _ (g.sequence sequence_id created_by config manifest group))
              λ _. Respects-bind h _ _ (Respects-fresh_id h) λ group_id.
                Respects-bind h _ _ (Respects-write h _ (g.group group_id sequence_id group)) λ _.
                  Respects-bind h _ _
                    (import_exposures-Respects artifact_ids records sequence_id group_id 1
                      group.artifacts)
                    λ _. Respects-pure h sequence_id

    pub import_groups-Respects :
        (manifest : String) (created_by config : ℕ) (artifact_ids : List (String × ℕ))
        (records : List InventoryRecord) (groups : List ScienceGroup)
        → Respects R
            (import_groups env batch_id manifest created_by config artifact_ids records groups)
    unfolding import_groups
    import_groups-Respects manifest created_by config artifact_ids records [] = Respects-pure h []
    import_groups-Respects manifest created_by config artifact_ids records (group ∷ groups) =
        Respects-bind h _ _
          (import_group-Respects manifest created_by config artifact_ids records group)
          λ id.
            Respects-bind h _ _
              (import_groups-Respects manifest created_by config artifact_ids records groups)
              λ ids. Respects-pure h (id ∷ ids)

  pub espadons_config-Respects : HasGroupWrites R → Respects R espadons_config
  unfolding espadons_config
  espadons_config-Respects g = Respects-bind h _ _ (Respects-fresh_id h) λ id.
      Respects-bind h _ _ (Respects-gets h _) λ found.
        Respects-bind h _ _ (Respects-write h _ (g.config id found))
          λ _. Respects-bind h _ _ (Respects-gets h _) λ config. Respects-the h config

  pub register_artifacts-Respects :
      ((a : ImportedArtifact) → After R (add_artifact a))
      → (batch_id : ℕ) (copied : List (String × ManagedPath)) (items : List InventoryRecord)
      → Respects R (register_artifacts batch_id copied items)
  unfolding register_artifacts
  register_artifacts-Respects added batch_id copied [] = Respects-pure h []
  register_artifacts-Respects added batch_id copied (item ∷ items) =
      Respects-bind h _ _ (Respects-the h _) λ path. Respects-bind h _ _ (Respects-fresh_id h) λ id.
        Respects-bind h _ _ (Respects-unique _ _) λ _.
          Respects-bind h _ _ (Respects-unique _ _) λ _.
            Respects-bind h _ _ (Respects-write h _ (added _)) λ _.
              Respects-bind h _ _ (register_artifacts-Respects added batch_id copied items)
                λ rest. Respects-pure h _
