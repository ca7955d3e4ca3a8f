-- ===== src/Imports/Commit/Body.antt =====
-- The body of the `try` block of `commit_import`: what it leaves alone, whether or not it raises.
use most_sprite.Prelude.{ℕ, Option, none, some, [], ◌≡◌, refl, ◌∙◌}
use most_sprite.Imports.Names.{FilePath}
use most_sprite.Imports.State.{ImportInspection, ImportedArtifact, ImportDb, Archive, Environment}
use most_sprite.Imports.State.Respects.{IsHistory, Respects, Respects-bind, Respects-fail_if}
use most_sprite.Imports.Copy.Kept.{
  AreKept, AreKept-add, HasFileWrite, copy_all-Respects, managed_records-Respects,
}
use most_sprite.Imports.Register.{
  use_config, add_sequence, add_group, add_exposure, assign_artifact, add_raw, add_product,
  add_artifact,
}
use most_sprite.Imports.Register.Keeps.{
  HasGroupWrites, register_artifacts-Respects, espadons_config-Respects, import_groups-Respects,
}
use most_sprite.Imports.Commit.{CommitRequest, import_all}

-- The body of the `try` block leaves the files that are there, the batches, the inspections and the
-- events.
pub record IsBody (u v : Archive) : Type 0 where
  pub files : AreKept u v
  pub batches : v.db.batches ≡ u.db.batches
  pub inspections : v.db.inspections ≡ u.db.inspections
  pub outbox : v.db.outbox ≡ u.db.outbox

same_all : (w : Archive) → AreKept w w
same_all w = record { kept = λ path bytes found. found }

IsBody-history : IsHistory IsBody
IsBody-history = record {
  stays = λ w. record { files = same_all w; batches = refl; inspections = refl; outbox = refl };
  follows = λ u v w a b. record {
    files = record {
      kept = λ path bytes found. b.files.kept path bytes (a.files.kept path bytes found);
    };
    batches = b.batches ∙ a.batches;
    inspections = b.inspections ∙ a.inspections;
    outbox = b.outbox ∙ a.outbox;
  };
  fresh = λ w. record {
    files = record { kept = λ path bytes found. found };
    batches = refl;
    inspections = refl;
    outbox = refl;
  };
}

IsBody-write :
    (w : Archive) (db : ImportDb)
    → db.batches ≡ w.db.batches
    → db.inspections ≡ w.db.inspections
    → db.outbox ≡ w.db.outbox
    → IsBody w (record w { db = db })
IsBody-write w db b i o = record {
  files = record { kept = λ path bytes found. found };
  batches = b;
  inspections = i;
  outbox = o;
}

IsBody-use_config :
    (id : ℕ) (found : Option ℕ) (w : Archive)
    → IsBody w (record w { db = use_config id found w.db })
unfolding use_config
IsBody-use_config id none w = IsBody-write w _ refl refl refl
IsBody-use_config id (some c) w = IsBody-write w _ refl refl refl

IsBody-writes : HasGroupWrites IsBody
unfolding add_sequence add_group add_exposure assign_artifact add_raw add_product
IsBody-writes = record {
  config = IsBody-use_config;
  sequence = λ id created_by config manifest group w. IsBody-write w _ refl refl refl;
  group = λ id sequence_id g w. IsBody-write w _ refl refl refl;
  exposure = λ id sequence_id group_id sub_index w. IsBody-write w _ refl refl refl;
  artifact = λ artifact_id sequence_id exposure_id w. IsBody-write w _ refl refl refl;
  raw = λ r w. IsBody-write w _ refl refl refl;
  product = λ p w. IsBody-write w _ refl refl refl;
}

IsBody-add_artifact :
    (a : ImportedArtifact) (w : Archive) → IsBody w (record w { db = add_artifact a w.db })
unfolding add_artifact
IsBody-add_artifact a w = IsBody-write w _ refl refl refl

IsBody-add_file : HasFileWrite IsBody
IsBody-add_file path bytes w new = record {
  files = AreKept-add path bytes w new;
  batches = refl;
  inspections = refl;
  outbox = refl;
}

module _ (env : Environment) (root : FilePath) (id : ℕ) (r : CommitRequest)
    (inspection : ImportInspection) where
  pub import_all-IsBody : Respects IsBody (import_all env root id r inspection)
  unfolding import_all
  import_all-IsBody =
      let h = IsBody-history in
      Respects-bind h _ _ (copy_all-Respects h IsBody-add_file env root id inspection.inventory [])
        λ copied.
          Respects-bind h _ _ (managed_records-Respects h env copied inspection.inventory)
            λ records. Respects-bind h _ _ (Respects-fail_if h _ _) λ _.
              Respects-bind h _ _
                (register_artifacts-Respects h IsBody-add_artifact id copied records)
                λ artifact_ids.
                  Respects-bind h _ _ (espadons_config-Respects h IsBody-writes) λ config.
                    import_groups-Respects h IsBody-writes env id r.manifest_sha256 r.created_by
                      config artifact_ids records inspection.groups
