-- ===== src/Acquisition/Commit.antt =====
-- The commit of an L0 file happens once for each exposure.
use most_sprite.Prelude.{
  ℕ, suc, ◌≡◌, refl, sym, ap, subst, ◌∙◌, arith, Bool, true, false, Option, none, some, ltb,
  Bool-cases, inl, inr, ◌==◌, ==_iff, find_if, find_if_passes, find_if-update_if,
}
use mathlib.Core.Option
use most_sprite.Domain.{ExposureStatus}
use most_sprite.Domain.Errors.{Result, ok, err}
use most_sprite.Store.{
  Settings, Db, Exposure, RawFile, Command, get_exposure, update_exposure, emit,
}
use most_sprite.Control.World.{
  L0File, World, pure, fail_retryable, gets, the, write, fresh_id, ◌>>=◌, continue,
}
use most_sprite.Acquisition.{
  day_of, find_file, create_file, write_l0, header_of, restored, restore_command, register,
  commit_new, return_or_commit, commit_l0,
}

-- The exposure with this id is there, and the row of its raw file has this id.
pub record IsRegistered (id raw : ℕ) (w : World) : Type 0 where
  pub exposure : Exposure
  pub file : RawFile
  pub is_exposure : get_exposure id w.db ≡ some exposure
  pub is_file : find_if (λ r. r.exposure_id == exposure.id) w.db.raw_files ≡ some file
  pub is_raw : file.id ≡ raw

module _ (st : Settings) where
  commit_l0_found :
      (fault : Bool) (ended id : ℕ) (e : Exposure) (w : World)
      → get_exposure id w.db ≡ some e
      → commit_l0 st fault ended id w
        ≡ return_or_commit st fault ended e (find_if (λ r. r.exposure_id == e.id) w.db.raw_files) w
  unfolding commit_l0 ◌>>=◌ continue gets the
  commit_l0_found fault ended id e w found = rw found refl

  commit_l0_missing :
      (fault : Bool) (ended id raw : ℕ) (w v : World)
      → get_exposure id w.db ≡ none
      → commit_l0 st fault ended id w ≡ (ok raw, v)
      → ⊥
  unfolding commit_l0 ◌>>=◌ continue gets the
  commit_l0_missing fault ended id raw w v missing h = cc (rw missing at h)

  -- What is registered is answered at once.
  registered_again :
      (fault : Bool) (ended id raw : ℕ) (w : World)
      → IsRegistered id raw w
      → commit_l0 st fault ended id w ≡ (ok raw, w)
  unfolding return_or_commit pure
  registered_again fault ended id raw w g =
      rw (commit_l0_found fault ended id (g.exposure) w g.is_exposure, g.is_file, g.is_raw) refl

  -- The write of the file does not touch the database.
  write_l0_db :
      (fault : Bool) (f : L0File) (found : Option L0File) (w : World)
      → (write_l0 st fault f found w).1.db ≡ w.db
  unfolding write_l0 create_file fail_retryable pure
  write_l0_db true f found w = refl
  write_l0_db false f (some g) w = refl
  write_l0_db false f none w = elim (Bool-cases (ltb w.free_bytes st.minimum_free_bytes)) [
    | inl low ↦ rw low refl
    | inr room ↦ rw room refl
  ]

  -- The exposure is still there after a lost command has been restored.
  restored_exposure :
      (command : Option ℕ) (e : Exposure) (ended : ℕ) (d : Db)
      → get_exposure e.id d ≡ some e
      → (x : Exposure) × (get_exposure e.id (restore_command command e.sequence_id e.id ended d)
          ≡ some x)
        × (x.id ≡ e.id)
  unfolding restore_command restored get_exposure update_exposure
  restored_exposure none e ended d found = (e, found, refl)
  restored_exposure (some c) e ended d found = by_row (find_if (λ c'. c'.id == c) d.commands)
    where
      by_row :
          (o : Option Command)
          → (x : Exposure) × (get_exposure e.id (restored c e.sequence_id e.id ended o d) ≡ some x)
            × (x.id ≡ e.id)
      by_row (some _) = (e, found, refl)
      by_row none = (
        record e { command_id = some c },
        find_if-update_if (λ (x : Exposure). x.id == e.id) _ (λ x. refl) d.exposures
            ∙ ap (Option.map _) found,
        refl,
      )

  IsRegistered-now :
      (f : L0File) (e : Exposure) (ended : ℕ) (w : World) (x : Exposure)
      → get_exposure e.id w.db ≡ some x
      → x.id ≡ e.id
      → IsRegistered e.id f.raw_file_id (record w { db = register f e ended w.db })
  unfolding register get_exposure update_exposure emit find_if
  IsRegistered-now f e ended w x found same = record {
    exposure = record x {
      raw_file_id = some f.raw_file_id;
      status = ExposureStatus.committed;
      committed_at = some ended;
    };
    file = record { id = f.raw_file_id; exposure_id = e.id };
    is_exposure =
        find_if-update_if (λ (y : Exposure). y.id == e.id) _ (λ y. refl) w.db.exposures
        ∙ ap (Option.map _) found;
    is_file = rw same (ground arith);
    is_raw = refl;
  }

  -- The rest of a commit, behind the write of the file.
  tail_registers :
      (f : L0File) (e : Exposure) (ended raw : ℕ) (d : Db) (r : Result (Unit {0}) × World)
      (v : World)
      → r.1.db ≡ d
      → get_exposure e.id d ≡ some e
      → continue r (λ _ w. (
        ok f.raw_file_id,
        record w {
          db = register f e ended (restore_command f.command_id e.sequence_id e.id ended w.db);
        },
      ))
        ≡ (ok raw, v)
      → IsRegistered e.id raw v
  unfolding continue
  tail_registers f e ended raw d (err x, u) v same found h = cc
  tail_registers f e ended raw d (ok t, u) v same found h =
      let kept : Db = restore_command f.command_id e.sequence_id e.id ended u.db in
      let (x, there, own) = restored_exposure f.command_id e ended u.db (rw same found) in
      let p : (f.raw_file_id, record u { db = register f e ended kept }) ≡ (raw, v) = cc in
      subst (λ (y : ℕ × World). IsRegistered e.id y.0 y.1) p
        (IsRegistered-now f e ended (record u { db = kept }) x there own)

  -- The world of a commit of a new file.
  commit_new_registers :
      (fault : Bool) (ended raw : ℕ) (e : Exposure) (w v : World)
      → get_exposure e.id w.db ≡ some e
      → commit_new st fault ended e w ≡ (ok raw, v)
      → IsRegistered e.id raw v
  unfolding commit_new gets fresh_id write pure ◌>>=◌ continue
  commit_new_registers fault ended raw e w v found h =
      let w1 : World = record w { next_id = suc w.next_id } in
      let there = find_file (day_of w.now) e.id w1 in
      let f = header_of (day_of w.now) e.id w.next_id e.command_id there in
      tail_registers f e ended raw w.db (write_l0 st fault f there w1) v
        (write_l0_db fault f there w1) found h

  return_registers :
      (fault : Bool) (ended raw : ℕ) (e : Exposure) (w v : World) (o : Option RawFile)
      → get_exposure e.id w.db ≡ some e
      → find_if (λ r. r.exposure_id == e.id) w.db.raw_files ≡ o
      → return_or_commit st fault ended e o w ≡ (ok raw, v)
      → IsRegistered e.id raw v
  unfolding return_or_commit pure
  return_registers fault ended raw e w v none found missing h =
      commit_new_registers fault ended raw e w v found h
  return_registers fault ended raw e w v (some r) found there h =
      let p : (r.id, w) ≡ (raw, v) = cc in
      subst (λ (y : ℕ × World). IsRegistered e.id y.0 y.1) p
        (record { exposure = e; file = r; is_exposure = found; is_file = there; is_raw = refl })

  commit_registers :
      (fault : Bool) (ended id raw : ℕ) (w v : World) (o : Option Exposure)
      → get_exposure id w.db ≡ o
      → commit_l0 st fault ended id w ≡ (ok raw, v)
      → IsRegistered id raw v
  unfolding get_exposure
  commit_registers fault ended id raw w v none missing h =
      absurd (commit_l0_missing fault ended id raw w v missing h)
  commit_registers fault ended id raw w v (some e) found h =
      let same = (==_iff e.id id).0 (find_if_passes _ w.db.exposures found) in
      subst (λ k. IsRegistered k raw v) same
        (return_registers fault ended raw e w v _
          (subst (λ k. get_exposure k w.db ≡ some e) (sym same) found) refl
          (sym (commit_l0_found fault ended id e w found) ∙ h))

  -- The rows of the exposure and of its raw file are all that a registration is about.
  IsRegistered-rows :
      (id raw : ℕ) (v u : World)
      → u.db.exposures ≡ v.db.exposures
      → u.db.raw_files ≡ v.db.raw_files
      → IsRegistered id raw v
      → IsRegistered id raw u
  unfolding get_exposure
  IsRegistered-rows id raw v u exposures files g = record {
    exposure = g.exposure;
    file = g.file;
    is_exposure = rw exposures g.is_exposure;
    is_file = rw files g.is_file;
    is_raw = g.is_raw;
  }

  -- A commit that has returned is not done again: a second commit of the exposure returns the same
  -- raw file and changes nothing, in any world in which the rows of the exposures and of the raw
  -- files are those that the first one left, whatever the clock, the files, the free space, the
  -- device and the other tables are. The exposure and the row of its raw file are there.
  pub commit_l0_once :
      (fault later_fault : Bool) (ended later_end id raw : ℕ) (w v u : World)
      → commit_l0 st fault ended id w ≡ (ok raw, v)
      → u.db.exposures ≡ v.db.exposures
      → u.db.raw_files ≡ v.db.raw_files
      → IsRegistered id raw v × (commit_l0 st later_fault later_end id u ≡ (ok raw, u))
  commit_l0_once fault later_fault ended later_end id raw w v u h exposures files =
      let g = commit_registers fault ended id raw w v _ refl h in
      (
        g,
        registered_again later_fault later_end id raw u
            (IsRegistered-rows id raw v u exposures files g),
      )
