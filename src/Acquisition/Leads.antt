-- ===== src/Acquisition/Leads.antt =====
-- The commit of an L0 file leads along every relation that has the runner's writes.
use most_sprite.Prelude.{ℕ, Bool, true, false, Option, none, some, ltb, Bool-cases, inl, inr}
use most_sprite.Store.{Settings, Db, Exposure, RawFile, Command, update_exposure}
use most_sprite.Control.World.{L0File, fail_retryable, pure}
use most_sprite.Control.World.Relates.{Leads, leads_rules, Leads-write}
use most_sprite.Control.Runner.History.{IsRunnerHistory, of_raw_file}
use most_sprite.Acquisition.{
  create_file, write_l0, restored, restore_command, register, commit_new, return_or_commit,
  commit_l0,
}

module _ {Q : Db → Db → Type 0} (k : IsRunnerHistory Q) where
  create_file-Leads : (st : Settings) (f : L0File) → Leads Q (create_file st f)
  unfolding create_file fail_retryable pure
  create_file-Leads st f = record {
    at = λ w. elim (Bool-cases (ltb w.free_bytes st.minimum_free_bytes)) [
      | inl low ↦ rw low (k.history.start w.db)
      | inr room ↦ rw room (k.history.start w.db)
    ];
  }

  write_l0-Leads :
      (st : Settings) (fault : Bool) (f : L0File) (found : Option L0File)
      → Leads Q (write_l0 st fault f found)
  unfolding write_l0
  write_l0-Leads st true f found = search (leads_rules, k.history)
  write_l0-Leads st false f (some _) = search (leads_rules, k.history)
  write_l0-Leads st false f none = create_file-Leads st f

  restored_leads :
      (id seq exposure ended : ℕ) (c : Option Command) (d : Db)
      → Q d (restored id seq exposure ended c d)
  unfolding restored update_exposure
  restored_leads id seq exposure ended (some _) d = k.history.start d
  restored_leads id seq exposure ended none d =
      k.history.onward _ _ _ (k.commands d _) (k.exposures _ _)

  restore_command_leads :
      (id : Option ℕ) (seq exposure ended : ℕ) (d : Db)
      → Q d (restore_command id seq exposure ended d)
  unfolding restore_command
  restore_command_leads none seq exposure ended d = k.history.start d
  restore_command_leads (some id) seq exposure ended d = restored_leads id seq exposure ended _ d

  register_leads : (f : L0File) (e : Exposure) (ended : ℕ) (d : Db) → Q d (register f e ended d)
  unfolding register update_exposure
  register_leads f e ended d =
      k.history.onward _ _ _ (k.files d _ _)
        (k.history.onward _ _ _ (k.exposures _ _) (k.announces _ _ of_raw_file))

  module _ (st : Settings) where
    commit_new-Leads :
        (fault : Bool) (ended : ℕ) (e : Exposure) → Leads Q (commit_new st fault ended e)
    unfolding commit_new
    commit_new-Leads fault ended e =
        search
          (
            leads_rules, Leads-write, k.history, write_l0-Leads, restore_command_leads,
            register_leads,
          )
          depth 18

    return_or_commit-Leads :
        (fault : Bool) (ended : ℕ) (e : Exposure) (r : Option RawFile)
        → Leads Q (return_or_commit st fault ended e r)
    unfolding return_or_commit
    return_or_commit-Leads fault ended e (some r) = search (leads_rules, k.history)
    return_or_commit-Leads fault ended e none = commit_new-Leads fault ended e

    pub commit_l0-Leads : (fault : Bool) (ended id : ℕ) → Leads Q (commit_l0 st fault ended id)
    unfolding commit_l0
    commit_l0-Leads fault ended id =
        search (leads_rules, k.history, return_or_commit-Leads) depth 10
