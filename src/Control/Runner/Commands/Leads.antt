-- ===== src/Control/Runner/Commands/Leads.antt =====
-- The methods of runner.py for commands lead along every relation that has the runner's writes.
use most_sprite.Prelude.{ℕ, subst, ap, sym}
use most_sprite.Devices.Contracts.{Order, Suffix}
use most_sprite.Store.{Settings, Db, Sequence}
use most_sprite.Control.World.{World}
use most_sprite.Control.World.Relates.{Leads, Leads-write, Leads-gets, Leads-the, Leads-bind}
use most_sprite.Control.Runner.History.{IsRunnerHistory}
use most_sprite.Control.Runner.Commands.Effects.{execute_command-OnlyCommands}
use most_sprite.Control.Runner.Commands.{
  load_sequence, execute_command, complete_action_command, ActionKinds,
}

module _ {Q : Db → Db → Type 0} (k : IsRunnerHistory Q) where
  pub load_sequence-Leads : (id : ℕ) → Leads Q (load_sequence id)
  unfolding load_sequence
  load_sequence-Leads id = record { at = λ w. (Leads-the (k.history) _).at w }

  pub complete_action_command-Leads :
      (id : ℕ) (kinds : ActionKinds) → Leads Q (complete_action_command id kinds)
  unfolding complete_action_command
  complete_action_command-Leads id kinds =
      Leads-bind (k.history) _ _ (Leads-gets (k.history) _)
        (λ now. Leads-write (k.history) _ (λ d. k.commands d _))

  module _ (st : Settings) where
    pub execute_command-Leads :
        (s : Sequence) (order : Order) (token : ℕ) (suffix : Suffix)
        → Leads Q (execute_command st s order token suffix)
    execute_command-Leads s order token suffix = record {
      at = λ w.
          let v = (execute_command st s order token suffix w).1 in
          subst (Q w.db)
            (ap (λ (z : World). record (z.db) { commands = v.db.commands })
              (sym (execute_command-OnlyCommands st s order token suffix w)))
            (k.commands w.db v.db.commands);
    }
