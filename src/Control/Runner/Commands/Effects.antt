-- ===== src/Control/Runner/Commands/Effects.antt =====
-- What a command to the device changes: rows of `commands`, the device and the supply of ids.
use most_sprite.Prelude.{ℕ, ◌≡◌, suc, refl, none, some, inl, inr, ap, Option, Bool-cases}
use most_sprite.Devices.Contracts.{CommandKey, Order, Suffix}
use most_sprite.Store.{Settings, Sequence, Command, update_command}
use most_sprite.Control.World.{World, continue, fail, gets, write, fresh_id, lift, ◌>>=◌}
use most_sprite.Control.Runner.Commands.{
  device_execute, send, answer_or_send, execute_command, is_succeeded,
}

-- The world is the same but for the commands, the device and the supply of ids.
abbrev pub OnlyCommands : World → World → Type 0
OnlyCommands v w =
    record w {
      db = record (w.db) { commands = v.db.commands };
      device = v.device;
      next_id = v.next_id;
    }
    ≡ v

module _ (st : Settings) where
  send-OnlyCommands :
      (s : Sequence) (key : CommandKey) (order : Order) (token id : ℕ) (found : Option Command)
      (w : World)
      → OnlyCommands w (send st s key order token id found w).1
  unfolding send ◌>>=◌ write update_command lift gets device_execute fail continue
  send-OnlyCommands s key order token id none w = elim (Bool-cases w.is_reachable) [
    | inl reached ↦ rw reached refl
    | inr lost ↦ rw lost refl
  ]
  send-OnlyCommands s key order token id (some c) w = elim (Bool-cases w.is_reachable) [
    | inl reached ↦ rw reached refl
    | inr lost ↦ rw lost refl
  ]

  answer_or_send-OnlyCommands :
      (s : Sequence) (key : CommandKey) (order : Order) (token id : ℕ) (found : Option Command)
      (w : World)
      → OnlyCommands w (answer_or_send st s key order token id found w).1
  unfolding answer_or_send gets
  answer_or_send-OnlyCommands s key order token id none w =
      send-OnlyCommands s key order token id none w
  answer_or_send-OnlyCommands s key order token id (some c) w =
      elim (Bool-cases (is_succeeded c.status)) [
        | inl done ↦ rw (done, answer_or_send) refl
        | inr new ↦ rw (new, answer_or_send) (send-OnlyCommands s key order token id (some c) w)
      ]

  pub execute_command-OnlyCommands :
      (s : Sequence) (order : Order) (token : ℕ) (suffix : Suffix) (w : World)
      → OnlyCommands w (execute_command st s order token suffix w).1
  unfolding execute_command ◌>>=◌ fresh_id gets
  execute_command-OnlyCommands s order token suffix w =
      ap (λ (z : World). record z { next_id = w.next_id })
        (answer_or_send-OnlyCommands s _ order token w.next_id _
          (record w { next_id = suc w.next_id }))
