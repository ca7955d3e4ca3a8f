-- ===== src/Devices/Simulator/Tests.antt =====
-- Examples for the simulator: a move of the retarders, and a late command under an old token.
use most_sprite.Prelude.{◌≡◌, ◌≢◌, refl, some, [], ◌∷◌, List, true, arith}
use most_sprite.Prelude.Int.{pos}
use most_sprite.Domain.{CommandStatus}
use most_sprite.Domain.Errors.{stale_fencing_token}
use most_sprite.Devices.Contracts.{CommandKey, DeviceCommand, Order, Suffix, same_key}
use most_sprite.Devices.Simulator.{
  Fault, execute, recall, inject_fault, perform, guarded, remember, handle, is_active,
}
use most_sprite.Devices.Simulator.{new}
use most_sprite.Devices.Simulator.Fencing.{
  DeviceEvent, apply_all, execute_once, execute_fences, apply,
}
use most_sprite.Devices.Simulator.Effects.{SameButLock, execute_refused}

abbrev move : DeviceCommand
move = record {
  command_id = 3;
  idempotency_key = CommandKey.run 7 0 (Suffix.move 1);
  order = Order.move_fr (pos 450000) (pos 900000);
  deadline = 100;
  fencing_token = 2;
}

abbrev late : DeviceCommand
late = record {
  command_id = 4;
  idempotency_key = CommandKey.run 7 0 Suffix.initialize;
  order = Order.initialize;
  deadline = 100;
  fencing_token = 1;
}

abbrev faults : List DeviceEvent
faults = DeviceEvent.fault Fault.communication true ∷ []

execute_once_example :
    execute 9 move 60 (apply_all faults (execute 5 move 50 new).1)
    ≡ ((execute 5 move 50 new).0, apply_all faults (execute 5 move 50 new).1)
execute_once_example = execute_once 5 50 move new faults 9 60 move refl

execute_fences_example :
    let t = apply_all faults (execute 5 move 50 new).1 in
    let (answer, u) = execute 9 late 60 t in
    (answer.status ≡ CommandStatus.rejected)
    × (answer.error_code ≡ some stale_fencing_token)
    × (u.values ≡ t.values)
    × (u.faults ≡ t.faults)
    × (u.last_fencing_token ≡ t.last_fencing_token)
unfolding recall new execute apply_all apply remember perform guarded is_active handle inject_fault
    same_key
execute_fences_example = execute_fences 5 50 move new faults 9 60 late refl (omega arith) refl

move_refused : (execute 5 move 200 new).0.status ≢ CommandStatus.succeeded
unfolding execute recall new perform guarded remember
move_refused h = cc

execute_refused_example : SameButLock (new).values (execute 5 move 200 new).1.values
execute_refused_example = execute_refused 5 move 200 new move_refused
