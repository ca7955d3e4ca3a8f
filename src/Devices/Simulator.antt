-- ===== src/Devices/Simulator.antt =====
-- backend/src/most_sprite/devices/simulator.py: the fenced, idempotent device simulator. The image
-- that EXPOSE writes (`_make_frame`) and the readings that no code changes (connected, temperature,
-- humidity) are left out.
pub mod Fencing
pub mod Effects
mod Tests
use most_sprite.Prelude.{
  ℕ, ◌+◌, ◌-◌, ◌*◌, ◌%◌, ◌/◌, ◌==◌, Bool, true, false, not, ◌&&◌, ◌||◌, Option, none, some, List,
  [], ◌∷◌, ite, ltb, if◌then◌else◌, ℕ_discrete,
}
use most_sprite.Prelude.Int.{ℤ, pos, sub_ℕ, ◌+ℤ◌, ◌-ℤ◌}
use most_sprite.Domain.{DataMode, CommandStatus, is_polarimetric}
use most_sprite.Domain.Errors.{
  Code, stale_fencing_token, deadline_exceeded, communication_lost, hard_limit_active,
  position_not_reached, unknown_command, not_initialized, ccd_readout_failed,
}
use most_sprite.Devices.Contracts.{
  Order, DeviceCommand, DeviceFeedback, FeedbackResult, CommandKey, same_key,
}

-- The faults that the code reads by name, and any other.
pub data Fault : Type 0 where
  communication limit position_timeout interlock_open guider_lost ccd_readout : Fault
  disk_full nas_unavailable stale_state : Fault
  other : ℕ → Fault

unfoldable pub Fault-discrete : Discrete Fault
Fault-discrete = hlevel ℕ_discrete

abbrev pub FaultTable : Type 0
FaultTable = List (Fault × Bool)

-- `faults.get(f)` as a test: a missing key is false.
unfoldable pub is_active : Fault → FaultTable → Bool
unfolding Fault-discrete ℕ_discrete
is_active f [] = false
is_active f ((g, b) ∷ fs) = ite (Fault-discrete g f) b (is_active f fs)

-- `faults[f] = active`
unfoldable pub set_fault : Fault → Bool → FaultTable → FaultTable
unfolding Fault-discrete ℕ_discrete
set_fault f b [] = (f, b) ∷ []
set_fault f b ((g, c) ∷ fs) = ite (Fault-discrete g f) ((g, b) ∷ fs) ((g, c) ∷ set_fault f b fs)

pub data OpticalMode : Type 0 where
  standby safe : OpticalMode
  science : DataMode → OpticalMode

-- The readings that the handlers set; `none` where a key is not there yet.
pub record Values : Type 0 where
  pub initialized : Bool
  pub fr1_deg : ℤ
  pub fr3_deg : ℤ
  pub optical_mode : OpticalMode
  pub guider_locked : Bool
  pub interlock_safe : Bool
  pub wollaston_in : Option Bool
  pub wedge_in : Option Bool
  pub shutter_closed : Bool

pub record Simulator : Type 0 where
  pub feedback : List (CommandKey × DeviceFeedback)
  pub last_fencing_token : ℕ
  pub faults : FaultTable
  pub values : Values

-- `__init__`
unfoldable pub new : Simulator
new = record {
  feedback = [];
  last_fencing_token = 0;
  faults = [];
  values = record {
    initialized = false;
    fr1_deg = pos 0;
    fr3_deg = pos 0;
    optical_mode = OpticalMode.standby;
    guider_locked = true;
    interlock_safe = true;
    wollaston_in = none;
    wedge_in = none;
    shutter_closed = false;
  };
}

-- `_feedback.get(key)`
unfoldable pub recall : CommandKey → List (CommandKey × DeviceFeedback) → Option DeviceFeedback
recall k [] = none
recall k ((j, f) ∷ fs) = if same_key j k then some f else recall k fs

-- `_remember`; it is called only where the key is not there yet.
unfoldable pub remember : DeviceCommand → DeviceFeedback × Simulator → DeviceFeedback × Simulator
remember c (f, s) = (f, record s { feedback = (c.idempotency_key, f) ∷ s.feedback })

succeed : DeviceCommand → ℕ → FeedbackResult → DeviceFeedback
succeed c now r = record {
  command_id = c.command_id;
  status = CommandStatus.succeeded;
  completed_at = now;
  result = r;
  error_code = none;
}

refuse : DeviceCommand → ℕ → CommandStatus → Code → DeviceFeedback
refuse c now st e = record {
  command_id = c.command_id;
  status = st;
  completed_at = now;
  result = FeedbackResult.empty;
  error_code = some e;
}

is_motion : Order → Bool
is_motion (Order.move_fr _ _) = true
is_motion (Order.set_optics _) = true
is_motion _ = false

is_move : Order → Bool
is_move (Order.move_fr _ _) = true
is_move _ = false

handle_initialize : Simulator → Simulator
handle_initialize s = record s {
  values = record (s.values) {
    initialized = true;
    interlock_safe = not (is_active interlock_open s.faults);
    optical_mode = OpticalMode.standby;
  };
}

handle_set_optics : DataMode → Simulator → Simulator
handle_set_optics m s = record s {
  values = record (s.values) {
    optical_mode = OpticalMode.science m;
    wollaston_in = some (is_polarimetric m);
    wedge_in = some (not (is_polarimetric m));
  };
}

handle_safe : Simulator → Simulator
handle_safe s = record s {
  values = record (s.values) {
    shutter_closed = true;
    optical_mode = OpticalMode.safe;
    interlock_safe = true;
  };
}

-- `((seed % 101) - 50) / 10000` degrees
unfoldable pub jitter : ℕ → ℤ
jitter seed = sub_ℕ (seed % 101) 50

handle_move_fr : ℕ → DeviceCommand → ℕ → ℤ → ℤ → Simulator → DeviceFeedback × Simulator
unfolding succeed
handle_move_fr seed c now fr1 fr3 s =
    let a = fr1 +ℤ jitter seed in
    let b = fr3 -ℤ jitter seed in
    (
      succeed c now (FeedbackResult.moved a b),
      record s { values = record (s.values) { fr1_deg = a; fr3_deg = b } },
    )

-- A lost guider drops the lock also where the readout then fails.
lose_lock : Simulator → Simulator
lose_lock s =
    if is_active guider_lost s.faults
    then record s { values = record (s.values) { guider_locked = false } }
    else s

handle_expose : DeviceCommand → ℕ → ℕ → Simulator → DeviceFeedback × Simulator
unfolding succeed refuse lose_lock
handle_expose c now path s =
    if not s.values.initialized
    then (refuse c now CommandStatus.rejected not_initialized, s)
    else if is_active ccd_readout s.faults
    then (refuse c now CommandStatus.failed ccd_readout_failed, lose_lock s)
    else (succeed c now (result (lose_lock s)), lose_lock s)
  where
    result : Simulator → FeedbackResult
    result t =
        FeedbackResult.exposed path t.values.fr1_deg t.values.fr3_deg t.values.guider_locked
          (is_active disk_full t.faults || is_active nas_unavailable t.faults)

-- `getattr(self, "_handle_" + type)` and the call of the handler; `seed` is the number that the
-- SHA-256 digest of the command id begins with.
unfoldable pub handle : ℕ → DeviceCommand → ℕ → Order → Simulator → DeviceFeedback × Simulator
unfolding succeed refuse handle_initialize handle_set_optics handle_safe handle_move_fr
    handle_expose
handle seed c now Order.initialize s = (succeed c now FeedbackResult.empty, handle_initialize s)
handle seed c now (Order.set_optics m) s =
    (succeed c now (FeedbackResult.optics_set m), handle_set_optics m s)
handle seed c now (Order.move_fr fr1 fr3) s = handle_move_fr seed c now fr1 fr3 s
handle seed c now (Order.expose m sub path) s = handle_expose c now path s
handle seed c now Order.abort s = (
  succeed c now FeedbackResult.empty,
  record s { values = record (s.values) { shutter_closed = true } },
)
handle seed c now Order.safe s = (succeed c now FeedbackResult.empty, handle_safe s)
handle seed c now Order.unknown s = (refuse c now CommandStatus.rejected unknown_command, s)

-- The guards of `execute` behind the fencing check.
unfoldable pub guarded : ℕ → DeviceCommand → ℕ → Simulator → DeviceFeedback × Simulator
unfolding refuse is_motion is_move
guarded seed c now s =
    if ltb c.deadline now
    then (refuse c now CommandStatus.timed_out deadline_exceeded, s)
    else if is_active communication s.faults
    then (refuse c now CommandStatus.failed communication_lost, s)
    else if is_active limit s.faults && is_motion c.order
    then (refuse c now CommandStatus.failed hard_limit_active, s)
    else if is_active position_timeout s.faults && is_move c.order
    then (refuse c now CommandStatus.timed_out position_not_reached, s)
    else handle seed c now c.order s

unfoldable pub perform : ℕ → DeviceCommand → ℕ → Simulator → DeviceFeedback × Simulator
unfolding refuse
perform seed c now s =
    if ltb c.fencing_token s.last_fencing_token
    then (refuse c now CommandStatus.rejected stale_fencing_token, s)
    else guarded seed c now (record s { last_fencing_token = c.fencing_token })

or_perform : ℕ → DeviceCommand → ℕ → Simulator → Option DeviceFeedback → DeviceFeedback × Simulator
unfolding perform remember
or_perform seed c now s (some f) = (f, s)
or_perform seed c now s none = remember c (perform seed c now s)

-- `execute` at the time `now`.
unfoldable pub execute : ℕ → DeviceCommand → ℕ → Simulator → DeviceFeedback × Simulator
unfolding or_perform
execute seed c now s = or_perform seed c now s (recall c.idempotency_key s.feedback)

-- What `state` returns: the readings, the faults, and the time of the observation, which the fault
-- STALE_STATE sets back by a year.
pub record DeviceState : Type 0 where
  pub values : Values
  pub faults : FaultTable
  pub observed_at : ℕ

-- `observed.replace(year=observed.year - 1)`, which raises on 29 February, in the Gregorian calendar
-- with years that begin on 1 March: `eras` and `of_era` are the days in whole spans of 400 years and
-- since, `year` is the year in its span, and `of_year` the day in its year. Where the calendar year in
-- which such a year begins is a leap year, the one before it has 366 days.
abbrev is_leap : ℕ → Bool
is_leap year = ((year % 4) == 0) && (not ((year % 100) == 0) || ((year % 400) == 0))

unfoldable pub year_before : ℕ → Option ℕ
year_before now =
    let days = now / 86400000 + 719468 in
    let of_era = days % 146097 in
    let year = (of_era - of_era / 1460 + of_era / 36524 - of_era / 146096) / 365 in
    let of_year = of_era - (365 * year + year / 4 - year / 100) in
    if of_year == 365 then none else some (now - (if is_leap year then 366 else 365) * 86400000)

-- `state`, where it does not raise.
unfoldable pub state : ℕ → Simulator → Option DeviceState
unfolding year_before
state now s = observed (if is_active stale_state s.faults then year_before now else some now)
  where
    observed : Option ℕ → Option DeviceState
    observed none = none
    observed (some time) =
        some (record { values = s.values; faults = s.faults; observed_at = time })

adjust : Fault → Bool → Values → Values
adjust guider_lost false v = record v { guider_locked = true }
adjust interlock_open b v = record v { interlock_safe = not b }
adjust _ b v = v

-- `inject_fault`
unfoldable pub inject_fault : Fault → Bool → Simulator → Simulator
unfolding adjust
inject_fault f active s = record s {
  faults = set_fault f active s.faults;
  values = adjust f active s.values;
}
