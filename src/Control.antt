-- ===== src/Control.antt =====
-- backend/src/most_sprite/control: the instrument's state machine, the lease of the control leader,
-- and the runner that carries out the queued sequences.
pub mod StateMachine
pub mod Validation
pub mod Lease
pub mod World
pub mod Runner
