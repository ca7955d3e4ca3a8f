-- ===== src/Control/Runner.antt =====
-- backend/src/most_sprite/control/runner.py, one module for each group of its methods: the commands
-- to the device, the transitions of the instrument, the exposures, the run of a sequence with its
-- failure path, and the poll. Their theorems are in the modules named for what they state; Requests
-- and Trail follow what a poll keeps, through the interface in History.
pub mod History
pub mod Commands
pub mod Transitions
pub mod Exposures
pub mod Sequences
pub mod Poll
pub mod Requests
pub mod Trail
mod Tests
