-- ===== src/Devices.antt =====
-- backend/src/most_sprite/devices: the messages between the control process and the device agent,
-- and the simulator that stands for every device.
pub mod Contracts
pub mod Simulator
