-- ===== src/Input.antt =====
-- src/input/mod.rs: the devices of seats and the events that they send.
pub mod Devices
pub mod Seats
pub mod Under
pub mod Events
