-- ===== src/State.antt =====
-- src/state/: what the compositor keeps beside the shell.
pub mod Output
pub mod Compositor
pub mod Clients
pub mod Requests
pub mod DataDevice
pub mod Popups
pub mod EventLoop
pub mod Start
