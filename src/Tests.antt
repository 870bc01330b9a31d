-- ===== src/Tests.antt =====
-- Tests, and each result at a concrete input.
pub mod Desktop
mod Ids
mod Workspaces
mod Focuses
mod Devices
mod Layouts
mod Grabs
mod Inputs
mod Protocols
mod Frames
mod Starting
mod Messages
mod Images
