-- ===== src/App.antt =====
-- main/mesh_main.c: the packet handlers, the GAP events and the boot.
pub mod Handlers
pub mod Balance
pub mod Losses
pub mod Receipt
pub mod Effects
pub mod Dispatch
pub mod Frame
pub mod Sound
pub mod Callbacks
pub mod Events
pub mod Start
pub mod System
pub mod Filter
pub mod Update
pub mod Gap
pub mod Boot
pub mod Ota
pub mod Storage
pub mod Restart
pub mod Cycle
pub mod Announce
pub mod Answer
pub mod Connect
