-- ===== src/Registry.antt =====
-- src/service_registry.cc and include/service_registry.h, in the Linux build. The commands are in
-- the modules below; `World` has the state that they share.
pub mod World
pub mod Status
pub mod Install
pub mod Stop
pub mod Remove
pub mod Start
pub mod Report
pub mod Keeps
pub mod System
pub mod Commands
pub mod Frame
