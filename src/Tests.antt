-- ===== src/Tests.antt =====
-- Runs at concrete inputs, one for each theorem with conditions.
pub mod Text
pub mod Mounts
pub mod Status
pub mod World
mod Threads
mod Pointers
mod Startup
mod Sessions
mod Copies
pub mod Device
pub mod Listing
pub mod Saving
pub mod Processes
pub mod Setup
pub mod Opening
