-- ===== src/Tests.antt =====
-- Runs of the theorems at concrete inputs.
pub mod Paging
pub mod Processor
pub mod Traps
pub mod Devices
pub mod Modules
pub mod Disks
pub mod Requests
pub mod Tracing
pub mod Loading
