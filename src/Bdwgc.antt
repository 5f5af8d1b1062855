-- ===== src/Bdwgc.antt =====
-- vmkit/src/bdwgc_shim.rs: the interface for programs written for BDWGC. Each child is about one
-- group of its functions.
pub mod Words
pub mod Registry
pub mod Descriptor
pub mod Marking
pub mod Links
pub mod Allocation
pub mod Threads
pub mod Startup
pub mod Creation
pub mod Settings
mod Tests
