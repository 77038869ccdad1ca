-- ===== src/Examples.antt =====
-- The theorems at concrete inputs, and runs of the definitions.
pub mod Frame
mod Durability
mod Executor
mod Index
mod Lifecycle
mod Writer
mod Archive
mod Admission
mod Alarms
mod Sockets
mod Merge
mod Tracking
mod Uploads
pub mod Ownership
