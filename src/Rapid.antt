-- ===== src/Rapid.antt =====
-- src/bucket/rapid: the append log that holds an actor's state.
pub mod Frame
pub mod Segment
pub mod Replicas
pub mod Index
pub mod Writer
pub mod Durability
pub mod Archive
pub mod Merge
