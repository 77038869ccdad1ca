-- ===== src/Ownership.antt =====
-- src/bucket/runtime, src/bucket/file.rs, src/host_leases.rs: who owns an actor. The authority bucket
-- holds one ownership object for each actor; hosts claim, renew and release it by compare-and-swap.
pub mod Types
pub mod Loading
pub mod Bucket
pub mod Activation
pub mod Lawful
pub mod Claims
pub mod Protocol
pub mod Uploads
