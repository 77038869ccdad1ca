-- ===== src/Rapid/Durability.antt =====
-- A segment and its zones over time: appends that any zone may lose or keep in part, and the recovery
-- that reads back what the surviving zones hold. The code is `Segment::append` and `read_replicas`;
-- the zones are the environment.
mod System
mod Invariant
pub mod Recovery
unfoldable pub use System.*
