-- ===== src/Index.antt =====
-- src/index.rs: the namespace index, keyed by item id.
pub mod State
pub mod Paths
pub mod Remove
pub mod Apply
pub mod Query
pub mod RemoveTotal
pub mod Links
pub mod RemoveLinks
pub mod RemoveDeep
pub mod RemoveLoop
pub mod RemoveExact
pub mod ApplyLinks
pub mod ApplyConsistent
pub mod Feed
pub mod PathSegments
pub mod Resolve
pub mod Sweep
pub mod Write
pub mod WriteConsistent
mod Tests
