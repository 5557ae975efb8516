-- ===== src/Snapshot.antt =====
-- src/snapshot.rs: the index on disk, and the lookup of a path in it.
pub mod Text
pub mod TextRoundTrip
pub mod Child
pub mod ChildRoundTrip
pub mod Row
pub mod RowRoundTrip
pub mod Header
pub mod HeaderRoundTrip
pub mod Lookup
pub mod FindDir
pub mod Encode
pub mod Decode
pub mod FileRoundTrip
pub mod Files
mod Tests
