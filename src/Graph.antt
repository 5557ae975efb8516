-- ===== src/Graph.antt =====
-- src/graph.rs: the client of Microsoft Graph.
pub mod Time
pub mod DateRoundTrip
pub mod Address
pub mod Item
pub mod Links
pub mod Request
pub mod Read
pub mod Upload
pub mod Write
pub mod BearerSafe
pub mod BearerStays
pub mod UploadWhole
pub mod Rounds
pub mod Tests
pub mod UploadTests
