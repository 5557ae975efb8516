-- ===== src/Guest.antt =====
-- src/lib.rs: one request of the WebDAV client, from its headers to the handler that answers it.
pub mod Body
pub mod Base64
pub mod Auth
pub mod Path
pub mod PathClean
pub mod BodyLimit
pub mod Destination
pub mod AuthAccepts
pub mod Route
pub mod RouteSafe
mod Tests
