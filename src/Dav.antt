-- ===== src/Dav.antt =====
-- src/dav.rs: the handlers of the WebDAV methods.
pub mod Response
pub mod Read
pub mod Write
pub mod Saved
pub mod WriteThrough
pub mod Failed
pub mod Tests
