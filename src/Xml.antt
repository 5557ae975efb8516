-- ===== src/Xml.antt =====
-- src/xml.rs: percent coding, XML escapes, HTTP dates and the multistatus body.
pub mod Percent
pub mod PercentRoundTrip
pub mod Escape
pub mod EscapeReads
pub mod Date
pub mod DateBounds
pub mod Multistatus
mod Tests
