-- ===== src/Config.antt =====
-- src/config.rs and src/auth.rs: the configuration of the guest and its access token.
pub mod Load
pub mod Guarded
pub mod Token
pub mod TokenSafe
pub mod Tests
