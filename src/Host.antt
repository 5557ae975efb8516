-- ===== src/Host.antt =====
-- host/src/main.rs: the host that runs the guest.
pub mod Config
pub mod Policy
pub mod PolicyAllows
pub mod PublicIp
pub mod Blocks
pub mod Admission
pub mod AdmissionBounds
pub mod AdmissionProgress
pub mod AdmissionLeak
pub mod Serve
pub mod Tests
