-- ===== src/Host/AdmissionProgress.antt =====
-- A request that waits for admission (host/src/main.rs) can be served.
use onedrive_davfs.Base.{◌+◌, ◌≡◌}
use onedrive_davfs.Host.Admission.{Server, Reach}

-- Some steps that give a waiter the permit.
abbrev Served : Server → Type 0
Served s = (t : Server) × Reach s t × (t.waiting + 1 ≡ s.waiting) × (t.running ≡ 1)
