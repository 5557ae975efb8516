-- ===== src/Dav/Failed.antt =====
-- How the writing handlers of src/dav.rs answer when Graph fails, and what they leave then.
use onedrive_davfs.Base.{ℕ, ◌≡◌, ◌⊎◌, Bytes, Result, ok, err}
use onedrive_davfs.Index.State.{Index}
use onedrive_davfs.Graph.Upload
use onedrive_davfs.Graph.Write
use onedrive_davfs.Dav.Response.{DavResponse}

-- A handler answers `status`, and its call of Graph succeeded; or 502, and the call failed and `P` holds of
-- what the handler leaves.
abbrev pub IsAnswered :
    {W A : Type 0} → (W → Type 0) → ℕ → Result Bytes A → W × DavResponse → Type 0
IsAnswered {A = A} P status called r =
    ((a : A) × (called ≡ ok a) × (r.1.status ≡ status))
    ⊎ (P r.0 × ((e : Bytes) × (called ≡ err e)) × (r.1.status ≡ 502))
