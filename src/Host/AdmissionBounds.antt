-- ===== src/Host/AdmissionBounds.antt =====
-- What holds of the admission of requests (host/src/main.rs) after any steps.
use onedrive_davfs.Base.{◌+◌, ◌≤◌, ◌≡◌, refl, arith}
use onedrive_davfs.Host.Admission.{
  Server, Step, Reach, new_server, queue_limit, acquire, miss, join, exceed, refuse, wake, enter,
  cancel, release, start, next,
}

-- One permit; the counter is that of the requests between their `fetch_add` and `fetch_sub`, and of those
-- that were dropped there.
abbrev pub IsAccounted : Server → Type 0
IsAccounted s =
    (s.permits + s.entering + s.running ≡ 1)
    × (s.queued_waiters ≡ s.over + s.waiting + s.entering + s.cancelled)
    × (s.waiting + s.entering + s.cancelled ≤ queue_limit)

pub Step-IsAccounted : {s t : Server} → Step s t → IsAccounted s → IsAccounted t
Step-IsAccounted (acquire s h) (p, q, r) = (omega (arith, h, p), q, r)
Step-IsAccounted (miss s h) (p, q, r) = (p, q, r)
Step-IsAccounted (join s h l) (p, q, r) = (p, omega (arith, q), omega (arith, q, l))
Step-IsAccounted (exceed s h l) (p, q, r) = (p, omega (arith, q), r)
Step-IsAccounted (refuse s h) (p, q, r) = (p, omega (arith, q, h), r)
Step-IsAccounted (wake s h l) (p, q, r) =
    (omega (arith, p, h), omega (arith, q, l), omega (arith, r, l))
Step-IsAccounted (enter s h) (p, q, r) =
    (omega (arith, p, h), omega (arith, q, h), omega (arith, r, h))
Step-IsAccounted (cancel s h) (p, q, r) = (p, omega (arith, q, h), omega (arith, r, h))
Step-IsAccounted (release s h) (p, q, r) = (omega (arith, p, h), q, r)

pub new_server-IsAccounted : IsAccounted new_server
unfolding new_server
new_server-IsAccounted = (refl, refl, omega arith)

pub Reach-IsAccounted : {s t : Server} → IsAccounted s → Reach s t → IsAccounted t
Reach-IsAccounted h start = h
Reach-IsAccounted h (next r st) = Step-IsAccounted st (Reach-IsAccounted h r)

-- After any steps of any requests, with any of them dropped while they wait, at most one request has the
-- permit, at most eight wait for it, and `queued_waiters` is the number of the requests that are between
-- their `fetch_add` and their `fetch_sub`, the dropped ones included.
pub admit-IsAccounted :
    (t : Server)
    → Reach new_server t
    → (t.entering + t.running ≤ 1)
      × (t.waiting ≤ 8)
      × (t.queued_waiters ≡ t.over + t.waiting + t.entering + t.cancelled)
admit-IsAccounted t r =
    let h = Reach-IsAccounted new_server-IsAccounted r in
    (omega (arith, h.0), omega (arith, h.2), h.1)
