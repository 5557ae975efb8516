-- ===== src/Host/AdmissionLeak.antt =====
-- What dropped requests do to the admission queue of host/src/main.rs.
use onedrive_davfs.Base.{◌+◌, ◌≤◌, ◌≡◌, arith}
use onedrive_davfs.Host.Admission.{
  Server, Step, Reach, new_server, acquire, miss, join, exceed, refuse, wake, enter, cancel,
  release, start, next,
}
use onedrive_davfs.Host.AdmissionBounds.{Reach-IsAccounted, new_server-IsAccounted}

-- No step takes back the count of a dropped request.
Step-cancelled : {s t : Server} → Step s t → s.cancelled ≤ t.cancelled
Step-cancelled (acquire s h) = omega arith
Step-cancelled (miss s h) = omega arith
Step-cancelled (join s h l) = omega arith
Step-cancelled (exceed s h l) = omega arith
Step-cancelled (refuse s h) = omega arith
Step-cancelled (wake s h l) = omega arith
Step-cancelled (enter s h) = omega arith
Step-cancelled (cancel s h) = omega arith
Step-cancelled (release s h) = omega arith

Reach-cancelled : {s t : Server} → Reach s t → s.cancelled ≤ t.cancelled
Reach-cancelled start = omega arith
Reach-cancelled (next r st) = omega (arith, Reach-cancelled r, Step-cancelled st)

onward : {s t u : Server} → Reach s t → Reach t u → Reach s u
onward r start = r
onward r (next q st) = next (onward r q) st

-- After eight requests were dropped while they waited, no request ever waits again, and `queued_waiters`
-- stays at eight or more, so that from then on every request that finds the guest busy is refused.
pub cancelled_forever :
    (s t : Server)
    → Reach new_server s
    → s.cancelled ≡ 8
    → Reach s t
    → (t.waiting + t.entering ≡ 0) × (8 ≤ t.queued_waiters)
cancelled_forever s t r c q =
    let h = Reach-IsAccounted new_server-IsAccounted (onward r q) in
    let k = Reach-cancelled q in (omega (arith, h.2, k, c), omega (arith, h.1, k, c))
