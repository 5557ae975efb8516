-- ===== src/Host/Admission.antt =====
-- `HostServer::admit` of host/src/main.rs and the permit that it gives, as steps of the requests that are
-- alive. A request is between two of its atomic operations, or waits for the semaphore.
use onedrive_davfs.Base.{ℕ, ◌+◌, ◌-◌, ◌≤◌, ◌<◌, ◌≡◌}

abbrev pub queue_limit : ℕ
queue_limit = 8

-- `execution_slot` and `queued_waiters`, and how many requests stand where: after a failed
-- `try_acquire_owned`, after a `fetch_add` that went over the limit, in `acquire_owned().await`, after it,
-- and with a `RequestAdmission`. `cancelled` counts the requests that were dropped in the `await`, with
-- their connection.
pub record Server : Type 0 where
  pub permits : ℕ
  pub queued_waiters : ℕ
  pub busy : ℕ
  pub over : ℕ
  pub waiting : ℕ
  pub entering : ℕ
  pub running : ℕ
  pub cancelled : ℕ

unfoldable pub new_server : Server
new_server = record {
  permits = 1;
  queued_waiters = 0;
  busy = 0;
  over = 0;
  waiting = 0;
  entering = 0;
  running = 0;
  cancelled = 0;
}

-- One step of one request. A waiter may get the permit whenever it is free.
pub data Step : Server → Server → Type 0 where
  -- `try_acquire_owned` gives the permit,
  acquire :
      (s : Server)
      → 1 ≤ s.permits
      → Step s (record s { permits = s.permits - 1; running = s.running + 1 })
  -- or finds none.
  miss : (s : Server) → s.permits ≡ 0 → Step s (record s { busy = s.busy + 1 })
  -- `fetch_add`, and the sum is within the limit,
  join :
      (s : Server)
      → 1 ≤ s.busy
      → s.queued_waiters + 1 ≤ queue_limit
      → Step s (record s {
        busy = s.busy - 1;
        queued_waiters = s.queued_waiters + 1;
        waiting = s.waiting + 1;
      })
  -- or over it.
  exceed :
      (s : Server)
      → 1 ≤ s.busy
      → queue_limit < s.queued_waiters + 1
      → Step s
          (record s { busy = s.busy - 1; queued_waiters = s.queued_waiters + 1; over = s.over + 1 })
  -- `fetch_sub` before `bail!`.
  refuse :
      (s : Server)
      → 1 ≤ s.over
      → Step s (record s { queued_waiters = s.queued_waiters - 1; over = s.over - 1 })
  -- `acquire_owned().await` gives the permit.
  wake :
      (s : Server)
      → 1 ≤ s.permits
      → 1 ≤ s.waiting
      → Step s
          (record s { permits = s.permits - 1; waiting = s.waiting - 1; entering = s.entering + 1 })
  -- `fetch_sub` after it.
  enter :
      (s : Server)
      → 1 ≤ s.entering
      → Step s (record s {
        queued_waiters = s.queued_waiters - 1;
        entering = s.entering - 1;
        running = s.running + 1;
      })
  -- The future is dropped in the `await`, so nothing after it runs.
  cancel :
      (s : Server)
      → 1 ≤ s.waiting
      → Step s (record s { waiting = s.waiting - 1; cancelled = s.cancelled + 1 })
  -- The permit is dropped with the request's task.
  release :
      (s : Server)
      → 1 ≤ s.running
      → Step s (record s { permits = s.permits + 1; running = s.running - 1 })

pub data Reach (s : Server) : Server → Type 0 where
  start : Reach s s
  next : {t u : Server} → Reach s t → Step t u → Reach s u
