-- ===== src/Sync/Crawl.antt =====
-- The loop of `run_inner` of src/sync.rs over the pages of the delta feed.
use mathlib.Core.List.{foldl}
use onedrive_davfs.Base.{
  ℕ, zero, suc, ◌+◌, Bool, true, false, not, ◌&&◌, ◌||◌, Option, none, some, List, Bytes, bytes_eq,
  ltb, leb, length, Result, ok, err, if◌then◌else◌,
}
use onedrive_davfs.Base.Str.{is_empty}
use onedrive_davfs.Index.State.{Index, DeltaItem, default}
use onedrive_davfs.Index.Apply.{apply}
use onedrive_davfs.Index.Query.{sweep_orphans}

-- What `graph::delta` gives: a page, or an error that asks for a new crawl, or another one.
pub record Page : Type 0 where
  pub items : List DeltaItem
  pub next_link : Option Bytes
  pub delta_token : Option Bytes

pub data DeltaError : Type 0 where
  resync : DeltaError
  other : Bytes → DeltaError

-- `REBUILD_FILE` and `INDEX_FILE`.
pub data Target : Type 0 where
  rebuild_file : Target
  index_file : Target

-- The local variables of the loop.
pub record Crawl : Type 0 where
  pub idx : Index
  pub url : Bytes
  pub pages : ℕ
  pub applied : ℕ
  pub dirty : Bool
  pub resynced : Bool
  pub complete : Bool
  pub target : Target

-- `a != b` on optional strings.
unfoldable pub differs : Option Bytes → Option Bytes → Bool
unfolding bytes_eq
differs none none = false
differs none (some b) = true
differs (some a) none = true
differs (some a) (some b) = not (bytes_eq a b)

unfoldable pub is_some {ℓ} : {A : Type ℓ} → Option A → Bool
is_some none = false
is_some (some a) = true

unfoldable pub or_else {ℓ} : {A : Type ℓ} → Option A → Option A → Option A
or_else none b = b
or_else (some a) b = some a

-- The items of a page, before its links are read.
unfoldable pub take_items : Crawl → List DeltaItem → Crawl
unfolding is_empty
take_items st items = record st {
  idx = foldl apply st.idx items;
  pages = st.pages + 1;
  applied = st.applied + length items;
  dirty = st.dirty || not (is_empty items);
}

unfoldable pub more_pages : Crawl → Bytes → Crawl
unfolding differs
more_pages st next = record st {
  idx = record (st.idx) { pending_next_link = some next; crawl_complete = false };
  dirty = st.dirty || differs st.idx.pending_next_link (some next);
  complete = false;
  url = next;
}

unfoldable pub last_page : Crawl → Option Bytes → Crawl
unfolding differs is_some or_else
last_page st delta_token = record st {
  idx = sweep_orphans (record (st.idx) {
    pending_next_link = none;
    delta_token = or_else delta_token st.idx.delta_token;
    crawl_complete = true;
  });
  dirty = st.dirty || differs st.idx.delta_token delta_token || is_some st.idx.pending_next_link;
  complete = true;
}

-- `initial` is the URL of a new crawl, and `live_usable` whether the live snapshot loads and has a root
-- or a complete crawl. Generations are far below the bound of `u64`, so `saturating_add` is a sum.
unfoldable pub restart : Bytes → Bool → Crawl → Crawl
restart initial live_usable st = record st {
  resynced = true;
  dirty = true;
  pages = st.pages + 1;
  idx = record default { generation = st.idx.generation + 1 };
  url = initial;
  complete = false;
  target = if live_usable then rebuild_file else index_file;
}

-- The replies of `graph::delta` and the milliseconds since the start, by the pages read so far.
pub record World : Type 0 where
  pub initial : Bytes
  pub live_usable : Bool
  pub budget : ℕ
  pub elapsed : ℕ → ℕ
  pub delta : ℕ → Bytes → Result DeltaError Page

unfoldable pub over_budget : World → Crawl → Bool
over_budget w st = leb w.budget (w.elapsed st.pages) && ltb 0 st.pages

-- `while pages < sync_max_pages`: every round that does not leave the loop counts one page, so the
-- rounds left are the pages left.
unfoldable pub crawl : World → ℕ → Crawl → Result Bytes Crawl
unfolding over_budget take_items more_pages last_page restart
crawl w zero st = ok st
crawl w (suc left) st = if over_budget w st then ok st else elim (w.delta st.pages st.url) [
  | err resync ↦ crawl w left (restart w.initial w.live_usable st)
  | err (other e) ↦ err e
  | ok page ↦ elim page.next_link [
    | some next ↦ crawl w left (more_pages (take_items st page.items) next)
    | none ↦ ok (last_page (take_items st page.items) page.delta_token)
  ]
]
