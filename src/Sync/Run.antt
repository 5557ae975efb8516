-- ===== src/Sync/Run.antt =====
-- `run_inner` of src/sync.rs: what a run loads, the crawl, and what it writes. The file of the run's
-- statistics, whose write may fail unseen, and the report are left out but for the numbers in `Crawl`.
use onedrive_davfs.Base.{
  ℕ, Bool, true, false, not, ◌&&◌, ◌||◌, Option, none, some, Bytes, Result, ok, err, ◌>>=◌,
  if◌then◌else◌,
}
use onedrive_davfs.Index.State.{Index, default}
use onedrive_davfs.Sync.Crawl.{
  Target, rebuild_file, index_file, Crawl, World, DeltaError, Page, is_some, or_else, crawl,
}

-- The snapshot files, with `snapshot::load`, `snapshot::save` and the rename of the rebuilt file over
-- the live one. `stale` is whether the meta of the live snapshot asks for it to be written again.
pub record Store (F : Type 0) : Type 0 where
  pub load : Target → F → Result Bytes (Option Index)
  pub save : Target → Index → F → Result Bytes F
  pub rename_over : F → Result Bytes F
  pub stale : F → Bool

unfoldable pub or_default : Option Index → Index
or_default none = default
or_default (some idx) = idx

-- Where a run begins: the page that was not read, else the token of the last crawl, else a new crawl.
unfoldable pub resume_url : Bytes → Index → Bytes
unfolding or_else
resume_url initial idx = elim (or_else idx.pending_next_link idx.delta_token) [
  | none ↦ initial
  | some url ↦ url
]

unfoldable pub start : Bytes → Bool → Option Index → Option Index → Crawl
unfolding resume_url or_default is_some
start initial stale live rebuild =
    let idx : Index = elim rebuild [ none ↦ or_default live | some r ↦ r ] in
    record {
      idx = idx;
      url = resume_url initial idx;
      pages = 0;
      applied = 0;
      dirty = stale;
      resynced = false;
      complete = idx.crawl_complete && not (is_some idx.pending_next_link);
      target = if is_some rebuild then rebuild_file else index_file;
    }

unfoldable pub usable : Result Bytes (Option Index) → Bool
unfolding is_some
usable (ok (some live)) = live.crawl_complete || is_some live.root
usable (ok none) = false
usable (err e) = false

unfoldable pub is_rebuild : Target → Bool
is_rebuild rebuild_file = true
is_rebuild index_file = false

module _ {F : Type 0} (s : Store F) (initial : Bytes) (budget : ℕ) (elapsed : ℕ → ℕ)
    (delta : ℕ → Bytes → Result DeltaError Page) where
  unfoldable pub world : F → World
  unfolding usable
  world files = record {
    initial = initial;
    live_usable = usable (s.load index_file files);
    budget = budget;
    elapsed = elapsed;
    delta = delta;
  }

  unfoldable pub write_back : Crawl → F → Result Bytes F
  unfolding is_rebuild
  write_back st files = do
    saved ← if st.dirty then s.save st.target st.idx files else ok files
    if st.complete && is_rebuild st.target then s.rename_over saved else ok saved

  unfoldable pub run_inner : ℕ → F → Result Bytes (Crawl × F)
  unfolding world start write_back crawl
  run_inner max_pages files = do
    live ← s.load index_file files
    rebuild ← s.load rebuild_file files
    st ← crawl (world files) max_pages (start initial (s.stale files) live rebuild)
    written ← write_back st files
    ok (st, written)
