-- ===== src/Graph/Links.antt =====
-- `validate_next_link` and `parse_delta_page` of src/graph.rs. `page` is what `serde_json` reads.
use onedrive_davfs.Base.{
  ℕ, not, Option, none, some, List, Bytes, codes, leb, Result, ok, err, ◌>>=◌, if◌then◌else◌,
}
use onedrive_davfs.Base.Str.{starts_with}
use onedrive_davfs.Sync.Crawl.{Page}
use onedrive_davfs.Graph.Address.{graph_origin}
use onedrive_davfs.Graph.Item.{DriveItem, delta_items}

abbrev pub max_children_pages : ℕ
max_children_pages = 500

unfoldable pub validate_next_link : Bytes → ℕ → Result Bytes Bytes
unfolding starts_with
validate_next_link next pages_so_far =
    if leb max_children_pages pages_so_far
    then err (codes "graph children listing exceeded 500 pages; aborting")
    else if not (starts_with next graph_origin)
    then err (codes "graph @odata.nextLink points outside graph.microsoft.com; refusing")
    else ok next

pub record DeltaPageJson : Type 0 where
  pub items : List DriveItem
  pub next_link : Option Bytes
  pub delta_link : Option Bytes
  -- `error`, by its code.
  pub error : Option Bytes

unfoldable pub check_link : Option Bytes → Result Bytes (Unit {0})
unfolding validate_next_link
check_link none = ok tt
check_link (some link) = do _ ← validate_next_link link 0; ok tt

unfoldable pub page_of : DeltaPageJson → Result Bytes Page
unfolding check_link delta_items
page_of page = do
  _ ← check_link page.next_link
  _ ← check_link page.delta_link
  ok (record {
    items = delta_items page.items;
    next_link = page.next_link;
    delta_token = page.delta_link;
  })
