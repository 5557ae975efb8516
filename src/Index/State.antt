-- ===== src/Index/State.antt =====
-- The data of src/index.rs. A `String` is the list of its bytes, a `HashMap` an association list.
use onedrive_davfs.Base.{ℕ, Bool, false, Option, none, [], Bytes}
use onedrive_davfs.Base.Map.Assoc.{HashMap}
use onedrive_davfs.Base.Map.PairSet.{PairSet}

abbrev pub ItemId : Type 0
ItemId = Bytes

pub record ItemMeta : Type 0 where
  pub is_dir : Bool
  pub size : ℕ
  pub mtime : ℕ
  pub etag : Bytes

pub record Node : Type 0 where
  pub parent : Option ItemId
  pub name : Bytes
  pub meta : ItemMeta

pub record Index : Type 0 where
  pub nodes : HashMap Node
  pub kids : HashMap PairSet
  pub root : Option ItemId
  pub delta_token : Option Bytes
  pub pending_next_link : Option Bytes
  pub crawl_complete : Bool
  pub generation : ℕ

pub record DeltaItem : Type 0 where
  pub id : ItemId
  pub parent_id : Option ItemId
  pub name : Bytes
  pub deleted : Bool
  pub is_root : Bool
  pub meta : ItemMeta

-- `Index::default()`.
abbrev pub default : Index
default = record {
  nodes = [];
  kids = [];
  root = none;
  delta_token = none;
  pending_next_link = none;
  crawl_complete = false;
  generation = 0;
}
