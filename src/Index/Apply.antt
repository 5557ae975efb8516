-- ===== src/Index/Apply.antt =====
-- `Index::apply`: one item of a Graph delta page.
use onedrive_davfs.Base.{Bool, not, ◌&&◌, Option, none, some, [], bytes_eq, find, if◌then◌else◌}
use onedrive_davfs.Base.Str.{is_empty}
use onedrive_davfs.Base.Map.Assoc
use onedrive_davfs.Base.Map.Assoc.{HashMap}
use onedrive_davfs.Base.Map.PairSet
use onedrive_davfs.Base.Map.PairSet.{Pair, PairSet}
use onedrive_davfs.Index.State.{ItemId, Node, Index, DeltaItem}
use onedrive_davfs.Index.Remove.{detach, remove, is_root_id}

-- `old.parent.as_ref() == Some(&parent_id) && old.name == it.name`, the negation of `moved`.
unfoldable pub stays : Node → DeltaItem → ItemId → Bool
unfolding is_root_id
stays old it pid = is_root_id old.parent pid && bytes_eq old.name it.name

-- An item that moved or was renamed leaves its old place.
unfoldable pub detach_moved : Index → DeltaItem → ItemId → Index
unfolding stays detach
detach_moved idx it pid = elim (Assoc.get it.id idx.nodes) [
  | none ↦ idx
  | some old ↦ if stays old it pid then idx else record idx { kids = detach old it.id idx.kids }
]

-- Another id under the same name.
unfoldable pub clashes : DeltaItem → Pair → Bool
clashes it (name, cid) = bytes_eq name it.name && not (bytes_eq cid it.id)

unfoldable pub drop_found : Index → Option Pair → Index
unfolding remove
drop_found idx none = idx
drop_found idx (some (name, cid)) = remove idx cid

unfoldable pub drop_clash : Index → DeltaItem → ItemId → Index
unfolding drop_found clashes
drop_clash idx it pid = elim (Assoc.get pid idx.kids) [
  | none ↦ idx
  | some set ↦ drop_found idx (find (clashes it) set)
]

-- `kids.entry(pid).or_default().insert(p)`.
unfoldable pub or_default : Option PairSet → PairSet
or_default none = []
or_default (some set) = set

unfoldable pub add_kid : ItemId → Pair → HashMap PairSet → HashMap PairSet
unfolding or_default
add_kid pid p kids = Assoc.insert pid (PairSet.insert p (or_default (Assoc.get pid kids))) kids

unfoldable pub link : Index → DeltaItem → ItemId → Index
unfolding add_kid
link idx it pid = record idx {
  kids = add_kid pid (it.name, it.id) idx.kids;
  nodes =
      Assoc.insert it.id (record { parent = some pid; name = it.name; meta = it.meta }) idx.nodes;
}

unfoldable pub place : Index → DeltaItem → ItemId → Index
unfolding detach_moved drop_clash link
place idx it pid = link (drop_clash (detach_moved idx it pid) it pid) it pid

unfoldable pub set_root : Index → DeltaItem → Index
set_root idx it = record idx {
  root = some it.id;
  nodes = Assoc.insert it.id (record { parent = none; name = it.name; meta = it.meta }) idx.nodes;
}

unfoldable pub apply : Index → DeltaItem → Index
unfolding place set_root remove is_empty
apply idx it =
    if is_empty it.id
    then idx
    else if it.deleted
    then remove idx it.id
    else if it.is_root
    then set_root idx it
    else elim it.parent_id [ none ↦ idx | some pid ↦ place idx it pid ]
