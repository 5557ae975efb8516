-- ===== src/Index/Query.antt =====
-- `resolve`, `path_of` and `sweep_orphans` of src/index.rs.
use onedrive_davfs.Base.{
  ℕ, zero, suc, Bool, true, false, not, ◌||◌, Option, none, some, List, [], ◌∷◌, Bytes, bytes_eq,
  find, keep, if◌then◌else◌,
}
use onedrive_davfs.Base.Map.Assoc
use onedrive_davfs.Base.Map.Assoc.{HashMap}
use onedrive_davfs.Base.Map.PairSet.{PairSet}
use onedrive_davfs.Index.State.{ItemId, Node, Index}
use onedrive_davfs.Index.Paths.{segments, render}

unfoldable pub named : Bytes → PairSet → Option ItemId
named seg set = elim (find (λ p. bytes_eq p.0 seg) set) [ none ↦ none | some p ↦ some p.1 ]

-- `self.kids.get(&cur)?.iter().find(|(n, _)| n == seg)?.1`.
unfoldable pub child : HashMap PairSet → ItemId → Bytes → Option ItemId
unfolding named
child kids cur seg = elim (Assoc.get cur kids) [ none ↦ none | some set ↦ named seg set ]

unfoldable pub walk : HashMap PairSet → ItemId → List Bytes → Option ItemId
unfolding child
walk kids cur [] = some cur
walk kids cur (seg ∷ segs) = elim (child kids cur seg) [
  | none ↦ none
  | some next ↦ walk kids next segs
]

unfoldable pub resolve : Index → Bytes → Option ItemId
unfolding walk segments
resolve idx path = elim idx.root [ none ↦ none | some root ↦ walk idx.kids root (segments path) ]

-- The `for _ in 0..64` loops of `path_of` and of `sweep_orphans`.
abbrev pub max_depth : ℕ
max_depth = 64

-- `segs` is kept last pushed first, so `segs.reverse()` is nothing to do.
unfoldable pub path_steps : HashMap Node → ℕ → ItemId → List Bytes → Option Bytes
unfolding render
path_steps nodes zero cur segs = none
path_steps nodes (suc rounds) cur segs = elim (Assoc.get cur nodes) [
  | none ↦ none
  | some node ↦ elim node.parent [
    | none ↦ some (render segs)
    | some pid ↦ path_steps nodes rounds pid (node.name ∷ segs)
  ]
]

unfoldable pub path_of : Index → ItemId → Option Bytes
path_of idx id = path_steps idx.nodes max_depth id []

-- `self.nodes.get(cur).and_then(|n| n.parent.as_deref())`.
unfoldable pub parent_of : HashMap Node → ItemId → Option ItemId
parent_of nodes cur = elim (Assoc.get cur nodes) [ none ↦ none | some node ↦ node.parent ]

unfoldable pub reaches : HashMap Node → ItemId → ℕ → ItemId → Bool
unfolding parent_of
reaches nodes root zero cur = false
reaches nodes root (suc rounds) cur =
    let up : Bool = elim (parent_of nodes cur) [
      | none ↦ false
      | some pid ↦ reaches nodes root rounds pid
    ] in
    if bytes_eq cur root then true else up

unfoldable pub listed : ItemId → List ItemId → Bool
listed id [] = false
listed id (x ∷ xs) = bytes_eq x id || listed id xs

unfoldable pub reachable : Index → ItemId → List ItemId
reachable idx root = keep (reaches idx.nodes root max_depth) (Assoc.keys idx.nodes)

-- `for id in dead { self.nodes.remove(&id); self.kids.remove(&id); }`.
unfoldable pub drop_keys {ℓ} : {V : Type ℓ} → List ItemId → HashMap V → HashMap V
drop_keys [] m = m
drop_keys (id ∷ ids) m = drop_keys ids (Assoc.remove id m)

-- `self.kids.retain(...)`: the keys in `live`, and in each set the ids in `live`.
unfoldable pub retain_kids : List ItemId → HashMap PairSet → HashMap PairSet
unfolding listed
retain_kids live [] = []
retain_kids live ((pid, set) ∷ kids) =
    let rest = retain_kids live kids in
    if listed pid live then (pid, keep (λ p. listed p.1 live) set) ∷ rest else rest

unfoldable pub sweep_from : Index → ItemId → Index
sweep_from idx root =
    let live = reachable idx root in
    let dead = keep (λ id. not (listed id live)) (Assoc.keys idx.nodes) in
    record idx {
      nodes = drop_keys dead idx.nodes;
      kids = retain_kids live (drop_keys dead idx.kids);
    }

unfoldable pub sweep_orphans : Index → Index
sweep_orphans idx = elim idx.root [ none ↦ idx | some root ↦ sweep_from idx root ]
