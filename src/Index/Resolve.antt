-- ===== src/Index/Resolve.antt =====
-- `resolve` on the path that `path_of` gives (src/index.rs). The other way round it is not the same: a node
-- 64 or more links below the root resolves, and has no path.
use mathlib.Core.Option.{some-injective}
use onedrive_davfs.Base.{
  ℕ, zero, suc, ◌≡◌, refl, ap, subst, true, none, some, Option-cases, List, [], ◌∷◌, Bytes,
  bytes_eq, bytes_eq_iff, All, arith, inl, inr, find,
}
use onedrive_davfs.Base.Map.Assoc
use onedrive_davfs.Base.Map.Assoc.{HashMap}
use onedrive_davfs.Base.Map.PairSet
use onedrive_davfs.Base.Map.PairSet.{Pair, PairSet}
use onedrive_davfs.Index.State.{ItemId, Node, Index}
use onedrive_davfs.Index.Paths.{render}
use onedrive_davfs.Index.PathSegments.{IsSegment, segments-render}
use onedrive_davfs.Index.Query.{named, child, walk, resolve, max_depth, path_steps, path_of}
use onedrive_davfs.Index.Links.{has, Stands, IsLinked, IsConsistent}
use onedrive_davfs.Index.ApplyLinks.{find-some, find-none}

-- The root is the only node without a parent, and the names in the index can stand in a path.
pub record IsRooted (idx : Index) : Type 0 where
  pub top :
      (c : ItemId) (node : Node)
      → Assoc.get c idx.nodes ≡ some node
      → node.parent ≡ none
      → idx.root ≡ some c
  pub names : (c p n : Bytes) → Stands idx.nodes c p n → IsSegment n

child-has :
    (idx : Index) (p n c : Bytes)
    → IsLinked idx
    → has idx.kids p (n, c) ≡ true
    → child idx.kids p n ≡ some c
unfolding child named has
child-has idx p n c linked h = elim (Option-cases (Assoc.get p idx.kids)) [
  | inl e ↦ absurd (ground (arith, h, e))
  | inr (set, e) ↦
      let entry : PairSet.contains (n, c) set ≡ true = ground (arith, h, e) in
      elim (Option-cases (find (λ (q : Pair). bytes_eq q.0 n) set)) [
        | inl missing ↦ absurd (
            ground
              (arith, find-none (λ q. bytes_eq q.0 n) set (n, c) missing entry, bytes_eq_iff n n))
        | inr ((m, d), found) ↦
            let (same, there) = find-some (λ q. bytes_eq q.0 n) set (m, d) found in
            let em = (bytes_eq_iff m n).0 same in
            let other : has idx.kids p (n, d) ≡ true = ground (arith, e, there, em) in
            rw (e, child) (rw (found, named) (ap some (linked.unique p n d c other h)))
      ]
]

module _ (idx : Index) (ok : IsConsistent idx) (rooted : IsRooted idx) where
  resolve-render :
      (segs : List Bytes) (cur id : ItemId)
      → All IsSegment segs
      → idx.root ≡ some cur
      → walk idx.kids cur segs ≡ some id
      → resolve idx (render segs) ≡ some id
  unfolding resolve
  resolve-render segs cur id good root w = rw (root, resolve) (rw (segments-render segs good) w)

  entry :
      (cur pid : ItemId) (node : Node)
      → Assoc.get cur idx.nodes ≡ some node
      → node.parent ≡ some pid
      → has idx.kids pid (node.name, cur) ≡ true
  entry cur pid node found parent =
      elim (ok.covered cur pid node.name (node, found, parent, refl)) [
        | inl h ↦ h
        | inr never ↦ absurd never
      ]

  resolve-path_steps :
      (rounds : ℕ) (cur id : ItemId) (segs : List Bytes) (path : Bytes)
      → All IsSegment segs
      → walk idx.kids cur segs ≡ some id
      → path_steps idx.nodes rounds cur segs ≡ some path
      → resolve idx path ≡ some id
  unfolding path_steps walk
  resolve-path_steps zero cur id segs path good w e = absurd (cc)
  resolve-path_steps (suc rounds) cur id segs path good w e =
      elim (Option-cases (Assoc.get cur idx.nodes)) [
        | inl missing ↦ absurd (ground (arith, rw (missing, path_steps) at e))
        | inr (node, found) ↦
            let e' = rw (found, path_steps) at e in
            elim (Option-cases node.parent) [
              | inl at_root ↦
                  subst (λ x. resolve idx x ≡ some id)
                    (some-injective (render segs) path (rw (at_root, path_steps) at e'))
                    (resolve-render segs cur id good (rooted.top cur node found at_root) w)
              | inr (pid, parent) ↦
                  resolve-path_steps rounds pid id (node.name ∷ segs) path
                    (rooted.names cur pid node.name (node, found, parent, refl), good)
                    (rw
                      (
                        child-has idx pid node.name cur ok.linked (entry cur pid node found parent),
                        walk,
                      )
                      w)
                    (rw (parent, path_steps) at e')
            ]
      ]

-- In a consistent index whose only parentless node is the root, and whose names can stand in a path,
-- the path that `path_of` gives for an id resolves to that id.
pub resolve-path_of :
    (idx : Index) (id : ItemId) (path : Bytes)
    → IsConsistent idx
    → IsRooted idx
    → path_of idx id ≡ some path
    → resolve idx path ≡ some id
unfolding path_of walk
resolve-path_of idx id path ok rooted e =
    resolve-path_steps idx ok rooted max_depth id id [] path tt refl e
