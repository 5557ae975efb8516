-- ===== src/Index/Links.antt =====
-- What ties `kids` to `nodes` in the index of src/index.rs, and how the operations on `kids` change
-- the entries.
use onedrive_davfs.Base.{
  ◌≡◌, refl, Bool, true, false, ◌&&◌, Option, none, some, Option-cases, [], Bytes, bytes_eq,
  bytes_eq_iff, arith, inl, inr, if◌then◌else◌, ◌⊎◌,
}
use onedrive_davfs.Base.Map.Assoc
use onedrive_davfs.Base.Map.Assoc.{HashMap}
use onedrive_davfs.Base.Map.PairSet
use onedrive_davfs.Base.Map.PairSet.{Pair, PairSet}
use onedrive_davfs.Index.State.{ItemId, Node, Index}
use onedrive_davfs.Index.Remove.{detach, is_root_id}
use onedrive_davfs.Index.Apply.{add_kid, or_default}

abbrev pub in_set : Pair → Option PairSet → Bool
in_set q none = false
in_set q (some set) = PairSet.contains q set

-- The entry `q` stands in `kids[p]`.
unfoldable pub has : HashMap PairSet → ItemId → Pair → Bool
has kids p q = in_set q (Assoc.get p kids)

-- The node `c` has the parent `p` and the name `n`.
abbrev pub Stands : HashMap Node → ItemId → ItemId → Bytes → Type 0
Stands nodes c p n =
    (node : Node) × (Assoc.get c nodes ≡ some node) × (node.parent ≡ some p) × (node.name ≡ n)

-- Every entry of `kids` is the place of its node, and no set names two ids alike.
pub record IsLinked (idx : Index) : Type 0 where
  pub backed : (p n c : Bytes) → has idx.kids p (n, c) ≡ true → Stands idx.nodes c p n
  pub unique :
      (p n c d : Bytes) → has idx.kids p (n, c) ≡ true → has idx.kids p (n, d) ≡ true → c ≡ d

-- Every node with a parent has its entry there, but for the ids in `Q`.
abbrev pub Covered : (ItemId → Type 0) → Index → Type 0
Covered Q idx = (c p n : Bytes) → Stands idx.nodes c p n → (has idx.kids p (n, c) ≡ true) ⊎ Q c

-- The two directions together, for every id.
pub record IsConsistent (idx : Index) : Type 0 where
  pub linked : IsLinked idx
  pub covered : Covered (λ c. ⊥) idx

pub is_root_id_iff : (o : Option ItemId) (p : ItemId) → is_root_id o p ≡ true → o ≡ some p
unfolding is_root_id
is_root_id_iff none p h = cc
is_root_id_iff (some r) p h = ground (arith, bytes_eq_iff r p)

pub is_root_id_self : (p : ItemId) → is_root_id (some p) p ≡ true
unfolding is_root_id
is_root_id_self p = (bytes_eq_iff p p).1 refl

pub has-remove :
    (k p : ItemId) (q : Pair) (kids : HashMap PairSet)
    → has (Assoc.remove k kids) p q ≡ (if bytes_eq k p then false else has kids p q)
unfolding has
has-remove k p q kids = rw (Assoc.get-remove k p kids) (ground arith)

pub has-modify :
    (k p : ItemId) (x q : Pair) (kids : HashMap PairSet)
    → has (Assoc.modify k (PairSet.remove x) kids) p q
      ≡ (if bytes_eq k p && PairSet.pair_eq x q then false else has kids p q)
unfolding has Assoc.apply_at
has-modify k p x q kids =
    rw (Assoc.get-modify k p (PairSet.remove x) kids) (elim (Option-cases (Assoc.get p kids)) [
      | inl e ↦ rw e (ground arith)
      | inr (set, e) ↦ rw e (ground (arith, PairSet.contains-remove x q set))
    ])

pub has-detach :
    (node : Node) (id p : ItemId) (q : Pair) (kids : HashMap PairSet)
    → has (detach node id kids) p q ≡ (
        if is_root_id node.parent p && PairSet.pair_eq (node.name, id) q
        then false
        else has kids p q)
unfolding detach is_root_id
has-detach node id p q kids = elim (Option-cases node.parent) [
  | inl e ↦ rw (e, detach)
  | inr (pid, e) ↦ rw (e, detach) (has-modify pid p (node.name, id) q kids)
]

pub has-add_kid :
    (pid p : ItemId) (x q : Pair) (kids : HashMap PairSet)
    → has (add_kid pid x kids) p q
      ≡ (if bytes_eq pid p && PairSet.pair_eq x q then true else has kids p q)
unfolding has add_kid or_default PairSet.contains
has-add_kid pid p x q kids =
    rw (Assoc.get-insert pid p (PairSet.insert x (or_default (Assoc.get pid kids))) kids)
      (elim (Option-cases (Assoc.get pid kids)) [
        | inl e ↦ ground (arith, e, bytes_eq_iff pid p, PairSet.contains-insert x q [])
        | inr (set, e) ↦ ground (arith, e, bytes_eq_iff pid p, PairSet.contains-insert x q set)
      ])
