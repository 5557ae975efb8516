-- ===== src/Index/RemoveDeep.antt =====
-- What `Index::remove` (src/index.rs) keeps: every node with a parent has its entry there.
use mathlib.Core.Option.{some-injective}
use mathlib.Core.Bool.{false≢true}
use onedrive_davfs.Base.{
  ℕ, zero, suc, ◌≡◌, ◌≢◌, sym, ◌∙◌, true, Option, some, subst, Option-cases, Bool-cases, [], ◌∷◌,
  Bytes, bytes_eq, bytes_eq_iff, arith, inl, inr, ◌⊎◌, length,
}
use onedrive_davfs.Base.Map.Assoc
use onedrive_davfs.Base.Map.PairSet
use onedrive_davfs.Base.Map.PairSet.{Pair, PairSet}
use onedrive_davfs.Index.State.{ItemId, Index}
use onedrive_davfs.Index.Remove.{forget_node, remove_each, remove_steps, remove}
use onedrive_davfs.Index.RemoveTotal.{remove_returns}
use onedrive_davfs.Index.Links.{has, Covered, IsConsistent, has-remove, has-detach}
use onedrive_davfs.Index.RemoveLinks.{drop_kids, none-ne-some, get-forget_node, remove-IsLinked}

-- The ids that a set of entries names.
abbrev Among : ItemId → PairSet → Type 0
Among c [] = ⊥
Among c ((n, d) ∷ s) = (c ≡ d) ⊎ Among c s

contains→Among : (n c : Bytes) (s : PairSet) → PairSet.contains (n, c) s ≡ true → Among c s
unfolding PairSet.contains PairSet.pair_eq
contains→Among n c [] h = cc
contains→Among n c ((m, d) ∷ s) h =
    ground (arith, bytes_eq_iff m n, bytes_eq_iff d c, contains→Among n c s)

has-forget_other :
    (idx : Index) (id p n c : Bytes)
    → id ≢ c
    → has idx.kids p (n, c) ≡ true
    → has (forget_node idx id).kids p (n, c) ≡ true
unfolding forget_node
has-forget_other idx id p n c ne h = elim (Option-cases (Assoc.get id idx.nodes)) [
  | inl e ↦ rw (e, forget_node) h
  | inr (node, e) ↦
      rw (e, forget_node)
        (ground (
          arith,
          has-detach node id p (n, c) idx.kids,
          h,
          PairSet.pair_eq_iff (node.name, id) (n, c),
          ne,
        ))
]

Covered-weaken :
    (Q R : ItemId → Type 0) (idx : Index)
    → ((c : ItemId) → Q c → R c)
    → Covered Q idx
    → Covered R idx
Covered-weaken Q R idx h cov c p n st = elim (cov c p n st) [ inl e ↦ inl e | inr q ↦ inr (h c q) ]

no_child : (Q : ItemId → Type 0) (c : ItemId) → Among c [] ⊎ Q c → Q c
no_child Q c (inl never) = absurd never
no_child Q c (inr q) = q

first_child :
    (Q : ItemId → Type 0) (n d : Bytes) (s : PairSet) (c : ItemId)
    → Among c ((n, d) ∷ s) ⊎ Q c
    → (c ≡ d) ⊎ (Among c s ⊎ Q c)
first_child Q n d s c (inl (inl e)) = inl e
first_child Q n d s c (inl (inr m)) = inr (inl m)
first_child Q n d s c (inr q) = inr (inr q)

module _ (Q : ItemId → Type 0) where
  Covered-forget_node :
      (idx : Index) (id : ItemId)
      → Covered (λ c. (c ≡ id) ⊎ Q c) idx
      → Covered Q (forget_node idx id)
  Covered-forget_node idx id cov c p n (node, found, parent, name) =
      elim (Bool-cases (bytes_eq id c)) [
        | inl same ↦ absurd (ground (arith, get-forget_node idx id c, same, found))
        | inr other ↦
            let kept : Assoc.get c idx.nodes ≡ some node =
              ground (arith, get-forget_node idx id c, other, found) in
            let ne : id ≢ c = λ e. false≢true (sym other ∙ (bytes_eq_iff id c).1 e) in
            elim (cov c p n (node, kept, parent, name)) [
              | inl h ↦ inl (has-forget_other idx id p n c ne h)
              | inr (inl e) ↦ absurd (ne (sym e))
              | inr (inr q) ↦ inr q
            ]
      ]

  Covered-drop_kids :
      (idx : Index) (id : ItemId) (children : PairSet)
      → Assoc.get id idx.kids ≡ some children
      → Covered Q idx
      → Covered (λ c. Among c children ⊎ Q c) (drop_kids idx id)
  unfolding has
  Covered-drop_kids idx id children found cov c p n st = elim (cov c p n st) [
    | inr q ↦ inr (inr q)
    | inl h ↦ elim (Bool-cases (bytes_eq id p)) [
      | inl same ↦
          let among : PairSet.contains (n, c) children ≡ true =
            ground (arith, h, same, bytes_eq_iff id p, found) in
          inr (inl (contains→Among n c children among))
      | inr other ↦ inl (ground (arith, has-remove id p (n, c) idx.kids, h, other))
    ]
  ]

-- One call takes its id off the list of those that have lost their entry.
remove_each_covers :
    (call : Index → ItemId → Option Index)
    → ((Q : ItemId → Type 0) (idx r : Index) (id : ItemId)
        → Covered (λ c. (c ≡ id) ⊎ Q c) idx
        → call idx id ≡ some r
        → Covered Q r)
    → (Q : ItemId → Type 0) (children : PairSet) (idx r : Index)
    → Covered (λ c. Among c children ⊎ Q c) idx
    → remove_each call children idx ≡ some r
    → Covered Q r
unfolding remove_each
remove_each_covers call h Q [] idx r cov e =
    subst (Covered Q) (some-injective idx r e) (Covered-weaken _ Q idx (no_child Q) cov)
remove_each_covers call h Q ((name, cid) ∷ children) idx r cov e =
    elim (Option-cases (call idx cid)) [
      | inl missing ↦ absurd (none-ne-some (rw (missing, remove_each) at e))
      | inr (idx', found) ↦
          remove_each_covers call h Q children idx' r
            (h (λ c. Among c children ⊎ Q c) idx idx' cid
              (Covered-weaken _ _ idx (first_child Q name cid children) cov) found)
            (rw (found, remove_each) at e)
    ]

remove_steps_covers :
    (fuel : ℕ) (Q : ItemId → Type 0) (idx r : Index) (id : ItemId)
    → Covered (λ c. (c ≡ id) ⊎ Q c) idx
    → remove_steps fuel idx id ≡ some r
    → Covered Q r
unfolding remove_steps
remove_steps_covers zero Q idx r id cov e = absurd (none-ne-some e)
remove_steps_covers (suc fuel) Q idx r id cov e =
    let idx' = forget_node idx id in
    elim (Option-cases (Assoc.get id idx'.kids)) [
      | inl missing ↦
          subst (Covered Q) (some-injective idx' r (rw (missing, remove_steps) at e))
            (Covered-forget_node Q idx id cov)
      | inr (children, found) ↦
          remove_each_covers (remove_steps fuel) (remove_steps_covers fuel) Q children
            (drop_kids idx' id) r
            (Covered-drop_kids Q idx' id children found (Covered-forget_node Q idx id cov))
            (rw (found, remove_steps) at e)
    ]

-- Nodes that have no entry before, other than `id` itself, are the only ones without one after.
pub remove_covers :
    (Q : ItemId → Type 0) (idx : Index) (id : ItemId)
    → Covered (λ c. (c ≡ id) ⊎ Q c) idx
    → Covered Q (remove idx id)
remove_covers Q idx id cov =
    remove_steps_covers (suc (length idx.kids)) Q idx (remove idx id) id cov
      (remove_returns idx id).0

-- `Index::remove` keeps an index consistent: every entry of `kids` is the place of its node, no two ids
-- share a name in a directory, and every node with a parent has its entry there.
pub remove-IsConsistent :
    (idx : Index) (id : ItemId) → IsConsistent idx → IsConsistent (remove idx id)
remove-IsConsistent idx id ok = record {
  linked = remove-IsLinked idx id ok.linked;
  covered =
      remove_covers (λ c. ⊥) idx id
        (λ c p n st. elim (ok.covered c p n st) [ inl h ↦ inl h | inr never ↦ absurd never ]);
}
