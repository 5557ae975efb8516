-- ===== src/Index/RemoveExact.antt =====
-- Which nodes `Index::remove` (src/index.rs) takes out: the subtree of its id, and no others.
use mathlib.Core.Option.{some-injective}
use onedrive_davfs.Base.{
  ◌≡◌, ◌≢◌, refl, sym, ◌∙◌, true, false, none, some, Option-cases, Bool-cases, subst, [], ◌∷◌,
  Bytes, bytes_eq, bytes_eq_iff, arith, inl, inr, ◌⊎◌, All,
}
use onedrive_davfs.Base.Map.Assoc
use onedrive_davfs.Base.Map.Assoc.{HashMap}
use onedrive_davfs.Base.Map.PairSet
use onedrive_davfs.Base.Map.PairSet.{Pair, PairSet}
use onedrive_davfs.Index.State.{ItemId, Node, Index}
use onedrive_davfs.Index.Remove.{forget_node, remove}
use onedrive_davfs.Index.Links.{has, IsConsistent, has-remove}
use onedrive_davfs.Index.RemoveLinks.{
  drop_kids, has-forget_node, get-forget_node, get-remove_id, get-remove_self,
}
use onedrive_davfs.Index.RemoveLoop.{Ends, Goes, remove_makes}
use onedrive_davfs.Index.RemoveDeep.{remove-IsConsistent}

-- The ids that are reached from `id` by the entries of `kids`.
pub data Under (kids : HashMap PairSet) (id : ItemId) : ItemId → Type 0 where
  itself : Under kids id id
  child : {p : ItemId} (n c : Bytes) → Under kids id p → has kids p (n, c) ≡ true → Under kids id c

-- `after` is `idx` less the subtree of `id`.
pub record IsRemoval (idx : Index) (id : ItemId) (after : Index) : Type 0 where
  pub consistent : IsConsistent after
  pub taken : (c : ItemId) → Under idx.kids id c → Assoc.get c after.nodes ≡ none
  pub left : (c : ItemId) → (Assoc.get c after.nodes ≡ Assoc.get c idx.nodes) ⊎ Under idx.kids id c

each_in_set :
    (V : ItemId → Type 0) (s : PairSet)
    → ((n c : Bytes) → PairSet.contains (n, c) s ≡ true → V c)
    → All (λ q. V q.1) s
unfolding PairSet.contains
each_in_set V [] h = tt
each_in_set V ((n, c) ∷ s) h = (
  h n c (ground (arith, PairSet.pair_eq_iff (n, c) (n, c))),
  each_in_set V s (λ m d e. h m d (ground (arith, e))),
)

abbrev NoKids : ItemId → Index → Type 0
NoKids c idx = (q : Pair) → has idx.kids c q ≢ true

no_set : (idx : Index) (id : ItemId) → Assoc.get id idx.kids ≡ none → NoKids id idx
unfolding has
no_set idx id e q h = ground (arith, e, h)

NoKids-dropped : (idx : Index) (id : ItemId) → NoKids id (drop_kids idx id)
NoKids-dropped idx id q h = ground (arith, has-remove id id q idx.kids, bytes_eq_iff id id, h)

NoKids-forget_node : (idx : Index) (id c : ItemId) → NoKids c idx → NoKids c (forget_node idx id)
NoKids-forget_node idx id c h q e = h q (has-forget_node idx id c q e)

NoKids-drop_kids : (idx : Index) (id c : ItemId) → NoKids c idx → NoKids c (drop_kids idx id)
NoKids-drop_kids idx id c h q e = h q (ground (arith, has-remove id c q idx.kids, e))

abbrev Anything : ItemId → Type 0
Anything c = Unit {0}

any_named : (s : PairSet) → All (λ q. Anything q.1) s
any_named s = each_in_set Anything s (λ _ _ _. tt)

-- The removed id has no entries afterwards.
remove-NoKids : (idx : Index) (id : ItemId) → NoKids id (remove idx id)
remove-NoKids idx id =
    remove_makes (NoKids id) Anything (λ r c v h missing. NoKids-forget_node r c id h)
      (λ r c v h s found.
        (NoKids-drop_kids (forget_node r c) c id (NoKids-forget_node r c id h), any_named s))
      idx id (no_set (forget_node idx id) id)
      (λ s found. (NoKids-dropped (forget_node idx id) id, any_named s))

-- A node is there still, or its own call has taken its entries.
module _ (c : ItemId) (node : Node) where
  abbrev Kept : Index → Type 0
  Kept idx = (Assoc.get c idx.nodes ≡ some node) ⊎ NoKids c idx

  Kept-Ends : (idx : Index) (id : ItemId) → Kept idx → Ends Kept idx id
  Kept-Ends idx id (inr h) missing = inr (NoKids-forget_node idx id c h)
  Kept-Ends idx id (inl e) missing = elim (Bool-cases (bytes_eq id c)) [
    | inl same ↦ inr (
        subst (λ x. NoKids x (forget_node idx id)) ((bytes_eq_iff id c).0 same)
          (no_set (forget_node idx id) id missing))
    | inr other ↦ inl (ground (arith, get-forget_node idx id c, other, e))
  ]

  Kept-Goes : (idx : Index) (id : ItemId) → Kept idx → Goes Kept Anything idx id
  Kept-Goes idx id (inr h) s found = (
    inr (NoKids-drop_kids (forget_node idx id) id c (NoKids-forget_node idx id c h)),
    any_named s,
  )
  Kept-Goes idx id (inl e) s found = elim (Bool-cases (bytes_eq id c)) [
    | inl same ↦ (
      inr (
          subst (λ x. NoKids x (drop_kids (forget_node idx id) id)) ((bytes_eq_iff id c).0 same)
            (NoKids-dropped (forget_node idx id) id)),
      any_named s,
    )
    | inr other ↦ (inl (ground (arith, get-forget_node idx id c, other, e)), any_named s)
  ]

  remove-Kept :
      (idx : Index) (id : ItemId) → Assoc.get c idx.nodes ≡ some node → Kept (remove idx id)
  remove-Kept idx id e =
      remove_makes Kept Anything (λ r i v h. Kept-Ends r i h) (λ r i v h. Kept-Goes r i h) idx id
        (Kept-Ends idx id (inl e)) (Kept-Goes idx id (inl e))

-- Every id of the subtree has neither a node nor entries afterwards.
gone :
    (idx : Index) (id c : ItemId)
    → IsConsistent idx
    → Under idx.kids id c
    → (Assoc.get c (remove idx id).nodes ≡ none) × NoKids c (remove idx id)
gone idx id c ok itself = (get-remove_self idx id, remove-NoKids idx id)
gone idx id c ok (child {p} n d up h) =
    let (_, empty) = gone idx id p ok up in
    let (node, found, parent, name) = ok.linked.backed p n d h in
    let after = remove idx id in
    let out : Assoc.get d after.nodes ≡ none = elim (Option-cases (Assoc.get d after.nodes)) [
      | inl e ↦ e
      | inr (other, e) ↦
          let same : other ≡ node =
            some-injective other node (sym (get-remove_id idx id d other e) ∙ found) in
          elim ((remove-IsConsistent idx id ok).covered d p n
            (node, subst (λ x. Assoc.get d after.nodes ≡ some x) same e, parent, name)) [
              | inl entry ↦ absurd (empty (n, d) entry)
              | inr never ↦ absurd never
            ]
    ] in
    elim (remove-Kept d node idx id found) [ inl e ↦ absurd (cc) | inr h' ↦ (out, h') ]

-- Away from the subtree, every node is as it was.
module _ (idx : Index) (id : ItemId) where
  abbrev Untouched : Index → Type 0
  Untouched r =
      ((c : ItemId) → (Assoc.get c r.nodes ≡ Assoc.get c idx.nodes) ⊎ Under idx.kids id c)
      × ((p : ItemId) (q : Pair) → has r.kids p q ≡ true → has idx.kids p q ≡ true)

  Untouched-forget_node :
      (r : Index) (i : ItemId) → Under idx.kids id i → Untouched r → Untouched (forget_node r i)
  Untouched-forget_node r i under (nodes, kids) = (
    λ c. elim (Bool-cases (bytes_eq i c)) [
      | inl same ↦ inr (subst (Under idx.kids id) ((bytes_eq_iff i c).0 same) under)
      | inr other ↦ elim (nodes c) [ inr u ↦ inr u | inl e ↦ inl (forgotten r i c other ∙ e) ]
    ],
    λ p q e. kids p q (has-forget_node r i p q e),
  )
    where
      forgotten :
          (r : Index) (i c : ItemId)
          → bytes_eq i c ≡ false
          → Assoc.get c (forget_node r i).nodes ≡ Assoc.get c r.nodes
      forgotten r i c other = get-forget_node r i c ∙ rw other refl

  Untouched-Goes :
      (r : Index) (i : ItemId)
      → Under idx.kids id i
      → Untouched r
      → Goes Untouched (Under idx.kids id) r i
  Untouched-Goes r i under h s found =
      let (nodes, kids) = Untouched-forget_node r i under h in
      (
        (nodes, λ p q e. kids p q (ground (arith, has-remove i p q (forget_node r i).kids, e))),
        each_in_set (Under idx.kids id) s (λ n c e.
            child n c under (kids i (n, c) (in_found (forget_node r i).kids i (n, c) s found e))),
      )
    where
      in_found :
          (k : HashMap PairSet) (i : ItemId) (q : Pair) (s : PairSet)
          → Assoc.get i k ≡ some s
          → PairSet.contains q s ≡ true
          → has k i q ≡ true
      in_found k i q s found e = unfold has in rw found e

  remove-Untouched : Untouched (remove idx id)
  remove-Untouched =
      let before : Untouched idx = (λ c. inl refl, λ p q e. e) in
      remove_makes Untouched (Under idx.kids id)
        (λ r i under h missing. Untouched-forget_node r i under h) Untouched-Goes idx id
        (λ missing. Untouched-forget_node idx id itself before)
        (Untouched-Goes idx id itself before)

-- `Index::remove` of a consistent index takes out the node of `id` and of every id that is reached from it
-- by the entries of `kids`, however deep, leaves every other node as it is, and the index consistent.
pub remove-IsRemoval :
    (idx : Index) (id : ItemId) → IsConsistent idx → IsRemoval idx id (remove idx id)
remove-IsRemoval idx id ok = record {
  consistent = remove-IsConsistent idx id ok;
  taken = λ c under. (gone idx id c ok under).0;
  left = (remove-Untouched idx id).0;
}
