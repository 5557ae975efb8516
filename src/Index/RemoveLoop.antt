-- ===== src/Index/RemoveLoop.antt =====
-- The recursion of `Index::remove` (src/index.rs), a whole call at a time.
use mathlib.Core.Option.{some-injective}
use onedrive_davfs.Base.{
  ℕ, zero, suc, ◌≡◌, Option, none, some, Option-cases, subst, [], ◌∷◌, inl, inr, length, All,
}
use onedrive_davfs.Base.Map.Assoc
use onedrive_davfs.Base.Map.PairSet.{PairSet}
use onedrive_davfs.Index.State.{ItemId, Index}
use onedrive_davfs.Index.Remove.{forget_node, remove_each, remove_steps, remove}
use onedrive_davfs.Index.RemoveTotal.{remove_returns}
use onedrive_davfs.Index.RemoveLinks.{drop_kids, none-ne-some}

-- What the writes of one call do to `P`, for an id with no set of children.
abbrev pub Ends : (Index → Type 0) → Index → ItemId → Type 0
Ends P idx id = Assoc.get id (forget_node idx id).kids ≡ none → P (forget_node idx id)

-- The same for an id with a set of children, which are then the ids of further calls.
abbrev pub Goes : (Index → Type 0) → (ItemId → Type 0) → Index → ItemId → Type 0
Goes P V idx id =
    (children : PairSet)
    → Assoc.get id (forget_node idx id).kids ≡ some children
    → P (drop_kids (forget_node idx id) id) × All (λ q. V q.1) children

module _ (P : Index → Type 0) (V : ItemId → Type 0)
    (ends : (idx : Index) (id : ItemId) → V id → P idx → Ends P idx id)
    (goes : (idx : Index) (id : ItemId) → V id → P idx → Goes P V idx id) where
  each_keeps :
      (call : Index → ItemId → Option Index)
      → ((idx r : Index) (id : ItemId) → V id → P idx → call idx id ≡ some r → P r)
      → (children : PairSet) (idx r : Index) → All (λ q. V q.1) children
      → P idx
      → remove_each call children idx ≡ some r
      → P r
  unfolding remove_each
  each_keeps call h [] idx r all p e = subst P (some-injective idx r e) p
  each_keeps call h ((name, cid) ∷ children) idx r (v, all) p e =
      elim (Option-cases (call idx cid)) [
        | inl missing ↦ absurd (none-ne-some (rw (missing, remove_each) at e))
        | inr (idx', found) ↦
            each_keeps call h children idx' r all (h idx idx' cid v p found)
              (rw (found, remove_each) at e)
      ]

  first_call :
      (fuel : ℕ)
      → ((idx r : Index) (id : ItemId) → V id → P idx → remove_steps fuel idx id ≡ some r → P r)
      → (idx r : Index) (id : ItemId) → Ends P idx id
      → Goes P V idx id
      → remove_steps (suc fuel) idx id ≡ some r
      → P r
  unfolding remove_steps
  first_call fuel h idx r id end go e =
      let idx' = forget_node idx id in
      elim (Option-cases (Assoc.get id idx'.kids)) [
        | inl missing ↦
            subst P (some-injective idx' r (rw (missing, remove_steps) at e)) (end missing)
        | inr (children, found) ↦
            let (p, all) = go children found in
            each_keeps (remove_steps fuel) h children (drop_kids idx' id) r all p
              (rw (found, remove_steps) at e)
      ]

  steps_keep :
      (fuel : ℕ) (idx r : Index) (id : ItemId)
      → V id
      → P idx
      → remove_steps fuel idx id ≡ some r
      → P r
  steps_keep zero idx r id v p e = absurd (none-ne-some {r = r} (unfold remove_steps in e))
  steps_keep (suc fuel) idx r id v p e =
      first_call fuel (λ i j c. steps_keep fuel i j c) idx r id (ends idx id v p) (goes idx id v p)
        e

  -- What the first call makes true, and the further ones keep, holds at the end.
  pub remove_makes :
      (idx : Index) (id : ItemId) → Ends P idx id → Goes P V idx id → P (remove idx id)
  remove_makes idx id end go =
      first_call (length idx.kids) (steps_keep (length idx.kids)) idx (remove idx id) id end go
        (remove_returns idx id).0
