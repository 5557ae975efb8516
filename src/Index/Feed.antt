-- ===== src/Index/Feed.antt =====
-- The index after a whole feed of delta items, from an empty one (src/index.rs, src/sync.rs).
use mathlib.Core.List.{foldl}
use mathlib.Core.Bool.{false≢true}
use onedrive_davfs.Base.{
  ◌≡◌, ◌≢◌, refl, ap, Bool, true, false, Option-cases, Bool-cases, List, [], ◌∷◌, Bytes, arith, inl,
  inr, All, find, sym, ◌∙◌,
}
use onedrive_davfs.Base.Str.{is_empty}
use onedrive_davfs.Base.Map.Assoc
use onedrive_davfs.Base.Map.PairSet
use onedrive_davfs.Base.Map.PairSet.{Pair, PairSet}
use onedrive_davfs.Index.State.{ItemId, Index, DeltaItem, default}
use onedrive_davfs.Index.Apply.{
  detach_moved, clashes, drop_found, drop_clash, link, place, set_root, apply,
}
use onedrive_davfs.Index.Links.{has, IsConsistent, has-add_kid}
use onedrive_davfs.Index.RemoveLinks.{has-remove_id}
use onedrive_davfs.Index.ApplyLinks.{has-detach_moved}
use onedrive_davfs.Index.ApplyConsistent.{apply-IsConsistent}

-- No directory has an entry for `r`.
abbrev pub NoEntry : ItemId → Index → Type 0
NoEntry r idx = (p n : Bytes) → has idx.kids p (n, r) ≡ false

-- The drive's root has the id `r`, and no other item does.
abbrev pub KnowsRoot : ItemId → DeltaItem → Type 0
KnowsRoot r it = (it.is_root ≡ true → it.id ≡ r) × (it.is_root ≡ false → it.id ≢ r)

has-drop_clash :
    (idx : Index) (it : DeltaItem) (pid p : ItemId) (q : Pair)
    → has (drop_clash idx it pid).kids p q ≡ true
    → has idx.kids p q ≡ true
unfolding drop_clash drop_found
has-drop_clash idx it pid p q h = elim (Option-cases (Assoc.get pid idx.kids)) [
  | inl e ↦ rw (e, drop_clash) at h
  | inr (set, e) ↦
      let h' = rw (e, drop_clash) at h in
      elim (Option-cases (find (clashes it) set)) [
        | inl missing ↦ rw (missing, drop_found) at h'
        | inr ((name, cid), found) ↦ has-remove_id idx cid p q (rw (found, drop_found) at h')
      ]
]

-- `place` adds no entry but the item's.
has-place :
    (idx : Index) (it : DeltaItem) (pid p n c : Bytes)
    → it.id ≢ c
    → has (place idx it pid).kids p (n, c) ≡ true
    → has idx.kids p (n, c) ≡ true
unfolding place link
has-place idx it pid p n c ne h =
    let mid = drop_clash (detach_moved idx it pid) it pid in
    let before : has mid.kids p (n, c) ≡ true = ground (
      arith,
      h,
      ne,
      has-add_kid pid p (it.name, it.id) (n, c) mid.kids,
      PairSet.pair_eq_iff (it.name, it.id) (n, c),
    ) in
    has-detach_moved idx it pid p (n, c)
      (has-drop_clash (detach_moved idx it pid) it pid p (n, c) before)

false_of_ne_true : (b : Bool) → b ≢ true → b ≡ false
false_of_ne_true true h = absurd (h refl)
false_of_ne_true false h = refl

apply-NoEntry :
    (r : ItemId) (idx : Index) (it : DeltaItem)
    → KnowsRoot r it
    → NoEntry r idx
    → NoEntry r (apply idx it)
unfolding apply set_root
apply-NoEntry r idx it (_, other) no_entry p n =
    false_of_ne_true _ λ h. false≢true (sym (no_entry p n) ∙ before h)
  where
    before : has (apply idx it).kids p (n, r) ≡ true → has idx.kids p (n, r) ≡ true
    before h = elim (Bool-cases (is_empty it.id)) [
      | inl e ↦ rw e at h
      | inr e ↦ elim (Bool-cases it.deleted) [
        | inl d ↦ has-remove_id idx it.id p (n, r) (rw (e, d) at h)
        | inr d ↦ elim (Bool-cases it.is_root) [
          | inl t ↦ rw (e, d, t) at h
          | inr f ↦ elim (Option-cases it.parent_id) [
            | inl missing ↦ rw (missing, apply) at (rw (e, d, f) at h)
            | inr (pid, given) ↦
                has-place idx it pid p n r (other f) (rw (given, apply) at (rw (e, d, f) at h))
          ]
        ]
      ]
    ]

pub default-IsConsistent : IsConsistent default
unfolding has Assoc.get
default-IsConsistent = record {
  linked = record { backed = λ p n c h. cc; unique = λ p n c d h k. cc };
  covered = λ c p n st. let (node, found, _, _) = st in cc;
}

default-NoEntry : (r : ItemId) → NoEntry r default
unfolding has Assoc.get
default-NoEntry r p n = refl

feed_keeps :
    (r : ItemId) (items : List DeltaItem) (idx : Index)
    → All (KnowsRoot r) items
    → IsConsistent idx
    → NoEntry r idx
    → IsConsistent (foldl apply idx items)
feed_keeps r [] idx _ ok _ = ok
feed_keeps r (it ∷ items) idx (knows, rest) ok no_entry =
    feed_keeps r items (apply idx it) rest
      (apply-IsConsistent idx it ok
        (λ root p n. ap (λ x. has idx.kids p (n, x)) (knows.0 root) ∙ no_entry p n))
      (apply-NoEntry r idx it knows no_entry)

-- However the items of a crawl are ordered, repeated, moved or deleted, the index that `apply` builds
-- from nothing is consistent, if one id is the drive's root throughout.
pub feed-IsConsistent :
    (r : ItemId) (items : List DeltaItem)
    → All (KnowsRoot r) items
    → IsConsistent (foldl apply default items)
feed-IsConsistent r items h = feed_keeps r items default h default-IsConsistent (default-NoEntry r)
