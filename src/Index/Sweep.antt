-- ===== src/Index/Sweep.antt =====
-- `sweep_orphans` (src/index.rs) keeps exactly the nodes that its bounded walk takes to the root.
use mathlib.Core.Bool.{false≢true}
use onedrive_davfs.Base.{
  ℕ, zero, suc, ◌<◌, ◌≡◌, ◌↔◌, refl, sym, ◌∙◌, Bool, true, not, ◌&&◌, Option, none, some,
  Option-cases, Bool-cases, List, [], ◌∷◌, Bytes, bytes_eq, bytes_eq_iff, arith, inl, inr, keep,
  if◌then◌else◌, subst,
}
use onedrive_davfs.Base.Map.Assoc
use onedrive_davfs.Base.Map.Assoc.{HashMap}
use onedrive_davfs.Base.Map.PairSet
use onedrive_davfs.Base.Map.PairSet.{Pair, PairSet}
use onedrive_davfs.Index.State.{ItemId, Node, Index}
use onedrive_davfs.Index.Query.{
  max_depth, parent_of, reaches, listed, reachable, drop_keys, retain_kids, sweep_from,
  sweep_orphans,
}
use onedrive_davfs.Index.Links.{has}

-- `c` lies `k` parent links below `root`.
pub data Below (nodes : HashMap Node) (root : ItemId) : ℕ → ItemId → Type 0 where
  top : Below nodes root 0 root
  under :
      {k : ℕ} {c p : ItemId}
      → parent_of nodes c ≡ some p
      → Below nodes root k p
      → Below nodes root (suc k) c

module _ (nodes : HashMap Node) (root : ItemId) where
  reaches-Below :
      (n : ℕ) (c : ItemId)
      → reaches nodes root n c ≡ true
      → (k : ℕ) × (k < n) × Below nodes root k c
  unfolding reaches
  reaches-Below zero c h = absurd (false≢true h)
  reaches-Below (suc n) c h = elim (Bool-cases (bytes_eq c root)) [
    | inl same ↦
        (0, omega arith, subst (Below nodes root 0) (sym ((bytes_eq_iff c root).0 same)) top)
    | inr other ↦ elim (Option-cases (parent_of nodes c)) [
      | inl orphan ↦ absurd (false≢true (rw (other, orphan, reaches) at h))
      | inr (p, up) ↦
          let (k, lt, b) = reaches-Below n p (rw (other, up, reaches) at h) in
          (suc k, omega arith, under up b)
    ]
  ]

  Below-reaches :
      (n k : ℕ) (c : ItemId) → Below nodes root k c → k < n → reaches nodes root n c ≡ true
  unfolding reaches
  Below-reaches zero k c b lt = absurd (omega arith)
  Below-reaches (suc n) k c top lt = ground (arith, bytes_eq_iff root root)
  Below-reaches (suc n) (suc k) c (under {p = p} up b) lt =
      ground (arith, up, Below-reaches n k p b)

module _ {ℓ} {V : Type ℓ} where
  get-drop_keys :
      (ids : List ItemId) (c : ItemId) (m : HashMap V)
      → Assoc.get c (drop_keys ids m) ≡ (if listed c ids then none else Assoc.get c m)
  unfolding drop_keys listed
  get-drop_keys [] c m = refl
  get-drop_keys (id ∷ ids) c m =
      rw (get-drop_keys ids c (Assoc.remove id m)) (ground (arith, Assoc.get-remove id c m))

  listed-keys :
      (c : ItemId) (m : HashMap V) {v : V} → Assoc.get c m ≡ some v → listed c (Assoc.keys m) ≡ true
  unfolding listed Assoc.get Assoc.keys
  listed-keys c [] h = cc
  listed-keys c ((j, w) ∷ m) {v} h = ground (arith, listed-keys c m {v = v})

  keys-listed :
      (c : ItemId) (m : HashMap V)
      → listed c (Assoc.keys m) ≡ true
      → (v : V) × (Assoc.get c m ≡ some v)
  unfolding listed Assoc.get Assoc.keys
  keys-listed c [] h = absurd (false≢true h)
  keys-listed c ((j, w) ∷ m) h = elim (Bool-cases (bytes_eq j c)) [
    | inl e ↦ (w, rw e)
    | inr e ↦ let (v, found) = keys-listed c m (rw e at h) in (v, rw e found)
  ]

listed-keep :
    (t : ItemId → Bool) (c : ItemId) (xs : List ItemId)
    → listed c (keep t xs) ≡ (listed c xs && t c)
unfolding listed
listed-keep t c [] = refl
listed-keep t c (x ∷ xs) = ground (arith, listed-keep t c xs, bytes_eq_iff x c)

contains-keep :
    (t : Pair → Bool) (q : Pair) (s : PairSet)
    → PairSet.contains q (keep t s) ≡ (PairSet.contains q s && t q)
unfolding PairSet.contains
contains-keep t q [] = refl
contains-keep t q (x ∷ s) = ground (arith, contains-keep t q s, PairSet.pair_eq_iff x q)

kept_of : List ItemId → Option PairSet → Option PairSet
kept_of ids none = none
kept_of ids (some set) = some (keep (λ p. listed p.1 ids) set)

get-retain :
    (ids : List ItemId) (p : ItemId) (kids : HashMap PairSet)
    → Assoc.get p (retain_kids ids kids)
      ≡ (if listed p ids then kept_of ids (Assoc.get p kids) else none)
unfolding retain_kids kept_of Assoc.get
get-retain ids p [] = ground arith
get-retain ids p ((j, set) ∷ kids) = ground (arith, get-retain ids p kids, bytes_eq_iff j p)

module _ (idx : Index) (root : ItemId) where
  -- Membership in the list of ids that `sweep_orphans` collects.
  abbrev live : ItemId → Bool
  live c = listed c (reachable idx root)

  live-of_node :
      (c : ItemId) {node : Node}
      → Assoc.get c idx.nodes ≡ some node
      → live c ≡ reaches idx.nodes root max_depth c
  unfolding reachable
  live-of_node c found =
      rw (listed-keep (reaches idx.nodes root max_depth) c (Assoc.keys idx.nodes))
        (rw (listed-keys c idx.nodes found))

  get-dead :
      (c : ItemId) {node : Node}
      → Assoc.get c idx.nodes ≡ some node
      → listed c (keep (λ id. not (live id)) (Assoc.keys idx.nodes))
        ≡ not (reaches idx.nodes root max_depth c)
  get-dead c found =
      rw (listed-keep (λ id. not (live id)) c (Assoc.keys idx.nodes))
        (rw (listed-keys c idx.nodes found, live-of_node c found))

  get-sweep :
      (c : ItemId)
      → Assoc.get c (sweep_from idx root).nodes
        ≡ (if reaches idx.nodes root max_depth c then Assoc.get c idx.nodes else none)
  unfolding sweep_from
  get-sweep c =
      rw (get-drop_keys (keep (λ id. not (live id)) (Assoc.keys idx.nodes)) c idx.nodes)
        (elim (Option-cases (Assoc.get c idx.nodes)) [
          | inl e ↦ rw e (ground arith)
          | inr (node, e) ↦ rw (get-dead c e) (ground arith)
        ])

  has-sweep :
      (p n c : Bytes)
      → has (sweep_from idx root).kids p (n, c) ≡ (live p && (live c && has idx.kids p (n, c)))
  unfolding sweep_from has kept_of
  has-sweep p n c = rw (get-retain (reachable idx root) p (drop_keys _ idx.kids)) (
      rw (get-drop_keys (keep (λ id. not (live id)) (Assoc.keys idx.nodes)) p idx.kids)
        (elim (Bool-cases (live p)) [
          | inl alive ↦
              rw (listed-keep (λ id. not (live id)) p (Assoc.keys idx.nodes))
                (elim (Option-cases (Assoc.get p idx.kids)) [
                  | inl e ↦ ground (arith, e, alive)
                  | inr (set, e) ↦ ground (
                    arith,
                    e,
                    alive,
                    contains-keep (λ q. listed q.1 (reachable idx root)) (n, c) set,
                  )
                ])
          | inr dead ↦ rw dead
        ]))

  -- A node at fewer than 64 parent links below the root.
  abbrev pub Survives : ItemId → Type 0
  Survives c =
      (node : Node) × (Assoc.get c idx.nodes ≡ some node)
      × (k : ℕ) × (k < max_depth)
      × Below idx.nodes root k c

  live_iff : (c : ItemId) → (live c ≡ true) ↔ Survives c
  unfolding reachable
  live_iff c = (to, back)
    where
      parts :
          live c ≡ true
          → (listed c (Assoc.keys idx.nodes) ≡ true) × (reaches idx.nodes root max_depth c ≡ true)
      parts h =
          let e = listed-keep (reaches idx.nodes root max_depth) c (Assoc.keys idx.nodes) in
          ground (arith, h, e)

      to : live c ≡ true → Survives c
      to h =
          let (key, up) = parts h in
          let (node, found) = keys-listed c idx.nodes key in
          let (k, lt, b) = reaches-Below idx.nodes root max_depth c up in (node, found, k, lt, b)

      back : Survives c → live c ≡ true
      back (node, found, k, lt, b) =
          live-of_node c found ∙ Below-reaches idx.nodes root max_depth k c b lt

-- With a root recorded, `sweep_orphans` keeps a node, unchanged, exactly when it lies fewer than 64
-- parent links below the root.
pub sweep_nodes :
    (idx : Index) (root c : ItemId) (node : Node)
    → idx.root ≡ some root
    → (Assoc.get c (sweep_orphans idx).nodes ≡ some node)
      ↔ ((Assoc.get c idx.nodes ≡ some node) × (k : ℕ) × (k < max_depth) × Below idx.nodes root k c)
unfolding sweep_orphans
sweep_nodes idx root c node at_root = (
  λ h.
      let h' = rw (at_root, sweep_orphans) at h in
      let kept : (Assoc.get c idx.nodes ≡ some node) × (reaches idx.nodes root max_depth c ≡ true) =
        ground (arith, get-sweep idx root c, h') in
      let (k, lt, b) = reaches-Below idx.nodes root max_depth c kept.1 in (kept.0, k, lt, b),
  λ (found, k, lt, b).
      let up = Below-reaches idx.nodes root max_depth k c b lt in
      rw (at_root, sweep_orphans) (ground (arith, get-sweep idx root c, up, found)),
)

-- With a root recorded, `sweep_orphans` keeps an entry of `kids` exactly when the directory and the
-- child are both nodes that it keeps.
pub sweep_kids :
    (idx : Index) (root p n c : Bytes)
    → idx.root ≡ some root
    → (has (sweep_orphans idx).kids p (n, c) ≡ true)
      ↔ ((has idx.kids p (n, c) ≡ true) × Survives idx root p × Survives idx root c)
unfolding sweep_orphans
sweep_kids idx root p n c at_root = (
  λ h.
      let h' = rw (at_root, sweep_orphans) at h in
      let kept : (live idx root p ≡ true)
          × (live idx root c ≡ true)
          × (has idx.kids p (n, c) ≡ true) =
        ground (arith, has-sweep idx root p n c, h') in
      (kept.2, (live_iff idx root p).0 kept.0, (live_iff idx root c).0 kept.1),
  λ (there, sp, sc).
      let lp = (live_iff idx root p).1 sp in
      let lc = (live_iff idx root c).1 sc in
      rw (at_root, sweep_orphans) (ground (arith, has-sweep idx root p n c, lp, lc, there)),
)
