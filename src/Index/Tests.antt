-- ===== src/Index/Tests.antt =====
-- The index on a drive of three items: a root, a folder `docs` and a file `a` in it.
use mathlib.Core.List.{foldl}
use onedrive_davfs.Base.{
  ◌≡◌, refl, sym, subst, true, false, none, some, List, [], ◌∷◌, ◌↔◌, ◌<◌, Bytes, codes, bytes_eq,
  bytes_eq_iff, ◌≢◌, ◌⊎◌, ℕ, arith, inl, inr, All,
}
use onedrive_davfs.Base.Map.Assoc
use onedrive_davfs.Base.Map.PairSet
use onedrive_davfs.Index.State.{ItemId, ItemMeta, Node, Index, DeltaItem, default}
use onedrive_davfs.Index.PathSegments.{IsSegment}
use onedrive_davfs.Index.Remove.{remove}
use onedrive_davfs.Index.Apply.{apply}
use onedrive_davfs.Index.Query.{max_depth, path_steps, path_of, resolve, sweep_orphans}
use onedrive_davfs.Index.Links.{has, Stands, IsConsistent}
use onedrive_davfs.Index.RemoveExact.{IsRemoval, remove-IsRemoval}
use onedrive_davfs.Index.ApplyConsistent.{apply-IsConsistent}
use onedrive_davfs.Index.Feed.{KnowsRoot, feed-IsConsistent}
use onedrive_davfs.Index.Resolve.{IsRooted, resolve-path_of}
use onedrive_davfs.Index.Sweep.{Below, Survives, sweep_nodes, sweep_kids}

abbrev folder : ItemMeta
folder = record { is_dir = true; size = 0; mtime = 1; etag = codes "e" }

abbrev plain : ItemMeta
plain = record { is_dir = false; size = 5; mtime = 2; etag = codes "f" }

abbrev drive_item : DeltaItem
drive_item = record {
  id = codes "r";
  parent_id = none;
  name = codes "root";
  deleted = false;
  is_root = true;
  meta = folder;
}

abbrev docs_item : DeltaItem
docs_item = record {
  id = codes "d";
  parent_id = some (codes "r");
  name = codes "docs";
  deleted = false;
  is_root = false;
  meta = folder;
}

abbrev file_item : DeltaItem
file_item = record {
  id = codes "f";
  parent_id = some (codes "d");
  name = codes "a";
  deleted = false;
  is_root = false;
  meta = plain;
}

-- The file comes before its folder.
abbrev feed : List DeltaItem
feed = file_item ∷ drive_item ∷ docs_item ∷ []

abbrev drive : Index
drive = record {
  nodes =
      (codes "f", record { parent = some (codes "d"); name = codes "a"; meta = plain })
      ∷ (codes "r", record { parent = none; name = codes "root"; meta = folder })
      ∷ (codes "d", record { parent = some (codes "r"); name = codes "docs"; meta = folder })
      ∷ [];
  kids =
      (codes "d", (codes "a", codes "f") ∷ []) ∷ (codes "r", (codes "docs", codes "d") ∷ []) ∷ [];
  root = some (codes "r");
  delta_token = none;
  pending_next_link = none;
  crawl_complete = false;
  generation = 0;
}

feed_gives : foldl apply default feed ≡ drive
unfolding apply Assoc.insert Assoc.get bytes_eq PairSet.insert
feed_gives = refl

differ : (a b : Bytes) → bytes_eq a b ≡ false → a ≢ b
differ a b h = λ e. absurd (ground (arith, e, h, bytes_eq_iff a b))

knows_root : All (KnowsRoot (codes "r")) feed
unfolding bytes_eq
knows_root = (
  (λ e. absurd (cc), λ _. differ (codes "f") (codes "r") refl),
  (
    (λ _. refl, λ e. absurd (cc)),
    ((λ e. absurd (cc), λ _. differ (codes "d") (codes "r") refl), tt),
  ),
)

feed-IsConsistent_example : IsConsistent (foldl apply default feed)
feed-IsConsistent_example = feed-IsConsistent (codes "r") feed knows_root

drive-IsConsistent : IsConsistent drive
drive-IsConsistent = subst (λ i. IsConsistent i) feed_gives feed-IsConsistent_example

-- The folder moves onto the name of another item.
abbrev moved_item : DeltaItem
moved_item = record {
  id = codes "f";
  parent_id = some (codes "r");
  name = codes "docs";
  deleted = false;
  is_root = false;
  meta = plain;
}

apply-IsConsistent_example : IsConsistent (apply drive moved_item)
apply-IsConsistent_example = apply-IsConsistent drive moved_item drive-IsConsistent (λ e. cc)

remove-IsRemoval_example : IsRemoval drive (codes "d") (remove drive (codes "d"))
remove-IsRemoval_example = remove-IsRemoval drive (codes "d") drive-IsConsistent

drive-top :
    (c : ItemId) (node : Node)
    → Assoc.get c drive.nodes ≡ some node
    → node.parent ≡ none
    → drive.root ≡ some c
unfolding Assoc.get
drive-top c node e h = ground (
  arith,
  e,
  h,
  bytes_eq_iff (codes "f") c,
  bytes_eq_iff (codes "r") c,
  bytes_eq_iff (codes "d") c,
)

name_a : IsSegment (codes "a")
name_a = (λ e. absurd (cc), (λ e. absurd (omega (arith, e)), tt))

name_docs : IsSegment (codes "docs")
name_docs = (
  λ e. absurd (cc),
  (
    λ e. absurd (omega (arith, e)),
    (
      λ e. absurd (omega (arith, e)),
      (λ e. absurd (omega (arith, e)), (λ e. absurd (omega (arith, e)), tt)),
    ),
  ),
)

name_root : IsSegment (codes "root")
name_root = (
  λ e. absurd (cc),
  (
    λ e. absurd (omega (arith, e)),
    (
      λ e. absurd (omega (arith, e)),
      (λ e. absurd (omega (arith, e)), (λ e. absurd (omega (arith, e)), tt)),
    ),
  ),
)

drive-names : (c p n : Bytes) → Stands drive.nodes c p n → IsSegment n
unfolding Assoc.get
drive-names c p n (node, found, up, name) =
    let one : (node.name ≡ codes "a") ⊎ (node.name ≡ codes "root") ⊎ (node.name ≡ codes "docs") =
      ground (
        arith,
        found,
        bytes_eq_iff (codes "f") c,
        bytes_eq_iff (codes "r") c,
        bytes_eq_iff (codes "d") c,
      ) in
    subst (λ t. IsSegment t) name
      (elim one [
        | inl a ↦ subst (λ t. IsSegment t) (sym a) name_a
        | inr (inl r) ↦ subst (λ t. IsSegment t) (sym r) name_root
        | inr (inr d) ↦ subst (λ t. IsSegment t) (sym d) name_docs
      ])

drive-IsRooted : IsRooted drive
drive-IsRooted = record { top = drive-top; names = drive-names }

drive-path_of : path_of drive (codes "f") ≡ some (codes "/docs/a")
unfolding path_of path_steps Assoc.get bytes_eq
drive-path_of = refl

resolve-path_of_example : resolve drive (codes "/docs/a") ≡ some (codes "f")
resolve-path_of_example =
    resolve-path_of drive (codes "f") (codes "/docs/a") drive-IsConsistent drive-IsRooted
      drive-path_of

sweep_nodes_example :
    (Assoc.get (codes "d") (sweep_orphans drive).nodes
      ≡ some (record { parent = some (codes "r"); name = codes "docs"; meta = folder }))
    ↔ ((Assoc.get (codes "d") drive.nodes
          ≡ some (record { parent = some (codes "r"); name = codes "docs"; meta = folder }))
        × (k : ℕ) × (k < max_depth)
        × Below drive.nodes (codes "r") k (codes "d"))
sweep_nodes_example =
    sweep_nodes drive (codes "r") (codes "d")
      (record { parent = some (codes "r"); name = codes "docs"; meta = folder }) refl

sweep_kids_example : (has (sweep_orphans drive).kids (codes "d") (codes "a", codes "f") ≡ true) ↔ (
    (has drive.kids (codes "d") (codes "a", codes "f") ≡ true)
    × Survives drive (codes "r") (codes "d")
    × Survives drive (codes "r") (codes "f"))
sweep_kids_example = sweep_kids drive (codes "r") (codes "d") (codes "a") (codes "f") refl
