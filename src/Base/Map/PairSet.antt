-- ===== src/Base/Map/PairSet.antt =====
-- `BTreeSet<(String, ItemId)>`: pairs in ascending order of the name, then of the id.
use mathlib.Core.Path.{◌≡◌, refl}
use mathlib.Core.Bool.{Bool, true, false, ◌&&◌, ◌||◌}
use mathlib.Core.List.{List, [], ◌∷◌}
use Prim.Native.Nat.{Ordering}
use native.Mathlib.Omega.{arith}
use onedrive_davfs.Base.Tests.{if◌then◌else◌}
use onedrive_davfs.Base.ByteStr.{Bytes, bytes_eq, bytes_eq_iff, bytes_compare}

abbrev pub Pair : Type 0
Pair = Bytes × Bytes

abbrev pub PairSet : Type 0
PairSet = List Pair

unfoldable pub pair_eq : Pair → Pair → Bool
pair_eq (a, b) (c, d) = bytes_eq a c && bytes_eq b d

pub pair_eq_iff : (p q : Pair) → ((pair_eq p q ≡ true) → p ≡ q) × (p ≡ q → pair_eq p q ≡ true)
unfolding pair_eq
pair_eq_iff (a, b) (c, d) = ground (arith, bytes_eq_iff a c, bytes_eq_iff b d)

unfoldable pub pair_lt : Pair → Pair → Bool
pair_lt (a, b) (c, d) = elim (bytes_compare a c) [
  | Ordering.lt ↦ true
  | Ordering.gt ↦ false
  | Ordering.eq ↦ elim (bytes_compare b d) [ Ordering.lt ↦ true | _ ↦ false ]
]

unfoldable pub contains : Pair → PairSet → Bool
unfolding pair_eq
contains p [] = false
contains p (q ∷ s) = pair_eq q p || contains p s

unfoldable pub insert : Pair → PairSet → PairSet
unfolding pair_eq pair_lt
insert p [] = p ∷ []
insert p (q ∷ s) =
    let rest = insert p s in
    if pair_eq q p then q ∷ s else if pair_lt p q then p ∷ q ∷ s else q ∷ rest

unfoldable pub remove : Pair → PairSet → PairSet
unfolding pair_eq
remove p [] = []
remove p (q ∷ s) = let rest = remove p s in if pair_eq q p then rest else q ∷ rest

pub contains-insert :
    (p r : Pair) (s : PairSet) → contains r (insert p s) ≡ (pair_eq p r || contains r s)
unfolding contains insert
contains-insert p r [] = refl
contains-insert p r (q ∷ s) = ground (arith, pair_eq_iff q p, contains-insert p r s)

pub contains-remove :
    (p r : Pair) (s : PairSet)
    → contains r (remove p s) ≡ (if pair_eq p r then false else contains r s)
unfolding contains remove
contains-remove p r [] = ground arith
contains-remove p r (q ∷ s) =
    ground (arith, pair_eq_iff q p, pair_eq_iff p r, pair_eq_iff q r, contains-remove p r s)
