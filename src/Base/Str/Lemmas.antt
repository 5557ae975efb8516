-- ===== src/Base/Str/Lemmas.antt =====
-- Splitting and joining, and what the tests on prefixes mean.
use mathlib.Core.Path.{◌≡◌, refl, ap}
use mathlib.Core.Bool.{true}
use mathlib.Core.Option.{some, some-injective}
use mathlib.Core.Logic.{◌≢◌, inl, inr}
use mathlib.Core.List.{List, [], ◌∷◌, ◌++◌}
use Prim.Native.Nat.{ℕ}
use native.Mathlib.Omega.{arith}
use onedrive_davfs.Base.Tests.{Bool-cases, ◌==◌}
use onedrive_davfs.Base.Lists.{All}
use onedrive_davfs.Base.ByteStr.{Bytes, Lacks}
use onedrive_davfs.Base.Str.Defs.{
  push_front, split_once, starts_with, strip_prefix, split, join, cons_head,
}

pub starts_with-append : (p s : Bytes) → starts_with (p ++ s) p ≡ true
unfolding starts_with
starts_with-append [] s = refl
starts_with-append (c ∷ p) s = ground (arith, starts_with-append p s)

pub starts_with-eq : (s p : Bytes) → starts_with s p ≡ true → (r : Bytes) × (s ≡ p ++ r)
unfolding starts_with
starts_with-eq s [] h = (s, refl)
starts_with-eq [] (p ∷ ps) h = cc
starts_with-eq (c ∷ s) (p ∷ ps) h =
    let (r, e) = starts_with-eq s ps (ground arith) in (r, ground arith)

pub strip_prefix-append : (p s : Bytes) → strip_prefix (p ++ s) p ≡ some s
unfolding strip_prefix
strip_prefix-append [] s = refl
strip_prefix-append (c ∷ p) s = ground (arith, strip_prefix-append p s)

pub append-strip_prefix : (s p rest : Bytes) → strip_prefix s p ≡ some rest → s ≡ p ++ rest
unfolding strip_prefix
append-strip_prefix s [] rest h = some-injective s rest h
append-strip_prefix [] (p ∷ ps) rest h = cc
append-strip_prefix (c ∷ s) (p ∷ ps) rest h = elim (Bool-cases (c == p)) [
  | inl y ↦
      let tail = append-strip_prefix s ps rest (rw y at h) in
      rw tail (ap (λ x. x ∷ (ps ++ rest)) (ground (arith, y)))
  | inr n ↦ absurd (ground (arith, n, h))
]

split_part : (sep : ℕ) (p : Bytes) → Lacks sep p → split sep p ≡ p ∷ []
unfolding split
split_part sep [] h = refl
split_part sep (c ∷ p) (hc, h) = ground (arith, split_part sep p h)

split_front : (sep : ℕ) (p s : Bytes) → Lacks sep p → split sep (p ++ (sep ∷ s)) ≡ p ∷ split sep s
unfolding split
split_front sep [] s h = ground arith
split_front sep (c ∷ p) s (hc, h) = ground (arith, split_front sep p s h)

-- Parts without the separator come back from a split of their join.
pub split-join :
    (sep : ℕ) (p : Bytes) (ps : List Bytes)
    → All (Lacks sep) (p ∷ ps)
    → split sep (join sep (p ∷ ps)) ≡ p ∷ ps
unfolding join
split-join sep p [] (h, _) = split_part sep p h
split-join sep p (q ∷ ps) (h, hs) =
    let ih = split-join sep q ps hs in cc (split_front sep p (join sep (q ∷ ps)) h)

cons_head-Lacks :
    (sep c : ℕ) (ps : List Bytes) → c ≢ sep → All (Lacks sep) ps → All (Lacks sep) (cons_head c ps)
unfolding cons_head
cons_head-Lacks sep c [] n h = ((n, tt), tt)
cons_head-Lacks sep c (p ∷ ps) n (h, hs) = ((n, h), hs)

-- No part of a split holds the separator.
pub split-Lacks : (sep : ℕ) (s : Bytes) → All (Lacks sep) (split sep s)
unfolding split
split-Lacks sep [] = (tt, tt)
split-Lacks sep (c ∷ s) = ground (arith, split-Lacks sep s, cons_head-Lacks sep c (split sep s))

-- The first separator is found where a part without it ends.
pub split_once-append :
    (sep : ℕ) (p s : Bytes) → Lacks sep p → split_once sep (p ++ (sep ∷ s)) ≡ some (p, s)
unfolding split_once push_front
split_once-append sep [] s h = ground arith
split_once-append sep (c ∷ p) s (hc, h) = rw (split_once-append sep p s h) (ground (arith, hc))
