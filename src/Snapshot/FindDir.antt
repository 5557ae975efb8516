-- ===== src/Snapshot/FindDir.antt =====
-- The binary search of `find_dir` (src/snapshot.rs) on rows in the order of their paths.
use Prim.Native.Nat.{Ordering}
use onedrive_davfs.Base.{
  ℕ, zero, suc, ◌+◌, ◌-◌, ◌/◌, ◌≤◌, ◌<◌, ◌≡◌, ◌↔◌, ◌⊎◌, ◌==◌, ==_iff, ltb→lt, refl, sym, ap, ◌∙◌,
  subst, true, false, some, Option-cases, Bool-cases, List, [], ◌∷◌, Bytes, bytes_eq_iff,
  bytes_eq_self, bytes_compare, ltb, length, get_elem?, arith, inl, inr,
}
use onedrive_davfs.Snapshot.Row.{DirRow}
use onedrive_davfs.Snapshot.Lookup.{above, narrow, found_row, find_dir}

-- The paths of the rows ascend strictly.
abbrev pub IsSorted : List DirRow → Type 0
IsSorted rows =
    (i j : ℕ) (a b : DirRow)
    → i < j
    → get_elem? rows i ≡ some a
    → get_elem? rows j ≡ some b
    → bytes_compare a.path b.path ≡ Ordering.lt

compare_self : (a : Bytes) → bytes_compare a a ≡ Ordering.eq
unfolding bytes_compare
compare_self [] = refl
compare_self (x ∷ a) = ground (arith, compare_self a)

compare_swap : (a b : Bytes) → bytes_compare a b ≡ Ordering.lt → bytes_compare b a ≡ Ordering.gt
unfolding bytes_compare
compare_swap [] [] h = cc
compare_swap [] (y ∷ b) h = refl
compare_swap (x ∷ a) [] h = cc
compare_swap (x ∷ a) (y ∷ b) h = ground (arith, compare_swap a b, h)

get_elem?-below :
    (rows : List DirRow) (i : ℕ) → i < length rows → (r : DirRow) × (get_elem? rows i ≡ some r)
get_elem?-below [] i h = absurd (omega (arith, h))
get_elem?-below (r ∷ rows) zero h = (r, refl)
get_elem?-below (r ∷ rows) (suc i) h = get_elem?-below rows i (omega (arith, h))

length-get_elem? :
    (rows : List DirRow) (i : ℕ) (r : DirRow) → get_elem? rows i ≡ some r → i < length rows
length-get_elem? [] i r h = cc
length-get_elem? (s ∷ rows) zero r h = omega arith
length-get_elem? (s ∷ rows) (suc i) r h = omega (arith, length-get_elem? rows i r h)

above-gt :
    (path : Bytes) (r : DirRow)
    → bytes_compare r.path path ≡ Ordering.gt
    → above path (some r) ≡ true
unfolding above
above-gt path r h = rw (h, above) refl

above-lt :
    (path : Bytes) (r : DirRow)
    → bytes_compare r.path path ≡ Ordering.lt
    → above path (some r) ≡ false
unfolding above
above-lt path r h = rw (h, above) refl

above-eq : (r : DirRow) → above r.path (some r) ≡ false
unfolding above
above-eq r = rw (compare_self r.path, above) refl

module _ (rows : List DirRow) (t : ℕ) (row : DirRow) (at : get_elem? rows t ≡ some row)
    (sorted : IsSorted rows) where
  -- The comparison with the row in the middle says on which side the row stands.
  side :
      (mid : ℕ)
      → mid < length rows
      → ((above row.path (get_elem? rows mid) ≡ true) × (t < mid))
        ⊎ ((above row.path (get_elem? rows mid) ≡ false) × (mid ≤ t))
  side mid h =
      let (m, e) = get_elem?-below rows mid h in
      elim (Bool-cases (ltb t mid)) [
        | inl y ↦
            let c = compare_swap row.path m.path (sorted t mid row m (ltb→lt t mid y) at e) in
            inl (ap (above row.path) e ∙ above-gt row.path m c, ltb→lt t mid y)
        | inr n ↦ elim (Bool-cases (mid == t)) [
          | inl y ↦
              let here : above row.path (get_elem? rows t) ≡ false =
                ap (above row.path) at ∙ above-eq row in
              let same = (==_iff mid t).0 y in
              inr (
                subst (λ k. above row.path (get_elem? rows k) ≡ false) (sym same) here,
                omega (arith, same),
              )
          | inr ne ↦
              let lt : mid < t = ground (arith, n, ne) in
              inr (
                ap (above row.path) e ∙ above-lt row.path m (sorted mid t m row lt e at),
                omega (arith, lt),
              )
        ]
      ]

  narrow-finds :
      (fuel base size : ℕ)
      → size ≤ suc fuel
      → base ≤ t
      → t < base + size
      → base + size ≤ length rows
      → narrow fuel rows row.path base size ≡ t
  unfolding narrow
  narrow-finds zero base size f lo hi len = omega (arith, f, lo, hi)
  narrow-finds (suc fuel) base size f lo hi len = elim (Bool-cases (ltb 1 size)) [
    | inr n ↦ let small : size ≤ 1 = ground (arith, n) in rw n (omega (arith, small, lo, hi))
    | inl y ↦
        let big = ltb→lt 1 size y in
        let half = size / 2 in
        elim (side (base + half) (omega (arith, big, len))) [
          | inl (a, lt) ↦
              rw (y, a)
                (narrow-finds fuel base (size - half) (omega (arith, f, big)) lo
                  (omega (arith, lt, hi, big)) (omega (arith, len)))
          | inr (a, le) ↦
              rw (y, a)
                (narrow-finds fuel (base + half) (size - half) (omega (arith, f, big)) le
                  (omega (arith, hi, big)) (omega (arith, len, big)))
        ]
  ]

-- Of rows whose paths ascend strictly, `find_dir` gives a row exactly when it stands among them and has
-- the path that is looked for.
pub find_dir_iff :
    (rows : List DirRow) (path : Bytes) (row : DirRow)
    → IsSorted rows
    → (find_dir rows path ≡ some row)
      ↔ ((t : ℕ) × (get_elem? rows t ≡ some row) × (row.path ≡ path))
unfolding find_dir found_row
find_dir_iff rows path row sorted = (
  λ h.
      let end = narrow (length rows) rows path 0 (length rows) in
      elim (Option-cases (get_elem? rows end)) [
        | inl e ↦ absurd (ground (arith, h, e))
        | inr (r, e) ↦
            let hit : (r ≡ row) × (r.path ≡ path) =
              ground (arith, h, e, bytes_eq_iff r.path path) in
            (end, e ∙ ap some hit.0, ap (λ x. x.path) (sym hit.0) ∙ hit.1)
      ],
  λ (t, at, same).
      let below = length-get_elem? rows t row at in
      let lands =
        narrow-finds rows t row at sorted (length rows) 0 (length rows) (omega arith) (omega arith)
          (omega (arith, below)) (omega arith) in
      subst (λ p. find_dir rows p ≡ some row) same (rw (lands, at, bytes_eq_self row.path) refl),
)
