-- ===== src/Guest/PathClean.antt =====
-- What `sanitize_path` (src/lib.rs) lets through.
use mathlib.Core.Bool.{false≢true}
use onedrive_davfs.Base.{
  ℕ, ◌≡◌, ◌≢◌, refl, sym, ap, ◌∙◌, Bool, true, false, List, [], ◌∷◌, Bytes, codes, bytes_eq,
  bytes_eq_iff, Result, ok, err, ok-injective, ok_or, ok->>=, All, Lacks, ◌||◌, arith, ◌==◌,
  Bool-cases, inl, inr, subst,
}
use onedrive_davfs.Base.Str.{cons_head, split, is_empty, split-Lacks}
use onedrive_davfs.Xml.Percent.{pct_decode}
use onedrive_davfs.Index.Paths.{slash, segments, render, normalize_path}
use onedrive_davfs.Index.PathSegments.{IsSegment, segments-render}
use onedrive_davfs.Guest.Path.{
  is_control, has_control, push_segment, safe_segments, sanitize_decoded, sanitize_path,
}

-- A segment that names one item of the drive, and neither its directory nor the one above.
abbrev pub IsClean : Bytes → Type 0
IsClean s = (s ≢ []) × Lacks slash s × (s ≢ codes ".") × (s ≢ codes "..") × (has_control s ≡ false)

segment-IsClean :
    (s : Bytes)
    → Lacks slash s
    → has_control s ≡ false
    → is_empty s || bytes_eq s (codes ".") ≡ false
    → bytes_eq s (codes "..") ≡ false
    → IsClean s
unfolding is_empty
segment-IsClean [] l h n m = absurd (false≢true (sym n))
segment-IsClean (c ∷ s) l h n m = (
  λ e. cc,
  l,
  λ e. absurd (ground (arith, n, e, bytes_eq_iff (c ∷ s) (codes "."))),
  λ e. absurd (ground (arith, m, e, bytes_eq_iff (c ∷ s) (codes ".."))),
  h,
)

-- One part more in front.
push_segment-IsClean :
    (s : Bytes) (r : Result Bytes (List Bytes)) (segs : List Bytes)
    → IsClean s
    → ((t : List Bytes) → r ≡ ok t → All IsClean t)
    → push_segment s r ≡ ok segs
    → All IsClean segs
unfolding push_segment
push_segment-IsClean s (ok t) segs c k h = subst (λ u. All IsClean u) (ok-injective h) (c, k t refl)
push_segment-IsClean s (err e) segs c k h = cc

safe_segments-IsClean :
    (parts segs : List Bytes)
    → All (Lacks slash) parts
    → All (λ s. has_control s ≡ false) parts
    → safe_segments parts ≡ ok segs
    → All IsClean segs
unfolding safe_segments push_segment is_empty
safe_segments-IsClean [] segs l h e = subst (λ t. All IsClean t) (ok-injective e) tt
safe_segments-IsClean (s ∷ parts) segs (l, ls) (h, hs) e =
    elim (Bool-cases (is_empty s || bytes_eq s (codes "."))) [
      | inl y ↦ safe_segments-IsClean parts segs ls hs (ground (arith, e, y))
      | inr n ↦ elim (Bool-cases (bytes_eq s (codes ".."))) [
        | inl y ↦ absurd (ground (arith, e, n, y))
        | inr m ↦
            push_segment-IsClean s (safe_segments parts) segs (segment-IsClean s l h n m)
              (λ t q. safe_segments-IsClean parts t ls hs q) (ground (arith, e, n, m))
      ]
    ]

or_false : (a b : Bool) → (a || b) ≡ false → (a ≡ false) × (b ≡ false)
or_false true b h = absurd (false≢true (sym h))
or_false false b h = (refl, h)

cons_head-no_control :
    (c : ℕ) (ps : List Bytes)
    → is_control c ≡ false
    → All (λ p. has_control p ≡ false) ps
    → All (λ p. has_control p ≡ false) (cons_head c ps)
unfolding cons_head has_control
cons_head-no_control c [] h hs = (ground (arith, h), tt)
cons_head-no_control c (p ∷ ps) h (k, hs) = (ground (arith, h, k), hs)

-- No part of a split has a control character that the text has not.
split-no_control :
    (s : Bytes) → has_control s ≡ false → All (λ p. has_control p ≡ false) (split slash s)
unfolding split has_control
split-no_control [] h = (refl, tt)
split-no_control (c ∷ s) h =
    let (h1, h2) = or_false (is_control c) (has_control s) h in
    let ih = split-no_control s h2 in
    elim (Bool-cases (c == slash)) [
      | inl y ↦ rw y (refl, ih)
      | inr n ↦ rw n (cons_head-no_control c (split slash s) h1 ih)
    ]

clean-IsSegment : (segs : List Bytes) → All IsClean segs → All IsSegment segs
clean-IsSegment [] h = tt
clean-IsSegment (s ∷ segs) ((n, l, _, _, _), h) = ((n, l), clean-IsSegment segs h)

-- A path that passes the check is the rendering of clean segments, which are then its segments.
pub sanitize_path-IsClean :
    (raw p : Bytes)
    → sanitize_path raw ≡ ok p
    → (segs : List Bytes) × (p ≡ render segs)
      × All IsClean segs
      × (segments p ≡ segs)
      × (normalize_path p ≡ p)
unfolding sanitize_path sanitize_decoded normalize_path
sanitize_path-IsClean raw p h =
    let (d, h1, _) =
      ok->>= sanitize_decoded (ok_or (codes "malformed percent-encoding in path") (pct_decode raw))
        h in
    elim (Bool-cases (has_control d)) [
      | inl y ↦ absurd (ground (arith, h1, y))
      | inr n ↦
          let h2 = rw n at h1 in
          let (segs, r, e) = ok->>= (λ segs. ok (render segs)) (safe_segments (split slash d)) h2 in
          let clean =
            safe_segments-IsClean (split slash d) segs (split-Lacks slash d) (split-no_control d n)
              e in
          let same = segments-render segs (clean-IsSegment segs clean) in
          let eq = ok-injective r in
          (segs, sym eq, clean, ap segments (sym eq) ∙ same, rw (sym eq) (ap render same))
    ]
