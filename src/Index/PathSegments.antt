-- ===== src/Index/PathSegments.antt =====
-- The segments of a rendered path (src/index.rs).
use onedrive_davfs.Base.{◌≡◌, ◌≢◌, refl, ap, not, List, [], ◌∷◌, Bytes, Lacks, All, keep}
use onedrive_davfs.Base.Str.{split, is_empty, split-join, split-Lacks}
use onedrive_davfs.Index.Paths.{slash, segments, render, normalize_path}

-- A name that can stand between two slashes.
abbrev pub IsSegment : Bytes → Type 0
IsSegment s = (s ≢ []) × Lacks slash s

keep_same : (segs : List Bytes) → All IsSegment segs → keep (λ s. not (is_empty s)) segs ≡ segs
unfolding is_empty
keep_same [] h = refl
keep_same ([] ∷ segs) ((ne, _), h) = absurd (ne refl)
keep_same ((c ∷ s) ∷ segs) (_, h) = ap (λ t. (c ∷ s) ∷ t) (keep_same segs h)

no_slash_each : (segs : List Bytes) → All IsSegment segs → All (Lacks slash) segs
no_slash_each [] h = tt
no_slash_each (s ∷ segs) ((_, l), h) = (l, no_slash_each segs h)

-- The segments of a rendered path are the ones that were rendered.
pub segments-render : (segs : List Bytes) → All IsSegment segs → segments (render segs) ≡ segs
unfolding segments render is_empty split
segments-render [] h = refl
segments-render (s ∷ segs) h =
    rw (split-join slash s segs (no_slash_each (s ∷ segs) h)) (keep_same (s ∷ segs) h)

keep-IsSegment :
    (parts : List Bytes)
    → All (Lacks slash) parts
    → All IsSegment (keep (λ s. not (is_empty s)) parts)
unfolding is_empty
keep-IsSegment [] h = tt
keep-IsSegment ([] ∷ parts) (_, h) = keep-IsSegment parts h
keep-IsSegment ((c ∷ s) ∷ parts) (l, h) = ((λ e. cc, l), keep-IsSegment parts h)

-- Whatever the path, its segments are not empty and hold no slash.
pub segments-IsSegment : (path : Bytes) → All IsSegment (segments path)
unfolding segments
segments-IsSegment path = keep-IsSegment (split slash path) (split-Lacks slash path)

-- `normalize_path` reads the same segments off its own result, so a second call changes nothing.
normalize_path_idem :
    (path : Bytes)
    → (segments (normalize_path path) ≡ segments path)
      × (normalize_path (normalize_path path) ≡ normalize_path path)
unfolding normalize_path
normalize_path_idem path =
    let same = segments-render (segments path) (segments-IsSegment path) in (same, ap render same)
