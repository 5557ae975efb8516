-- ===== src/Index/Paths.antt =====
-- `parent_path`, `last_segment` and `normalize_path` of src/index.rs.
use onedrive_davfs.Base.{ℕ, zero, suc, Option, none, some, List, [], ◌∷◌, Bytes, take, keep, not}
use onedrive_davfs.Base.Str.{split, join, is_empty, trim_end_matches, rfind_byte, last_or}

abbrev pub slash : ℕ
slash = b'/'

-- `path.split('/').filter(|s| !s.is_empty())`.
unfoldable pub segments : Bytes → List Bytes
unfolding split is_empty
segments path = keep (λ s. not (is_empty s)) (split slash path)

-- `format!("/{}", segs.join("/"))`, or the root when there is no segment.
unfoldable pub render : List Bytes → Bytes
unfolding join
render [] = slash ∷ []
render (s ∷ segs) = slash ∷ join slash (s ∷ segs)

unfoldable pub normalize_path : Bytes → Bytes
unfolding segments render
normalize_path path = render (segments path)

-- The part before the last slash; a slash at the front alone means the root.
unfoldable pub before_slash : Bytes → Option ℕ → Bytes
before_slash trimmed none = slash ∷ []
before_slash trimmed (some zero) = slash ∷ []
before_slash trimmed (some (suc i)) = take (suc i) trimmed

unfoldable pub parent_path : Bytes → Bytes
unfolding before_slash trim_end_matches rfind_byte
parent_path path =
    let trimmed = trim_end_matches slash path in before_slash trimmed (rfind_byte slash trimmed)

unfoldable pub last_segment : Bytes → Bytes
unfolding trim_end_matches split last_or
last_segment path = last_or [] (split slash (trim_end_matches slash path))
