-- ===== src/Base/Str/Defs.antt =====
-- `starts_with`, `split`, `trim_matches` and the like, on byte lists.
use Prim.Native.Nat.{ℕ, zero, suc, ◌+◌}
use mathlib.Core.Bool.{Bool, true, false, ◌&&◌, ◌||◌}
use mathlib.Core.Option.{Option, none, some}
use mathlib.Core.List.{List, [], ◌∷◌, ◌++◌, reverse, map}
use onedrive_davfs.Base.Tests.{leb, ◌==◌, if◌then◌else◌}
use onedrive_davfs.Base.ByteStr.{Bytes, bytes_eq}

unfoldable pub starts_with : Bytes → Bytes → Bool
starts_with s [] = true
starts_with [] (p ∷ ps) = false
starts_with (c ∷ s) (p ∷ ps) = (c == p) && starts_with s ps

unfoldable pub strip_prefix : Bytes → Bytes → Option Bytes
strip_prefix s [] = some s
strip_prefix [] (p ∷ ps) = none
strip_prefix (c ∷ s) (p ∷ ps) = let rest = strip_prefix s ps in if c == p then rest else none

unfoldable pub ends_with : Bytes → Bytes → Bool
unfolding starts_with
ends_with s p = starts_with (reverse s) (reverse p)

unfoldable pub is_empty {ℓ} : {A : Type ℓ} → List A → Bool
is_empty [] = true
is_empty (c ∷ s) = false

-- `s.split(c)`: always at least one part.
unfoldable pub cons_head : ℕ → List Bytes → List Bytes
cons_head c [] = (c ∷ []) ∷ []
cons_head c (p ∷ ps) = (c ∷ p) ∷ ps

unfoldable pub split : ℕ → Bytes → List Bytes
unfolding cons_head
split sep [] = [] ∷ []
split sep (c ∷ s) = let rest = split sep s in if c == sep then [] ∷ rest else cons_head c rest

-- `parts.join("/")`.
unfoldable pub join : ℕ → List Bytes → Bytes
join sep [] = []
join sep (p ∷ []) = p
join sep (p ∷ q ∷ ps) = p ++ (sep ∷ join sep (q ∷ ps))

-- `s.split_once(c)`: the parts on either side of the first `c`.
unfoldable pub push_front : ℕ → Option (Bytes × Bytes) → Option (Bytes × Bytes)
push_front c none = none
push_front c (some (a, b)) = some (c ∷ a, b)

unfoldable pub split_once : ℕ → Bytes → Option (Bytes × Bytes)
unfolding push_front
split_once sep [] = none
split_once sep (c ∷ s) =
    let rest = split_once sep s in if c == sep then some ([], s) else push_front c rest

-- `s.trim_start_matches(c)`, `s.trim_end_matches(c)`, `s.trim_matches(c)`.
unfoldable pub trim_start_matches : ℕ → Bytes → Bytes
trim_start_matches sep [] = []
trim_start_matches sep (c ∷ s) =
    let rest = trim_start_matches sep s in if c == sep then rest else c ∷ s

trim_tail : ℕ → ℕ → Bytes → Bytes
trim_tail sep c [] = if c == sep then [] else c ∷ []
trim_tail sep c (d ∷ s) = c ∷ d ∷ s

unfoldable pub trim_end_matches : ℕ → Bytes → Bytes
unfolding trim_tail
trim_end_matches sep [] = []
trim_end_matches sep (c ∷ s) = trim_tail sep c (trim_end_matches sep s)

unfoldable pub trim_matches : ℕ → Bytes → Bytes
unfolding trim_start_matches trim_end_matches
trim_matches sep s = trim_end_matches sep (trim_start_matches sep s)

-- The position of the first and of the last `c`.
later : Option ℕ → Option ℕ
later none = none
later (some i) = some (suc i)

unfoldable pub find_byte : ℕ → Bytes → Option ℕ
unfolding later
find_byte sep [] = none
find_byte sep (c ∷ s) = let rest = later (find_byte sep s) in if c == sep then some 0 else rest

last_found : Bool → Option ℕ → Option ℕ
last_found hit (some i) = some (suc i)
last_found true none = some 0
last_found false none = none

unfoldable pub rfind_byte : ℕ → Bytes → Option ℕ
unfolding last_found
rfind_byte sep [] = none
rfind_byte sep (c ∷ s) = last_found (c == sep) (rfind_byte sep s)

-- `it.next_back().unwrap_or(d)` on the parts of a split.
unfoldable pub last_or {ℓ} : {A : Type ℓ} → A → List A → A
last_or d [] = d
last_or d (x ∷ xs) = last_or x xs

unfoldable pub ascii_lower : ℕ → ℕ
ascii_lower c = if leb b'A' c && leb c b'Z' then c + 32 else c

unfoldable pub eq_ignore_ascii_case : Bytes → Bytes → Bool
unfolding ascii_lower
eq_ignore_ascii_case a b = bytes_eq (map ascii_lower a) (map ascii_lower b)

-- `s.contains(p)`.
unfoldable pub contains : Bytes → Bytes → Bool
unfolding starts_with
contains [] p = starts_with [] p
contains (c ∷ s) p = starts_with (c ∷ s) p || contains s p

-- `trim`: the code points of Unicode White_Space, by their UTF-8 bytes.
is_space1 : ℕ → Bool
is_space1 c = (leb 9 c && leb c 13) || c == 32

is_space2 : ℕ → ℕ → Bool
is_space2 a b = a == 0xc2 && (b == 0x85 || b == 0xa0)

is_space3 : ℕ → ℕ → ℕ → Bool
is_space3 a b c =
    (a == 0xe1 && b == 0x9a && c == 0x80)
    || (a == 0xe2
        && b == 0x80
        && ((leb 0x80 c && leb c 0x8a) || c == 0xa8 || c == 0xa9 || c == 0xaf))
    || (a == 0xe2 && b == 0x81 && c == 0x9f)
    || (a == 0xe3 && b == 0x80 && c == 0x80)

-- The bytes of a leading white space character.
space_len : Bytes → ℕ
unfolding is_space1 is_space2 is_space3
space_len [] = 0
space_len (a ∷ []) = if is_space1 a then 1 else 0
space_len (a ∷ b ∷ []) = if is_space1 a then 1 else if is_space2 a b then 2 else 0
space_len (a ∷ b ∷ c ∷ s) =
    if is_space1 a then 1 else if is_space2 a b then 2 else if is_space3 a b c then 3 else 0

-- `skip` bytes of the current character are still to be dropped.
trim_from : ℕ → Bytes → Bytes
unfolding space_len
trim_from skip [] = []
trim_from (suc k) (c ∷ s) = trim_from k s
trim_from zero (c ∷ s) = elim (space_len (c ∷ s)) [ zero ↦ c ∷ s | suc k ↦ trim_from k s ]

unfoldable pub trim_start : Bytes → Bytes
unfolding trim_from
trim_start s = trim_from 0 s

-- The same from the back, where the bytes of a character come last first.
space_len_back : Bytes → ℕ
unfolding is_space1 is_space2 is_space3
space_len_back [] = 0
space_len_back (a ∷ []) = if is_space1 a then 1 else 0
space_len_back (b ∷ a ∷ []) = if is_space1 b then 1 else if is_space2 a b then 2 else 0
space_len_back (c ∷ b ∷ a ∷ s) =
    if is_space1 c then 1 else if is_space2 b c then 2 else if is_space3 a b c then 3 else 0

trim_back_from : ℕ → Bytes → Bytes
unfolding space_len_back
trim_back_from skip [] = []
trim_back_from (suc k) (c ∷ s) = trim_back_from k s
trim_back_from zero (c ∷ s) = elim (space_len_back (c ∷ s)) [
  | zero ↦ c ∷ s
  | suc k ↦ trim_back_from k s
]

unfoldable pub trim_end : Bytes → Bytes
unfolding trim_back_from
trim_end s = reverse (trim_back_from 0 (reverse s))

unfoldable pub trim : Bytes → Bytes
unfolding trim_start trim_end
trim s = trim_end (trim_start s)
