-- ===== src/Xml/Percent.antt =====
-- `pct_encode` and `pct_decode` of src/xml.rs.
use onedrive_davfs.Base.{
  ℕ, ◌+◌, ◌-◌, ◌*◌, ◌/◌, ◌%◌, Bool, ◌&&◌, ◌||◌, Option, none, some, [], ◌∷◌, ◌++◌, Bytes, ltb, leb,
  ◌==◌, if◌then◌else◌,
}
use onedrive_davfs.Base.Utf8.{from_utf8}

unfoldable pub is_alnum : ℕ → Bool
is_alnum b = (leb b'A' b && leb b b'Z') || (leb b'a' b && leb b b'z') || (leb b'0' b && leb b b'9')

-- The bytes that stand for themselves.
unfoldable pub is_unreserved : ℕ → Bool
unfolding is_alnum
is_unreserved b = is_alnum b || b == b'-' || b == b'_' || b == b'.' || b == b'~' || b == b'/'

-- One digit of `{b:02X}`.
unfoldable pub hex_digit : ℕ → ℕ
hex_digit n = if ltb n 10 then b'0' + n else b'A' + (n - 10)

unfoldable pub pct_byte : ℕ → Bytes
unfolding is_unreserved hex_digit
pct_byte b = if is_unreserved b then b ∷ [] else b'%' ∷ hex_digit (b / 16) ∷ hex_digit (b % 16) ∷ []

unfoldable pub pct_encode : Bytes → Bytes
unfolding pct_byte
pct_encode [] = []
pct_encode (b ∷ s) = pct_byte b ++ pct_encode s

-- `(c as char).to_digit(16)`.
unfoldable pub to_digit : ℕ → Option ℕ
to_digit c =
    if leb b'0' c && leb c b'9'
    then some (c - b'0')
    else if leb b'a' c && leb c b'f'
    then some (c - b'a' + 10)
    else if leb b'A' c && leb c b'F'
    then some (c - b'A' + 10)
    else none

unfoldable pub prepend : Option ℕ → Option Bytes → Option Bytes
prepend (some b) (some s) = some (b ∷ s)
prepend (some b) none = none
prepend none s = none

-- `(hi * 16 + lo) as u8`.
unfoldable pub pct_pair : Option ℕ → Option ℕ → Option ℕ
pct_pair (some hi) (some lo) = some ((hi * 16 + lo) % 256)
pct_pair (some hi) none = none
pct_pair none lo = none

-- The loop over the position `i`: the list is what stands from `i` on.
unfoldable pub pct_bytes : Bytes → Option Bytes
unfolding prepend pct_pair to_digit
pct_bytes [] = some []
pct_bytes (c ∷ []) = if c == b'%' then none else some (c ∷ [])
pct_bytes (c ∷ x ∷ []) =
    let plain = prepend (some c) (pct_bytes (x ∷ [])) in if c == b'%' then none else plain
pct_bytes (c ∷ x ∷ y ∷ s) =
    let coded = prepend (pct_pair (to_digit x) (to_digit y)) (pct_bytes s) in
    let plain = prepend (some c) (pct_bytes (x ∷ y ∷ s)) in if c == b'%' then coded else plain

unfoldable pub checked : Option Bytes → Option Bytes
unfolding from_utf8
checked none = none
checked (some s) = from_utf8 s

unfoldable pub pct_decode : Bytes → Option Bytes
unfolding pct_bytes checked
pct_decode input = checked (pct_bytes input)
