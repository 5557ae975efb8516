-- ===== src/Xml/PercentRoundTrip.antt =====
-- Percent coding and its decoding (src/xml.rs), and the bytes of a coded string.
use onedrive_davfs.Base.{
  ℕ, ◌/◌, ◌%◌, ◌<◌, ◌≤◌, ◌≡◌, refl, true, some, [], ◌∷◌, ◌++◌, Bytes, arith, All, IsByte,
  Bool-cases, inl, inr, All-append, ◌⊎◌,
}
use onedrive_davfs.Base.Utf8.{is_utf8, from_utf8}
use onedrive_davfs.Xml.Percent.{
  is_alnum, is_unreserved, hex_digit, pct_byte, pct_encode, to_digit, prepend, pct_pair, pct_bytes,
  checked, pct_decode,
}

to_digit-hex_digit : (n : ℕ) → n < 16 → to_digit (hex_digit n) ≡ some n
unfolding to_digit hex_digit
to_digit-hex_digit n h = ground arith

pct_bytes-plain :
    (b : ℕ) (s : Bytes)
    → is_unreserved b ≡ true
    → pct_bytes (b ∷ s) ≡ prepend (some b) (pct_bytes s)
unfolding pct_bytes prepend is_unreserved is_alnum
pct_bytes-plain b [] h = ground arith
pct_bytes-plain b (x ∷ []) h = ground arith
pct_bytes-plain b (x ∷ y ∷ s) h = ground arith

pct_bytes-coded :
    (b : ℕ) (s : Bytes)
    → b < 256
    → pct_bytes (b'%' ∷ hex_digit (b / 16) ∷ hex_digit (b % 16) ∷ s)
      ≡ prepend (some b) (pct_bytes s)
unfolding pct_bytes pct_pair
pct_bytes-coded b s h =
    rw (to_digit-hex_digit (b / 16) (omega arith), to_digit-hex_digit (b % 16) (omega arith))
      (ground arith)

pct_bytes-pct_byte :
    (b : ℕ) (s : Bytes) → b < 256 → pct_bytes (pct_byte b ++ s) ≡ prepend (some b) (pct_bytes s)
unfolding pct_byte
pct_bytes-pct_byte b s h = elim (Bool-cases (is_unreserved b)) [
  | inl plain ↦ rw plain (pct_bytes-plain b s plain)
  | inr coded ↦ rw coded (pct_bytes-coded b s h)
]

pct_bytes-pct_encode : (s : Bytes) → All IsByte s → pct_bytes (pct_encode s) ≡ some s
unfolding pct_encode pct_bytes prepend
pct_bytes-pct_encode [] h = refl
pct_bytes-pct_encode (b ∷ s) (hb, h) =
    rw (pct_bytes-pct_byte b (pct_encode s) hb) (rw (pct_bytes-pct_encode s h))

-- Decoding a percent-encoded string gives the string back, for every string of well-formed UTF-8.
pub pct_decode-pct_encode :
    (s : Bytes) → All IsByte s → is_utf8 s ≡ true → pct_decode (pct_encode s) ≡ some s
unfolding pct_decode checked from_utf8
pct_decode-pct_encode s bytes valid = rw (pct_bytes-pct_encode s bytes) (rw valid)

-- A byte that an encoded path may hold: a digit, a letter, or one of `-`, `_`, `.`, `~`, `/` and `%`.
abbrev pub IsPathByte : ℕ → Type 0
IsPathByte c =
    ((48 ≤ c) × (c ≤ 57))
    ⊎ ((65 ≤ c) × (c ≤ 90))
    ⊎ ((97 ≤ c) × (c ≤ 122))
    ⊎ (c ≡ 45)
    ⊎ (c ≡ 95)
    ⊎ (c ≡ 46)
    ⊎ (c ≡ 126)
    ⊎ (c ≡ 47)
    ⊎ (c ≡ 37)

is_unreserved-IsPathByte : (c : ℕ) → is_unreserved c ≡ true → IsPathByte c
unfolding is_unreserved is_alnum
is_unreserved-IsPathByte c h = ground (arith, h)

hex_digit-IsPathByte : (n : ℕ) → n < 16 → IsPathByte (hex_digit n)
unfolding hex_digit
hex_digit-IsPathByte n h = ground arith

pct_byte-IsPathByte : (b : ℕ) → b < 256 → All IsPathByte (pct_byte b)
unfolding pct_byte
pct_byte-IsPathByte b h = elim (Bool-cases (is_unreserved b)) [
  | inl plain ↦ rw plain (is_unreserved-IsPathByte b plain, tt)
  | inr coded ↦ rw coded (
    ground arith,
    (
      hex_digit-IsPathByte (b / 16) (omega arith),
      (hex_digit-IsPathByte (b % 16) (omega arith), tt),
    ),
  )
]

-- An encoded string holds letters, digits, `-`, `_`, `.`, `~`, `/` and `%` only, so no space, quote,
-- `?` or `#` ends the path of a URL.
pub pct_encode-IsPathByte : (s : Bytes) → All IsByte s → All IsPathByte (pct_encode s)
unfolding pct_encode
pct_encode-IsPathByte [] h = tt
pct_encode-IsPathByte (b ∷ s) (hb, h) =
    All-append IsPathByte (pct_byte b) (pct_encode s) (pct_byte-IsPathByte b hb)
      (pct_encode-IsPathByte s h)
