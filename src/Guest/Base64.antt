-- ===== src/Guest/Base64.antt =====
-- `base64_decode` of src/lib.rs.
use Prim.Native.Nat.{bit_or}
use onedrive_davfs.Base.{
  ℕ, ◌+◌, ◌-◌, ◌*◌, ◌/◌, ◌%◌, Bool, not, ◌&&◌, ◌||◌, Option, none, some, [], ◌∷◌, Bytes, leb, ◌==◌,
  keep, if◌then◌else◌,
}

unfoldable pub val : ℕ → Option ℕ
val b =
    if leb b'A' b && leb b b'Z'
    then some (b - b'A')
    else if leb b'a' b && leb b b'z'
    then some (b - b'a' + 26)
    else if leb b'0' b && leb b b'9'
    then some (b - b'0' + 52)
    else if b == b'+'
    then some 62
    else if b == b'/'
    then some 63
    else none

unfoldable pub is_ascii_whitespace : ℕ → Bool
is_ascii_whitespace b = b == 9 || b == 10 || b == 12 || b == 13 || b == 32

unfoldable pub is_digit : ℕ → Bool
unfolding is_ascii_whitespace
is_digit b = not (b == b'=') && not (is_ascii_whitespace b)

-- `<<` on a byte drops the high bits.
unfoldable pub byte0 : ℕ → ℕ → ℕ
byte0 v0 v1 = bit_or (v0 * 4 % 256) (v1 / 16)

unfoldable pub byte1 : ℕ → ℕ → ℕ
byte1 v1 v2 = bit_or (v1 * 16 % 256) (v2 / 4)

unfoldable pub byte2 : ℕ → ℕ → ℕ
byte2 v2 v3 = bit_or (v2 * 64 % 256) v3

infixl 5 ◌>>=◌
abbrev pub ◌>>=◌ : {A B : Type 0} → Option A → (A → Option B) → Option B
none >>= f = none
some a >>= f = f a

-- The loop over `clean.chunks(4)`.
unfoldable pub decode_chunks : Bytes → Option Bytes
unfolding val byte0 byte1 byte2
decode_chunks [] = some []
decode_chunks (a ∷ []) = do v0 ← val a; some (byte0 v0 0 ∷ [])
decode_chunks (a ∷ b ∷ []) = do v0 ← val a; v1 ← val b; some (byte0 v0 v1 ∷ [])
decode_chunks (a ∷ b ∷ c ∷ []) = do
  v0 ← val a
  v1 ← val b
  v2 ← val c
  some (byte0 v0 v1 ∷ byte1 v1 v2 ∷ [])
decode_chunks (a ∷ b ∷ c ∷ d ∷ s) =
    let rest = decode_chunks s in
    do
      v0 ← val a
      v1 ← val b
      v2 ← val c
      v3 ← val d
      out ← rest
      some (byte0 v0 v1 ∷ byte1 v1 v2 ∷ byte2 v2 v3 ∷ out)

unfoldable pub base64_decode : Bytes → Option Bytes
unfolding decode_chunks is_digit
base64_decode input = decode_chunks (keep is_digit input)
