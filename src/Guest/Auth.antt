-- ===== src/Guest/Auth.antt =====
-- `check_basic_auth` and `constant_time_eq` of src/lib.rs. The header is the text that `header_value`
-- gives for `authorization`.
use Prim.Native.Nat.{bit_or, bit_xor}
use onedrive_davfs.Base.{
  ℕ, Bool, true, false, not, Option, none, some, [], ◌∷◌, Bytes, codes, ◌==◌, length, if◌then◌else◌,
}
use onedrive_davfs.Base.Str.{strip_prefix, split_once}
use onedrive_davfs.Base.Utf8.{from_utf8}
use onedrive_davfs.Guest.Base64.{base64_decode}

-- `for (x, y) in a.iter().zip(b.iter()) { diff |= x ^ y; }`.
unfoldable pub diff_bytes : ℕ → Bytes → Bytes → ℕ
diff_bytes diff [] b = diff
diff_bytes diff (x ∷ a) [] = diff
diff_bytes diff (x ∷ a) (y ∷ b) = diff_bytes (bit_or diff (bit_xor x y)) a b

unfoldable pub constant_time_eq : Bytes → Bytes → Bool
unfolding diff_bytes
constant_time_eq a b = if not (length a == length b) then false else diff_bytes 0 a b == 0

unfoldable pub password_matches : Bytes → Option (Bytes × Bytes) → Bool
unfolding constant_time_eq
password_matches expected none = false
password_matches expected (some (user, pass)) = constant_time_eq pass expected

unfoldable pub check_decoded : Bytes → Option Bytes → Bool
unfolding password_matches from_utf8 split_once
check_decoded expected none = false
check_decoded expected (some decoded) = elim (from_utf8 decoded) [
  | none ↦ false
  | some text ↦ password_matches expected (split_once b':' text)
]

unfoldable pub check_encoded : Bytes → Option Bytes → Bool
unfolding check_decoded base64_decode
check_encoded expected none = false
check_encoded expected (some encoded) = check_decoded expected (base64_decode encoded)

unfoldable pub check_basic_auth : Option Bytes → Option Bytes → Bool
unfolding check_encoded strip_prefix
check_basic_auth none header = true
check_basic_auth (some expected) none = false
check_basic_auth (some expected) (some raw) =
    check_encoded expected (strip_prefix raw (codes "Basic "))
