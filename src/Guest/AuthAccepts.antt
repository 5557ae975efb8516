-- ===== src/Guest/AuthAccepts.antt =====
-- `constant_time_eq` is equality, and the check accepts exactly the configured password (src/lib.rs).
use Prim.Native.Nat.{bit_or, bit_xor}
use onedrive_davfs.Base.{
  ℕ, ◌<◌, ◌≡◌, ◌↔◌, refl, ap, Bool, true, false, not, ◌&&◌, ◌||◌, none, some, [], ◌∷◌, ◌++◌, Bytes,
  codes, arith, All, IsByte, Lacks, ◌==◌, passes, byte_pairs, length, ltb, ==_iff, Bool-cases, inl,
  inr,
}
use onedrive_davfs.Base.Str.{strip_prefix, split_once-append}
use onedrive_davfs.Base.Utf8.{is_utf8, from_utf8}
use onedrive_davfs.Guest.Base64.{base64_decode}
use onedrive_davfs.Guest.Auth.{
  diff_bytes, constant_time_eq, password_matches, check_decoded, check_encoded, check_basic_auth,
}

-- Two bytes at a time, by evaluation.
xor_row : ℕ → ℕ → Bool
xor_row x y =
    (not (bit_xor x y == 0) || x == y)
    && (not (x == y) || bit_xor x y == 0)
    && ltb (bit_xor x y) 256

or_row : ℕ → ℕ → Bool
or_row x y =
    (not (bit_or x y == 0) || (x == 0 && y == 0))
    && (not (x == 0 && y == 0) || bit_or x y == 0)
    && ltb (bit_or x y) 256

xor_byte : (x y : ℕ) → x < 256 → y < 256 → (bit_xor x y ≡ 0 ↔ x ≡ y) × (bit_xor x y < 256)
unfolding xor_row passes
xor_byte x y hx hy = let h = byte_pairs xor_row x y refl hx hy in ground (arith, h)

or_byte : (x y : ℕ) → x < 256 → y < 256 → (bit_or x y ≡ 0 ↔ (x ≡ 0) × (y ≡ 0)) × (bit_or x y < 256)
unfolding or_row passes
or_byte x y hx hy = let h = byte_pairs or_row x y refl hx hy in ground (arith, h)

-- The accumulator ends at zero exactly when it started there and no pair differs.
diff_bytes-zero :
    (d : ℕ) (a b : Bytes)
    → d < 256
    → All IsByte a
    → All IsByte b
    → length a ≡ length b
    → (diff_bytes d a b ≡ 0) ↔ ((d ≡ 0) × (a ≡ b))
unfolding diff_bytes
diff_bytes-zero d [] [] hd ha hb l = (λ h. (h, refl), λ (h, _). h)
diff_bytes-zero d [] (y ∷ b) hd ha hb l = absurd (omega arith)
diff_bytes-zero d (x ∷ a) [] hd ha hb l = absurd (omega arith)
diff_bytes-zero d (x ∷ a) (y ∷ b) hd (hx, ha) (hy, hb) l =
    let (x0, xb) = xor_byte x y hx hy in
    let (o0, ob) = or_byte d (bit_xor x y) hd xb in
    let ih = diff_bytes-zero (bit_or d (bit_xor x y)) a b ob ha hb (omega (arith, l)) in
    ground (arith, x0, o0, ih)

-- The comparison of the password is equality of the two byte lists.
pub constant_time_eq_iff :
    (a b : Bytes) → All IsByte a → All IsByte b → (constant_time_eq a b ≡ true) ↔ (a ≡ b)
unfolding constant_time_eq
constant_time_eq_iff a b ha hb = elim (Bool-cases (length a == length b)) [
  | inl y ↦
      let l = (==_iff (length a) (length b)).0 y in
      let z = diff_bytes-zero 0 a b (omega arith) ha hb l in ground (arith, z, y)
  | inr n ↦ (λ h. absurd (ground (arith, h, n)), λ e. absurd (ground (arith, n, ap length e)))
]

-- A header whose base64 text decodes to `user:pass` is accepted exactly when `pass` is the
-- configured password, whatever the user, provided that the decoded text is UTF-8.
pub check_basic_auth_iff :
    (expected encoded user pass : Bytes)
    → All IsByte pass
    → All IsByte expected
    → Lacks b':' user
    → is_utf8 (user ++ (b':' ∷ pass)) ≡ true
    → base64_decode encoded ≡ some (user ++ (b':' ∷ pass))
    → (check_basic_auth (some expected) (some (codes "Basic " ++ encoded)) ≡ true)
      ↔ (pass ≡ expected)
unfolding check_basic_auth check_encoded check_decoded password_matches from_utf8
check_basic_auth_iff expected encoded user pass hp he hu utf dec =
    let same = constant_time_eq_iff pass expected hp he in
    let first = split_once-append b':' user pass hu in ground (arith, dec, utf, first, same)

-- No header, another scheme, a text that does not decode or is not UTF-8, or one without a colon:
-- each is refused when a password is configured.
pub check_basic_auth_refuses :
    (expected encoded : Bytes)
    → (check_basic_auth (some expected) none ≡ false)
      × ((raw : Bytes)
          → strip_prefix raw (codes "Basic ") ≡ none
          → check_basic_auth (some expected) (some raw) ≡ false)
      × (base64_decode encoded ≡ none
          → check_basic_auth (some expected) (some (codes "Basic " ++ encoded)) ≡ false)
unfolding check_basic_auth check_encoded check_decoded
check_basic_auth_refuses expected encoded = (refl, λ raw e. rw e refl, λ e. rw e refl)
