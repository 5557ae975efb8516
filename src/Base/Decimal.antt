-- ===== src/Base/Decimal.antt =====
-- Numbers as `format!` prints them: `{}` and `{:02}`.
use mathlib.Core.Path.{◌≡◌}
use mathlib.Core.List.{[], ◌∷◌, ◌++◌, foldl, foldl-append}
use Prim.Native.Nat.{ℕ, zero, suc, ◌+◌, ◌-◌, ◌*◌, ◌/◌, ◌%◌, ◌^◌, ◌<◌}
use native.Mathlib.Nat.{pow-suc}
use native.Mathlib.Omega.{arith}
use onedrive_davfs.Base.Tests.{ltb, if◌then◌else◌}
use onedrive_davfs.Base.ByteStr.{Bytes}

-- At most one digit more than `rounds`.
unfoldable pub decimal_steps : ℕ → ℕ → Bytes
decimal_steps zero n = (b'0' + n % 10) ∷ []
decimal_steps (suc rounds) n =
    let front = decimal_steps rounds (n / 10) in
    if ltb n 10 then (b'0' + n) ∷ [] else front ++ (b'0' + n % 10) ∷ []

-- Twenty digits hold every `u64`.
unfoldable pub decimal : ℕ → Bytes
unfolding decimal_steps
decimal n = decimal_steps 19 n

unfoldable pub decimal2 : ℕ → Bytes
unfolding decimal
decimal2 n = if ltb n 10 then b'0' ∷ decimal n else decimal n

-- The number that digits spell.
abbrev pub value : Bytes → ℕ
value = foldl (λ n c. n * 10 + (c - b'0')) 0

value-snoc : (s : Bytes) (c : ℕ) → value (s ++ c ∷ []) ≡ value s * 10 + (c - b'0')
value-snoc s c = rw foldl-append

value-decimal_steps : (k n : ℕ) → n < 10 ^ suc k → value (decimal_steps k n) ≡ n
unfolding decimal_steps
value-decimal_steps zero n h = omega arith
value-decimal_steps (suc k) n h =
    let front = decimal_steps k (n / 10) in
    let smaller : n / 10 < 10 ^ suc k = omega (arith, pow-suc 10 (suc k)) in
    let ih = value-decimal_steps k (n / 10) smaller in
    ground (arith, value-snoc front (b'0' + n % 10), ih)

-- The digits of a `u64` spell it.
pub value-decimal : (n : ℕ) → n < 2 ^ 64 → value (decimal n) ≡ n
unfolding decimal
value-decimal n h = value-decimal_steps 19 n (omega arith)
