-- ===== src/Base/Bits.antt =====
-- `to_le_bytes` and `from_le_bytes`, and the part of a list between two positions.
use mathlib.Core.Path.{◌≡◌, refl, sym, ◌∙◌, ap}
use mathlib.Core.List.{List, [], ◌∷◌, ◌++◌}
use Prim.Native.Nat.{ℕ, zero, suc, ◌+◌, ◌-◌, ◌*◌, ◌/◌, ◌%◌, ◌^◌, ◌≤◌, ◌<◌}
use native.Mathlib.Nat.{pow-suc}
use native.Mathlib.Omega.{arith}
use onedrive_davfs.Base.Lists.{
  length, take, drop, length-append, length-drop, drop-append, take-append,
}
use onedrive_davfs.Base.ByteStr.{Bytes}

-- The lowest `width` bytes of a number.
unfoldable pub le_bytes : ℕ → ℕ → Bytes
le_bytes zero n = []
le_bytes (suc width) n = n % 256 ∷ le_bytes width (n / 256)

unfoldable pub from_le : Bytes → ℕ
from_le [] = 0
from_le (b ∷ s) = b + 256 * from_le s

pub length-le_bytes : (width n : ℕ) → length (le_bytes width n) ≡ width
unfolding le_bytes
length-le_bytes zero n = refl
length-le_bytes (suc width) n = ap suc (length-le_bytes width (n / 256))

pub from_le-le_bytes : (width n : ℕ) → n < 256 ^ width → from_le (le_bytes width n) ≡ n
unfolding from_le le_bytes
from_le-le_bytes zero n h = omega (arith, h)
from_le-le_bytes (suc width) n h =
    let h' = rw (pow-suc 256 width) at h in
    let ih = from_le-le_bytes width (n / 256) (omega (arith, h')) in omega (arith, ih)

-- `&s[start..end]` where the bounds are in order.
unfoldable pub slice {ℓ} : {A : Type ℓ} → ℕ → ℕ → List A → List A
slice start end s = take (end - start) (drop start s)

pub drop-drop {ℓ} : {A : Type ℓ} (m n : ℕ) (xs : List A) → drop (m + n) xs ≡ drop n (drop m xs)
drop-drop zero n xs = let e : 0 + n ≡ n = omega arith in ap (λ k. drop k xs) e
drop-drop (suc m) zero [] = let e : suc m + 0 ≡ suc m = omega arith in ap (λ k. drop k []) e
drop-drop (suc m) (suc n) [] =
    let e : suc m + suc n ≡ suc (m + suc n) = omega arith in ap (λ k. drop k []) e
drop-drop (suc m) n (x ∷ xs) =
    let e : suc m + n ≡ suc (m + n) = omega arith in ap (λ k. drop k (x ∷ xs)) e ∙ drop-drop m n xs

-- What follows the first part of what stands from a position on.
pub drop-part {ℓ} :
    {A : Type ℓ} (pos : ℕ) (xs part rest : List A)
    → drop pos xs ≡ part ++ rest
    → drop (pos + length part) xs ≡ rest
drop-part pos xs part rest h =
    drop-drop pos (length part) xs ∙ ap (drop (length part)) h ∙ drop-append part rest

pub slice-part {ℓ} :
    {A : Type ℓ} (pos : ℕ) (xs part rest : List A)
    → drop pos xs ≡ part ++ rest
    → slice pos (pos + length part) xs ≡ part
unfolding slice
slice-part pos xs part rest h =
    let e : pos + length part - pos ≡ length part = omega arith in rw (h, e) (take-append part rest)

-- A part is within the list.
pub part-bound {ℓ} :
    {A : Type ℓ} (pos : ℕ) (xs part rest : List A)
    → drop pos xs ≡ part ++ rest
    → pos ≤ length xs
    → pos + length part ≤ length xs
part-bound pos xs part rest h le =
    let e : length xs - pos ≡ length part + length rest =
      sym (length-drop pos xs) ∙ ap length h ∙ length-append part rest in
    omega (arith, e, le)
