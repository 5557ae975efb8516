-- ===== src/Base/Utf8.antt =====
-- `str::from_utf8`: the well-formed byte sequences of UTF-8 (Unicode, table 3-7).
use mathlib.Core.Path.{◌≡◌, refl}
use mathlib.Core.Bool.{Bool, true, false, ◌&&◌}
use mathlib.Core.Option.{Option, none, some}
use mathlib.Core.List.{[], ◌∷◌, ◌++◌}
use Prim.Native.Nat.{ℕ}
use onedrive_davfs.Base.Tests.{ltb, leb, ◌==◌, if◌then◌else◌}
use onedrive_davfs.Base.ByteStr.{Bytes}

is_cont : ℕ → Bool
is_cont c = leb 0x80 c && leb c 0xbf

-- The second byte of a three or four byte character, by its first.
second3 : ℕ → ℕ → Bool
unfolding is_cont
second3 a b =
    if a == 0xe0
    then leb 0xa0 b && leb b 0xbf
    else if a == 0xed
    then leb 0x80 b && leb b 0x9f
    else is_cont b

second4 : ℕ → ℕ → Bool
unfolding is_cont
second4 a b =
    if a == 0xf0
    then leb 0x90 b && leb b 0xbf
    else if a == 0xf4
    then leb 0x80 b && leb b 0x8f
    else is_cont b

-- What is left of the character that is being read.
pub data Pending : Type 0 where
  start : Pending
  after3 after4 : ℕ → Pending
  conts1 conts2 : Pending

first : ℕ → Option Pending
first a =
    if ltb a 0x80
    then some start
    else if leb 0xc2 a && leb a 0xdf
    then some conts1
    else if leb 0xe0 a && leb a 0xef
    then some (after3 a)
    else if leb 0xf0 a && leb a 0xf4
    then some (after4 a)
    else none

next : Pending → ℕ → Option Pending
unfolding first second3 second4 is_cont
next start a = first a
next (after3 a) b = if second3 a b then some conts1 else none
next (after4 a) b = if second4 a b then some conts2 else none
next conts2 b = if is_cont b then some conts1 else none
next conts1 b = if is_cont b then some start else none

is_start : Pending → Bool
is_start start = true
is_start _ = false

valid_from : Pending → Bytes → Bool
unfolding next is_start
valid_from p [] = is_start p
valid_from p (c ∷ s) = elim (next p c) [ none ↦ false | some q ↦ valid_from q s ]

unfoldable pub is_utf8 : Bytes → Bool
unfolding valid_from
is_utf8 s = valid_from start s

-- `String::from_utf8(v).ok()`.
unfoldable pub from_utf8 : Bytes → Option Bytes
unfolding is_utf8
from_utf8 s = if is_utf8 s then some s else none

-- `String::from_utf8_lossy(v)`: U+FFFD for each longest beginning of a character that does not go on,
-- and for each byte that begins none. `held` are the bytes of the character that is being read.
abbrev pub replacement : Bytes
replacement = 0xef ∷ 0xbf ∷ 0xbd ∷ []

begin_lossy : (Pending → Bytes → Bytes) → ℕ → Bytes
unfolding first
begin_lossy rest c = elim (first c) [
  | none ↦ replacement ++ rest start []
  | some start ↦ c ∷ rest start []
  | some p ↦ rest p (c ∷ [])
]

resume_lossy : (Pending → Bytes → Bytes) → Pending → Bytes → ℕ → Option Pending → Bytes
unfolding begin_lossy
resume_lossy rest start held c q = begin_lossy rest c
resume_lossy rest p held c none = replacement ++ begin_lossy rest c
resume_lossy rest p held c (some start) = held ++ (c ∷ rest start [])
resume_lossy rest p held c (some q) = rest q (held ++ (c ∷ []))

lossy_from : Bytes → Pending → Bytes → Bytes
unfolding resume_lossy next is_start
lossy_from [] p held = if is_start p then [] else replacement
lossy_from (c ∷ s) p held = resume_lossy (lossy_from s) p held c (next p c)

unfoldable pub from_utf8_lossy : Bytes → Bytes
unfolding lossy_from
from_utf8_lossy s = lossy_from s start []

lossy_cafe :
    from_utf8_lossy (0x63 ∷ 0xc3 ∷ 0xa9 ∷ 0xe2 ∷ 0x82 ∷ 0x41 ∷ 0xff ∷ [])
    ≡ 0x63 ∷ 0xc3 ∷ 0xa9 ∷ 0xef ∷ 0xbf ∷ 0xbd ∷ 0x41 ∷ 0xef ∷ 0xbf ∷ 0xbd ∷ []
unfolding from_utf8_lossy
lossy_cafe = refl

accepts_cafe : is_utf8 (0x63 ∷ 0xc3 ∷ 0xa9 ∷ []) ≡ true
unfolding is_utf8
accepts_cafe = refl

rejects_surrogate : is_utf8 (0xed ∷ 0xa0 ∷ 0x80 ∷ []) ≡ false
unfolding is_utf8
rejects_surrogate = refl
