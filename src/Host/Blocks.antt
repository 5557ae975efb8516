-- ===== src/Host/Blocks.antt =====
-- `is_public_ipv4` of host/src/main.rs as a table of the blocks of addresses that it refuses.
use onedrive_davfs.Base.{
  ℕ, ◌+◌, ◌*◌, ◌≤◌, ◌<◌, ◌≡◌, refl, sym, ◌∙◌, ap, Bool, true, false, not, ◌&&◌, ◌||◌, ◌==◌, leb,
  arith,
}
use onedrive_davfs.Host.PublicIp.{Ipv4Addr, is_public_ipv4, is_private, is_broadcast}

-- The address as a number of 32 bits.
abbrev pub number : ℕ → ℕ → ℕ → ℕ → ℕ
number a b c d = a * 16777216 + b * 65536 + c * 256 + d

abbrev pub within : ℕ → ℕ → ℕ → Bool
within low high n = leb low n && leb n high

block8 :
    (k a b c d : ℕ)
    → b < 256
    → c < 256
    → d < 256
    → within (number k 0 0 0) (number k 255 255 255) (number a b c d) ≡ (a == k)
block8 k a b c d hb hc hd = ground (arith, hb, hc, hd)

block16 :
    (k l a b c d : ℕ)
    → b < 256
    → c < 256
    → d < 256
    → l < 256
    → within (number k l 0 0) (number k l 255 255) (number a b c d) ≡ (a == k && b == l)
block16 k l a b c d hb hc hd hl = ground (arith, hb, hc, hd, hl)

block24 :
    (k l m a b c d : ℕ)
    → b < 256
    → c < 256
    → d < 256
    → l < 256
    → m < 256
    → within (number k l m 0) (number k l m 255) (number a b c d) ≡ (a == k && b == l && c == m)
block24 k l m a b c d hb hc hd hl hm = ground (arith, hb, hc, hd, hl, hm)

-- Consecutive blocks of 8 bits, and of 16 bits under one of 8.
span8 :
    (k k' a b c d : ℕ)
    → b < 256
    → c < 256
    → d < 256
    → within (number k 0 0 0) (number k' 255 255 255) (number a b c d) ≡ (leb k a && leb a k')
span8 k k' a b c d hb hc hd = ground (arith, hb, hc, hd)

span16 :
    (k l l' a b c d : ℕ)
    → b < 256
    → c < 256
    → d < 256
    → l' < 256
    → l ≤ l'
    → within (number k l 0 0) (number k l' 255 255) (number a b c d)
      ≡ (a == k && leb l b && leb b l')
span16 k l l' a b c d hb hc hd hl le = ground (arith, hb, hc, hd, hl, le)

last_one :
    (a b c d : ℕ)
    → a < 256
    → b < 256
    → c < 256
    → d < 256
    → within 4294967295 4294967295 (number a b c d) ≡ (a == 255 && b == 255 && c == 255 && d == 255)
last_one a b c d ha hb hc hd = ground (arith, ha, hb, hc, hd)

-- The blocks that the filter refuses, by their first and last address.
unfoldable pub is_refused : ℕ → Bool
is_refused n =
    within (number 10 0 0 0) (number 10 255 255 255) n
    || within (number 172 16 0 0) (number 172 31 255 255) n
    || within (number 192 168 0 0) (number 192 168 255 255) n
    || within (number 127 0 0 0) (number 127 255 255 255) n
    || within (number 169 254 0 0) (number 169 254 255 255) n
    || within 4294967295 4294967295 n
    || within (number 192 0 2 0) (number 192 0 2 255) n
    || within (number 198 51 100 0) (number 198 51 100 255) n
    || within (number 203 0 113 0) (number 203 0 113 255) n
    || within (number 224 0 0 0) (number 239 255 255 255) n
    || within (number 0 0 0 0) (number 0 255 255 255) n
    || within (number 100 64 0 0) (number 100 127 255 255) n
    || within (number 198 18 0 0) (number 198 19 255 255) n
    || within (number 240 0 0 0) (number 240 255 255 255) n

or3 : (r x y z : Bool) → (r || (x || y || z)) ≡ (r || x || y || z)
or3 true x y z = refl
or3 false x y z = refl

or-true : (s : Bool) → (s || true) ≡ true
or-true true = refl
or-true false = refl

absorb : (r x p q t : Bool) → (r || (x && p && q && t) || x) ≡ (r || x)
absorb r true p q t = or-true (r || (p && q && t)) ∙ sym (or-true r)
absorb true false p q t = refl
absorb false false p q t = refl

over : {s t : Bool} (x : Bool) → s ≡ t → (s || x) ≡ (t || x)
over x e = ap (λ t. t || x) e

pair :
    (r : Bool) (a b : ℕ)
    → (r || (a == 198 && b == 18) || (a == 198 && b == 19))
      ≡ (r || (a == 198 && leb 18 b && leb b 19))
pair r a b = ground arith

reorder :
    (r d1 d2 d3 m x u1 u2 u3 h : Bool)
    → (r || (d1 || d2 || d3) || m || (x && u1 && u2 && u3) || x || h)
      ≡ (r || d1 || d2 || d3 || m || x || h)
reorder r d1 d2 d3 m x u1 u2 u3 h =
    over h (absorb (r || (d1 || d2 || d3) || m) x u1 u2 u3 ∙ over x (over m (or3 r d1 d2 d3)))

-- The tests one after another.
tests :
    (a b c d : ℕ)
    → is_public_ipv4 (record { a = a; b = b; c = c; d = d })
      ≡ not (
          a == 10
          || (a == 172 && leb 16 b && leb b 31)
          || (a == 192 && b == 168)
          || a == 127
          || (a == 169 && b == 254)
          || (a == 255 && b == 255 && c == 255 && d == 255)
          || (a == 192 && b == 0 && c == 2)
          || (a == 198 && b == 51 && c == 100)
          || (a == 203 && b == 0 && c == 113)
          || (leb 224 a && leb a 239)
          || a == 0
          || (a == 100 && leb 64 b && leb b 127)
          || (a == 198 && leb 18 b && leb b 19)
          || a == 240)
unfolding is_public_ipv4
tests a b c d = ap not (
    over (a == 240) (
      pair _ a b
      ∙ over (a == 198 && leb 18 b && leb b 19) (
          reorder (is_private ip || a == 127 || (a == 169 && b == 254) || is_broadcast ip)
            (a == 192 && b == 0 && c == 2) (a == 198 && b == 51 && c == 100)
            (a == 203 && b == 0 && c == 113) (leb 224 a && leb a 239) (a == 0) (b == 0) (c == 0)
            (d == 0) (a == 100 && leb 64 b && leb b 127))))
  where
    ip : Ipv4Addr
    ip = record { a = a; b = b; c = c; d = d }

-- The IPv4 addresses that the host takes for public are exactly those outside of fourteen blocks, among
-- them 10/8, 172.16/12, 192.168/16, 127/8, 169.254/16, 224/4 and, of 240/4, only 240/8 and the last address.
pub is_public_ipv4_blocks :
    (a b c d : ℕ)
    → a < 256
    → b < 256
    → c < 256
    → d < 256
    → is_public_ipv4 (record { a = a; b = b; c = c; d = d }) ≡ not (is_refused (number a b c d))
unfolding is_refused
is_public_ipv4_blocks a b c d ha hb hc hd =
    rw
      (
        block8 10 a b c d hb hc hd,
        span16 172 16 31 a b c d hb hc hd (omega arith) (omega arith),
        block16 192 168 a b c d hb hc hd (omega arith),
        block8 127 a b c d hb hc hd,
        block16 169 254 a b c d hb hc hd (omega arith),
        last_one a b c d ha hb hc hd,
        block24 192 0 2 a b c d hb hc hd (omega arith) (omega arith),
        block24 198 51 100 a b c d hb hc hd (omega arith) (omega arith),
        block24 203 0 113 a b c d hb hc hd (omega arith) (omega arith),
        span8 224 239 a b c d hb hc hd,
        block8 0 a b c d hb hc hd,
        span16 100 64 127 a b c d hb hc hd (omega arith) (omega arith),
        span16 198 18 19 a b c d hb hc hd (omega arith) (omega arith),
        block8 240 a b c d hb hc hd,
      )
      (tests a b c d)
