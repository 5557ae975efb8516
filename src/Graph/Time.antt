-- ===== src/Graph/Time.antt =====
-- `parse_iso8601_to_unix` and `days_from_civil` of src/graph.rs. The years are those of a `u32`, so no
-- `i64` overflows; a `u64` that wraps below zero (day 0 of March) is the integer that the cast back to
-- `i64` makes of it.
use onedrive_davfs.Base.{
  ℕ, ◌+◌, ◌-◌, ◌*◌, ◌/◌, ◌^◌, not, List, [], ◌∷◌, Bytes, leb, ltb, if◌then◌else◌, keep, codes, ◌≡◌,
  refl,
}
use onedrive_davfs.Base.Str.{cons_head, is_empty}
use onedrive_davfs.Base.Decimal.{value}
use onedrive_davfs.Base.Int.{ℤ, pos, pos_part, ◌+ℤ◌, ◌-ℤ◌, ◌*ℤ◌, ◌/ℤ◌, is_nonneg}
use onedrive_davfs.Guest.Destination.{is_ascii_digit}

-- `s.split(|c| !c.is_ascii_digit())`.
unfoldable pub split_digits : Bytes → List Bytes
unfolding is_ascii_digit cons_head
split_digits [] = [] ∷ []
split_digits (c ∷ s) =
    let rest = split_digits s in if is_ascii_digit c then cons_head c rest else [] ∷ rest

-- `p.parse::<u32>().ok()` on digits, collected.
unfoldable pub push_u32 : ℕ → List ℕ → List ℕ
push_u32 n rest = if ltb n (2 ^ 32) then n ∷ rest else rest

unfoldable pub parse_each : List Bytes → List ℕ
unfolding push_u32
parse_each [] = []
parse_each (p ∷ ps) = push_u32 (value p) (parse_each ps)

unfoldable pub days_from_civil : ℤ → ℕ → ℕ → ℤ
days_from_civil year m d =
    let y = if leb m 2 then year -ℤ pos 1 else year in
    let era = (if is_nonneg y then y else y -ℤ pos 399) /ℤ 400 in
    let yoe = pos_part (y -ℤ era *ℤ pos 400) in
    let mp = if ltb 2 m then m - 3 else m + 9 in
    let doy = pos ((153 * mp + 2) / 5 + d) -ℤ pos 1 in
    let doe = (pos (yoe * 365 + yoe / 4) -ℤ pos (yoe / 100)) +ℤ doy in
    era *ℤ pos 146097 +ℤ doe -ℤ pos 719468

unfoldable pub unix_time : List ℕ → ℕ
unfolding days_from_civil
unix_time (year ∷ month ∷ day ∷ hour ∷ minute ∷ second ∷ rest) =
    let days = days_from_civil (pos year) month day in
    pos_part (days *ℤ pos 86400 +ℤ pos (hour * 3600) +ℤ pos (minute * 60) +ℤ pos second)
unix_time _ = 0

unfoldable pub parse_iso8601_to_unix : Bytes → ℕ
unfolding split_digits parse_each unix_time is_empty
parse_iso8601_to_unix s = unix_time (parse_each (keep (λ p. not (is_empty p)) (split_digits s)))

parses_iso8601_utc : parse_iso8601_to_unix (codes "2026-01-12T08:30:00Z") ≡ 1768206600
unfolding parse_iso8601_to_unix ◌+ℤ◌ ◌-ℤ◌ ◌*ℤ◌ ◌/ℤ◌
parses_iso8601_utc = refl

tolerates_garbage : parse_iso8601_to_unix (codes "not-a-date") ≡ 0
unfolding parse_iso8601_to_unix ◌+ℤ◌ ◌-ℤ◌ ◌*ℤ◌ ◌/ℤ◌
tolerates_garbage = refl
