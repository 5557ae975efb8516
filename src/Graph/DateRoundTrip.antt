-- ===== src/Graph/DateRoundTrip.antt =====
-- `days_from_civil` (src/graph.rs) on what `civil_from_days` (src/xml.rs) gives.
use onedrive_davfs.Base.{
  ℕ, ◌+◌, ◌-◌, ◌*◌, ◌/◌, ◌%◌, ◌≤◌, ◌<◌, ◌≡◌, refl, ◌∙◌, true, not, Bool-cases, inl, inr, arith, leb,
  ltb, if◌then◌else◌,
}
use onedrive_davfs.Base.Int.{pos, sub_ℕ, ◌+ℤ◌, ◌-ℤ◌, ◌*ℤ◌, ◌/ℤ◌, is_nonneg}
use onedrive_davfs.Xml.Date.{year_of_era, days_before, month_of, civil_from_days}
use onedrive_davfs.Xml.DateBounds.{era_bounds, month_bounds, day_bounds, doe_of, doe_bound, doy_of}
use onedrive_davfs.Graph.Time.{days_from_civil}

-- The steps of `days_from_civil` on numbers without a sign.
year_before : (y : ℕ) → pos (y + 1) -ℤ pos 1 ≡ pos y
unfolding ◌-ℤ◌
year_before y = ground arith

year_era : (y : ℕ) → (if is_nonneg (pos y) then pos y else pos y -ℤ pos 399) /ℤ 400 ≡ pos (y / 400)
unfolding ◌/ℤ◌
year_era y = let up : leb 0 y ≡ true = ground arith in rw up refl

year_in_era : (y : ℕ) → pos y -ℤ pos (y / 400) *ℤ pos 400 ≡ pos (y % 400)
unfolding ◌-ℤ◌ ◌*ℤ◌
year_in_era y = ground arith

day_sum :
    (era before days : ℕ)
    → pos era *ℤ pos 146097 +ℤ (pos before +ℤ pos days) -ℤ pos 719468
      ≡ sub_ℕ (era * 146097 + (before + days)) 719468
unfolding ◌-ℤ◌ ◌+ℤ◌ ◌*ℤ◌
day_sum era before days = ground arith

day_of_year : (n d : ℕ) → 1 ≤ d → pos (n + d) -ℤ pos 1 ≡ pos (n + d - 1)
unfolding ◌-ℤ◌
day_of_year n d h = ground arith

leap_days : (q : ℕ) → pos (q * 365 + q / 4) -ℤ pos (q / 100) ≡ pos (days_before q)
unfolding ◌-ℤ◌ days_before
leap_days q = ground arith

month_back :
    (mp : ℕ) → mp < 12 → (if ltb 2 (month_of mp) then month_of mp - 3 else month_of mp + 9) ≡ mp
unfolding month_of
month_back mp h = ground arith

early : (mp : ℕ) → mp < 12 → leb (month_of mp) 2 ≡ not (ltb mp 10)
unfolding month_of
early mp h = ground arith

-- The day number of a year that begins in March, a month counted from March and a day.
march_day :
    (y mp d : ℕ)
    → mp < 12
    → 1 ≤ d
    → days_from_civil (pos (if leb (month_of mp) 2 then y + 1 else y)) (month_of mp) d
      ≡ sub_ℕ (y / 400 * 146097 + (days_before (y % 400) + ((153 * mp + 2) / 5 + d - 1))) 719468
unfolding days_from_civil
march_day y mp d h k = elim (Bool-cases (leb (month_of mp) 2)) [
  | inl b ↦
      rw
        (
          b,
          year_before y,
          year_era y,
          year_in_era y,
          month_back mp h,
          day_of_year _ d k,
          leap_days (y % 400),
        )
        (day_sum (y / 400) (days_before (y % 400)) ((153 * mp + 2) / 5 + d - 1))
  | inr b ↦
      rw (b, year_era y, year_in_era y, month_back mp h, day_of_year _ d k, leap_days (y % 400))
        (day_sum (y / 400) (days_before (y % 400)) ((153 * mp + 2) / 5 + d - 1))
]

split_year : (q era : ℕ) → q < 400 → ((q + era * 400) / 400 ≡ era) × ((q + era * 400) % 400 ≡ q)
split_year q era h = (omega (arith, h), omega (arith, h))

-- The parts of a day number add up to it.
sum_of_parts :
    (days before gone : ℕ)
    → before ≤ doe_of days
    → gone ≤ doe_of days - before
    → sub_ℕ
        ((days + 719468) / 146097 * 146097
          + (before + (gone + (doe_of days - before - gone + 1) - 1)))
        719468
      ≡ pos days
sum_of_parts days before gone le e =
    let whole : (days + 719468) / 146097 * 146097
          + (before + (gone + (doe_of days - before - gone + 1) - 1))
        ≡ days + 719468 =
      omega (arith, le, e) in
    rw whole (ground arith)

-- Every day number, turned into a date, comes back.
pub days_from_civil-civil_from_days :
    (days : ℕ)
    → days_from_civil
        (pos (civil_from_days days).year)
        (civil_from_days days).month
        (civil_from_days days).day
      ≡ pos days
unfolding civil_from_days
days_from_civil-civil_from_days days =
    let (yoe, le, bound) = era_bounds (doe_of days) (doe_bound days) in
    let mp = month_bounds (doy_of days) bound in
    let (_, e) = day_bounds (doy_of days) bound in
    let era = (days + 719468) / 146097 in
    let q = year_of_era (doe_of days) in
    let back =
      march_day (q + era * 400) ((5 * doy_of days + 2) / 153)
        (doy_of days - (153 * ((5 * doy_of days + 2) / 153) + 2) / 5 + 1) (omega (arith, mp))
        (omega arith) in
    let (era_is, q_is) = split_year q era yoe in
    back
    ∙ rw (era_is, q_is)
        (sum_of_parts days (days_before q) ((153 * ((5 * doy_of days + 2) / 153) + 2) / 5) le e)
