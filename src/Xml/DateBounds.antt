-- ===== src/Xml/DateBounds.antt =====
-- The calendar of src/xml.rs: `civil_from_days` gives dates, so `http_date` never reads past its tables.
use onedrive_davfs.Base.{
  ℕ, ◌+◌, ◌-◌, ◌*◌, ◌/◌, ◌%◌, ◌≤◌, ◌<◌, ◌≡◌, refl, Bytes, ltb, leb, arith, some, get_elem?, true,
  ◌&&◌, Bool, passes, passes-at, length, List, [], ◌∷◌, zero, suc,
}
use onedrive_davfs.Xml.Date.{
  weekdays, months, Civil, year_of_era, days_before, month_of, civil_from_days, join_date,
  http_date,
}

-- Every day of an era, by evaluation.
abbrev era_row : ℕ → Bool
era_row doe =
    ltb (year_of_era doe) 400
    && leb (days_before (year_of_era doe)) doe
    && leb (doe - days_before (year_of_era doe)) 365

era_table : passes era_row 146097 ≡ true
unfolding passes year_of_era days_before
era_table = refl

pub era_bounds :
    (doe : ℕ)
    → doe < 146097
    → (year_of_era doe < 400)
      × (days_before (year_of_era doe) ≤ doe)
      × (doe - days_before (year_of_era doe) ≤ 365)
era_bounds doe h = ground (arith, passes-at era_row 146097 doe h era_table)

module _ (doy : ℕ) (h : doy ≤ 365) where
  pub month_bounds : (5 * doy + 2) / 153 ≤ 11
  month_bounds = omega arith

  pub day_bounds :
      (doy - (153 * ((5 * doy + 2) / 153) + 2) / 5 ≤ 30)
      × ((153 * ((5 * doy + 2) / 153) + 2) / 5 ≤ doy)
  day_bounds = omega arith

-- The day of the era of a day number.
abbrev pub doe_of : ℕ → ℕ
doe_of days = (days + 719468) - (days + 719468) / 146097 * 146097

pub doe_bound : (days : ℕ) → doe_of days < 146097
doe_bound days = omega arith

abbrev pub doy_of : ℕ → ℕ
doy_of days = doe_of days - days_before (year_of_era (doe_of days))

-- Every day number has a month from 1 to 12 and a day from 1 to 31.
pub civil_bounds :
    (days : ℕ)
    → (1 ≤ (civil_from_days days).month)
      × ((civil_from_days days).month ≤ 12)
      × (1 ≤ (civil_from_days days).day)
      × ((civil_from_days days).day ≤ 31)
unfolding civil_from_days month_of
civil_bounds days =
    let (_, _, h) = era_bounds (doe_of days) (doe_bound days) in
    let mp = month_bounds (doy_of days) h in
    let d = day_bounds (doy_of days) h in ground (arith, mp, d)

get_elem?-some {ℓ} :
    {A : Type ℓ} (xs : List A) (i : ℕ) → i < length xs → (a : A) × (get_elem? xs i ≡ some a)
get_elem?-some [] i h = elim h [ ]
get_elem?-some (x ∷ xs) zero h = (x, refl)
get_elem?-some (x ∷ xs) (suc i) h = get_elem?-some xs i (omega arith)

join_date-some :
    (w m : Bytes) (c : Civil) (secs : ℕ)
    → (s : Bytes) × (join_date (some w) (some m) c secs ≡ some s)
unfolding join_date
join_date-some w m c secs = (_, refl)

-- `http_date` returns a date for every number of seconds: neither table is read out of bounds.
pub http_date_returns : (unix_secs : ℕ) → (s : Bytes) × (http_date unix_secs ≡ some s)
unfolding http_date join_date
http_date_returns unix_secs =
    let days = unix_secs / 86400 in
    let (lo, hi, _, _) = civil_bounds days in
    let (w, found_day) = get_elem?-some weekdays ((days % 7 + 11) % 7) (omega arith) in
    let (m, found_month) = get_elem?-some months ((civil_from_days days).month - 1) (omega arith) in
    let (s, e) = join_date-some w m (civil_from_days days) (unix_secs % 86400) in
    (s, rw (found_day, found_month) e)
