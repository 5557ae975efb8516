-- ===== src/Xml/Date.antt =====
-- `civil_from_days` and `http_date` of src/xml.rs. The days of a `u64` number of seconds are not
-- negative, so the `i64` of the source is a natural number here.
use onedrive_davfs.Base.{
  ℕ, ◌+◌, ◌-◌, ◌*◌, ◌/◌, ◌%◌, ◌≡◌, refl, List, [], ◌∷◌, ◌++◌, Bytes, codes, ltb, leb, if◌then◌else◌,
  Option, none, some, get_elem?,
}
use onedrive_davfs.Base.Decimal.{decimal, decimal2}

abbrev pub weekdays : List Bytes
weekdays =
    codes "Sun"
    ∷ codes "Mon"
    ∷ codes "Tue"
    ∷ codes "Wed"
    ∷ codes "Thu"
    ∷ codes "Fri"
    ∷ codes "Sat"
    ∷ []

abbrev pub months : List Bytes
months =
    codes "Jan"
    ∷ codes "Feb"
    ∷ codes "Mar"
    ∷ codes "Apr"
    ∷ codes "May"
    ∷ codes "Jun"
    ∷ codes "Jul"
    ∷ codes "Aug"
    ∷ codes "Sep"
    ∷ codes "Oct"
    ∷ codes "Nov"
    ∷ codes "Dec"
    ∷ []

pub record Civil : Type 0 where
  pub year : ℕ
  pub month : ℕ
  pub day : ℕ

-- The year of the era and the days before it in the era, with the year beginning in March.
unfoldable pub year_of_era : ℕ → ℕ
year_of_era doe = (doe - doe / 1460 + doe / 36524 - doe / 146096) / 365

unfoldable pub days_before : ℕ → ℕ
days_before yoe = 365 * yoe + yoe / 4 - yoe / 100

unfoldable pub month_of : ℕ → ℕ
month_of mp = if ltb mp 10 then mp + 3 else mp - 9

unfoldable pub civil_from_days : ℕ → Civil
unfolding year_of_era days_before month_of
civil_from_days days =
    let z = days + 719468 in
    let era = z / 146097 in
    let doe = z - era * 146097 in
    let yoe = year_of_era doe in
    let y = yoe + era * 400 in
    let doy = doe - days_before yoe in
    let mp = (5 * doy + 2) / 153 in
    let d = doy - (153 * mp + 2) / 5 + 1 in
    let m = month_of mp in record { year = if leb m 2 then y + 1 else y; month = m; day = d }

-- An index into one of the two tables; `none` would be a panic.
unfoldable pub join_date : Option Bytes → Option Bytes → Civil → ℕ → Option Bytes
unfolding decimal decimal2
join_date (some weekday) (some month) c secs_of_day = some (
    weekday
    ++ codes ", "
    ++ decimal2 c.day
    ++ codes " "
    ++ month
    ++ codes " "
    ++ decimal c.year
    ++ codes " "
    ++ decimal2 (secs_of_day / 3600)
    ++ codes ":"
    ++ decimal2 ((secs_of_day / 60) % 60)
    ++ codes ":"
    ++ decimal2 (secs_of_day % 60)
    ++ codes " GMT")
join_date _ _ c secs_of_day = none

unfoldable pub http_date : ℕ → Option Bytes
unfolding civil_from_days join_date
http_date unix_secs =
    let days = unix_secs / 86400 in
    let c = civil_from_days days in
    join_date (get_elem? weekdays ((days % 7 + 11) % 7)) (get_elem? months (c.month - 1)) c
      (unix_secs % 86400)

http_date_epoch : http_date 0 ≡ some (codes "Thu, 01 Jan 1970 00:00:00 GMT")
unfolding http_date
http_date_epoch = refl

http_date_known : http_date 1768206600 ≡ some (codes "Mon, 12 Jan 2026 08:30:00 GMT")
unfolding http_date
http_date_known = refl
