-- ===== src/Retrain/Calendar.antt =====
-- `weekday_monday0` of retrain.py, with what it uses of Python's `datetime`: `datetime(y, mo, d)`
-- raises `ValueError` for a date that does not exist, and `weekday()` counts from Monday.
use ads_bidding_optimizer.Prelude.{
  ℕ, ◌+◌, ◌-◌, ◌*◌, ◌/◌, ◌%◌, ◌<◌, ◌≡◌, Bool, true, ◌&&◌, ◌||◌, not, leb, ◌==◌, if◌then◌else◌,
  arith,
}

abbrev pub is_leap : ℕ → Bool
is_leap y = y % 4 == 0 && (not (y % 100 == 0) || y % 400 == 0)

abbrev pub days_before_year : ℕ → ℕ
days_before_year y = (y - 1) * 365 + (y - 1) / 4 - (y - 1) / 100 + (y - 1) / 400

unfoldable pub days_in_month : ℕ → ℕ → ℕ
days_in_month y mo =
    if mo == 2
    then (if is_leap y then 29 else 28)
    else if mo == 4 || (mo == 6 || (mo == 9 || mo == 11))
    then 30
    else 31

-- the days of the months before `mo`
unfoldable pub days_before_month : ℕ → ℕ → ℕ
days_before_month y mo =
    let leap : ℕ = if is_leap y then 1 else 0 in
    if mo == 1
    then 0
    else if mo == 2
    then 31
    else leap
      + (if mo == 3
          then 59
          else if mo == 4
          then 90
          else if mo == 5
          then 120
          else if mo == 6
          then 151
          else if mo == 7
          then 181
          else if mo == 8
          then 212
          else if mo == 9
          then 243
          else if mo == 10
          then 273
          else if mo == 11
          then 304
          else 334)

-- `datetime.datetime(y, mo, d)` does not raise
unfoldable pub is_date : ℕ → ℕ → ℕ → Bool
is_date y mo d =
    (leb 1 y && leb y 9999) && ((leb 1 mo && leb mo 12) && (leb 1 d && leb d (days_in_month y mo)))

-- `.weekday()`: day 1 is 0001-01-01, a Monday
unfoldable pub weekday : ℕ → ℕ → ℕ → ℕ
weekday y mo d = (days_before_year y + days_before_month y mo + d + 6) % 7

unfoldable pub weekday_monday0 : ℕ → ℕ
weekday_monday0 ts =
    let date = ts / 1000000 in
    let y = date / 10000 in
    let mo = date / 100 % 100 in let d = date % 100 in if is_date y mo d then weekday y mo d else 0

-- `int((ts % 1000000) // 10000)`
unfoldable pub hour_of : ℕ → ℕ
hour_of ts = ts % 1000000 / 10000

-- the timestamp YYYYMMDDHHmmss
abbrev pub timestamp : ℕ → ℕ → ℕ → ℕ → ℕ
timestamp y mo d time = ((y * 100 + mo) * 100 + d) * 1000000 + time

weekday_monday0-timestamp :
    (y mo d time : ℕ)
    → mo < 100
    → d < 100
    → time < 1000000
    → weekday_monday0 (timestamp y mo d time) ≡ (if is_date y mo d then weekday y mo d else 0)
unfolding weekday_monday0
weekday_monday0-timestamp y mo d time hm hd ht =
    let ey : timestamp y mo d time / 1000000 / 10000 ≡ y = omega arith in
    let em : timestamp y mo d time / 1000000 / 100 % 100 ≡ mo = omega arith in
    let ed : timestamp y mo d time / 1000000 % 100 ≡ d = omega arith in rw (ey, em, ed)

-- The weekday is one of 0, …, 6, and from a day to the next day of the same month it goes on by
-- one, modulo 7, at any times of the two days.
weekday_monday0_days :
    (y mo d time time' : ℕ)
    → mo < 100
    → d + 1 < 100
    → time < 1000000
    → time' < 1000000
    → is_date y mo d ≡ true
    → is_date y mo (d + 1) ≡ true
    → (weekday_monday0 (timestamp y mo d time) < 7)
      × (weekday_monday0 (timestamp y mo (d + 1) time')
          ≡ (weekday_monday0 (timestamp y mo d time) + 1) % 7)
unfolding weekday
weekday_monday0_days y mo d time time' hm hd ht ht' a b =
    let here = weekday_monday0-timestamp y mo d time hm (omega arith) ht in
    let there = weekday_monday0-timestamp y mo (d + 1) time' hm hd ht' in
    (rw here (bounded (is_date y mo d)), rw (here, there, a, b) (omega arith))
  where
    bounded : (b : Bool) → (if b then weekday y mo d else 0) < 7
    bounded true = omega arith
    bounded Bool.false = omega arith
