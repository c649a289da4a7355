-- ===== src/Clock/Calendar.antt =====
-- Package time's calendar and the layout "2006-01-02T15:04:05Z", on times in UTC, and a reader of such
-- texts that undoes it.
use developer_certificates.Common.{
  ℕ, zero, suc, ◌+◌, ◌-◌, ◌*◌, ◌/◌, ◌%◌, ◌≤◌, ◌<◌, ◌≡◌, Bool, not, ◌&&◌, ◌||◌, ◌==◌, ltb,
  if◌then◌else◌, List, [], ◌∷◌, All, length, arith,
}

-- A year, and the day in it, from 0.
pub record YearDay : Type 0 where
  pub year : ℕ
  pub yday : ℕ

unfoldable pub is_leap : ℕ → Bool
is_leap y = (y % 4 == 0) && (not (y % 100 == 0) || (y % 400 == 0))

-- The cycles of 400, 100, 4 and 1 years: the last 100 and the last year of a cycle are a day longer.
unfoldable pub year_day : ℕ → YearDay
year_day d =
    let n400 = d / 146097 in
    let d400 = d % 146097 in
    let c100 = d400 / 36524 in
    let n100 = c100 - c100 / 4 in
    let d100 = d400 - 36524 * n100 in
    let n4 = d100 / 1461 in
    let d4 = d100 % 1461 in
    let c1 = d4 / 365 in
    let n1 = c1 - c1 / 4 in
    record { year = 400 * n400 + 100 * n100 + 4 * n4 + n1 + 1; yday = d4 - 365 * n1 }

-- The days before a year, from the year 1 on.
unfoldable pub days_before : ℕ → ℕ
days_before y = let p = y - 1 in 365 * p + p / 4 - p / 100 + p / 400

days_before-year_day : (d : ℕ) → days_before (year_day d).year + (year_day d).yday ≡ d
unfolding days_before year_day
days_before-year_day d = omega arith

year_day-yday : (d : ℕ) → (year_day d).yday < (if is_leap (year_day d).year then 366 else 365)
unfolding year_day is_leap
year_day-yday d = ground arith

unfoldable pub month_lengths : ℕ → List ℕ
month_lengths y =
    31 ∷ (if is_leap y then 29 else 28) ∷ 31 ∷ 30 ∷ 31 ∷ 30 ∷ 31 ∷ 31 ∷ 30 ∷ 31 ∷ 30 ∷ 31 ∷ []

-- The month and the day in it, both from 0, of a day of the year.
unfoldable pub month_day : List ℕ → ℕ → ℕ × ℕ
month_day [] n = (0, n)
month_day (k ∷ ks) n =
    let later = month_day ks (n - k) in if ltb n k then (0, n) else (suc later.0, later.1)

unfoldable pub before_month : List ℕ → ℕ → ℕ
before_month [] m = 0
before_month (k ∷ ks) zero = 0
before_month (k ∷ ks) (suc m) = k + before_month ks m

abbrev sum : List ℕ → ℕ
sum [] = 0
sum (k ∷ ks) = k + sum ks

month_day_lem :
    (ks : List ℕ) (n : ℕ)
    → n < sum ks
    → (before_month ks (month_day ks n).0 + (month_day ks n).1 ≡ n)
      × ((month_day ks n).0 < length ks)
unfolding month_day before_month
month_day_lem [] n h = absurd (omega (arith, h))
month_day_lem (k ∷ ks) n h = ground (arith, month_day_lem ks (n - k))

month_day-le :
    (ks : List ℕ) (n top : ℕ) → n < sum ks → All (λ k. k ≤ top) ks → (month_day ks n).1 < top
unfolding month_day
month_day-le [] n top h _ = absurd (omega (arith, h))
month_day-le (k ∷ ks) n top h (here, rest) = ground (arith, month_day-le ks (n - k) top)

year_length : (y : ℕ) → sum (month_lengths y) ≡ (if is_leap y then 366 else 365)
unfolding month_lengths
year_length y = ground arith

lengths-le : (y : ℕ) → All (λ k. k ≤ 31) (month_lengths y)
unfolding month_lengths
lengths-le y = ground arith

twelve : (y : ℕ) → length (month_lengths y) ≡ 12
unfolding month_lengths
twelve y = omega arith

-- The date of a day counts back to the day, and its month and day are in range.
pub calendar_lem :
    (d : ℕ)
    → let y = year_day d in
      let m = month_day (month_lengths y.year) y.yday in
      (days_before y.year + before_month (month_lengths y.year) m.0 + m.1 ≡ d)
      × (m.0 < 12)
      × (m.1 < 31)
calendar_lem d =
    let y = year_day d in
    let within : y.yday < sum (month_lengths y.year) = rw (year_length y.year) (year_day-yday d) in
    let (counted, month) = month_day_lem (month_lengths y.year) y.yday within in
    (
      omega (arith, counted, days_before-year_day d),
      omega (arith, month, twelve y.year),
      month_day-le (month_lengths y.year) y.yday 31 within (lengths-le y.year),
    )

pub year_day-year : (d : ℕ) → d < 3_652_059 → (year_day d).year < 10000
unfolding year_day
year_day-year d h = omega (arith, h)
