-- ===== src/Clock/Layout.antt =====
-- Format with the layout "2006-01-02T15:04:05Z" on a time in UTC, and a reader of such texts.
use developer_certificates.Common.{
  ℕ, ◌+◌, ◌-◌, ◌*◌, ◌/◌, ◌%◌, ◌<◌, ◌≡◌, ap, ◌∙◌, ltb, true, if◌then◌else◌, some, [], ◌∷◌, ◌++◌,
  Bytes, arith,
}
use developer_certificates.Decimal.{decimal}
use developer_certificates.Clock.{Time, second}
use developer_certificates.Clock.Calendar.{
  year_day, days_before, month_lengths, month_day, before_month, calendar_lem, year_day-year,
}
use developer_certificates.Text.Scan.{
  Scan, ◌>>=◌, ◌>>◌, pure, lit, two, scan_two, >>=-scans, lit-scans, scan_two-two,
}

-- The first time whose year has five digits.
abbrev pub year_10000 : Time
year_10000 = 315_537_897_600 * second

-- At least four digits, in front of a rest.
unfoldable pub year_text : ℕ → Bytes → Bytes
year_text y r = if ltb y 10000 then two (y / 100) (two (y % 100) r) else decimal y ++ r

unfoldable pub day_text : ℕ → Bytes → Bytes
day_text d r =
    let y = year_day d in
    let m = month_day (month_lengths y.year) y.yday in
    year_text y.year (b'-' ∷ two (m.0 + 1) (b'-' ∷ two (m.1 + 1) (b'T' ∷ r)))

unfoldable pub clock_text : ℕ → Bytes → Bytes
clock_text s r = two (s / 3600) (b':' ∷ two (s / 60 % 60) (b':' ∷ two (s % 60) (b'Z' ∷ r)))

-- The text of a time, in front of a rest.
unfoldable pub time_text : Time → Bytes → Bytes
time_text t r = day_text (t / second / 86400) (clock_text (t / second % 86400) r)

unfoldable pub format_time : Time → Bytes
format_time t = time_text t []

unfoldable pub scan_day : Scan ℕ
scan_day = do
  c ← scan_two
  y ← scan_two
  lit (b'-' ∷ [])
  m ← scan_two
  lit (b'-' ∷ [])
  d ← scan_two
  lit (b'T' ∷ [])
  pure (days_before (100 * c + y) + before_month (month_lengths (100 * c + y)) (m - 1) + (d - 1))

unfoldable pub scan_clock : Scan ℕ
scan_clock = do
  h ← scan_two
  lit (b':' ∷ [])
  m ← scan_two
  lit (b':' ∷ [])
  s ← scan_two
  lit (b'Z' ∷ [])
  pure (3600 * h + 60 * m + s)

unfoldable pub scan_time : Scan Time
scan_time = do d ← scan_day; s ← scan_clock; pure ((86400 * d + s) * second)

lt→ltb : (a b : ℕ) → a < b → ltb a b ≡ true
lt→ltb a b h = ground arith

add-sub : (n : ℕ) → n + 1 - 1 ≡ n
add-sub n = omega arith

scan_clock-clock_text : (s : ℕ) (r : Bytes) → s < 86400 → scan_clock (clock_text s r) ≡ some (s, r)
unfolding scan_clock clock_text
scan_clock-clock_text s r h =
    >>=-scans _ _ _ (scan_two-two (s / 3600) _ (omega (arith, h)))
    ∙ (>>=-scans _ _ _ (lit-scans (b':' ∷ []) _)
        ∙ (>>=-scans _ _ _ (scan_two-two (s / 60 % 60) _ (omega (arith, h)))
            ∙ (>>=-scans _ _ _ (lit-scans (b':' ∷ []) _)
                ∙ (>>=-scans _ _ _ (scan_two-two (s % 60) _ (omega (arith, h)))
                    ∙ (>>=-scans _ _ _ (lit-scans (b'Z' ∷ []) r)
                        ∙ ap (λ n. some (n, r)) (omega (arith, h)))))))

scan_day-day_text : (d : ℕ) (r : Bytes) → d < 3_652_059 → scan_day (day_text d r) ≡ some (d, r)
unfolding scan_day day_text year_text
scan_day-day_text d r h =
    let year = (year_day d).year in
    let m = month_day (month_lengths year) (year_day d).yday in
    let four : year < 10000 = year_day-year d h in
    let (counted, month, day) = calendar_lem d in
    let whole : 100 * (year / 100) + year % 100 ≡ year = omega arith in
    rw (lt→ltb year 10000 four) (
      >>=-scans _ _ _ (scan_two-two (year / 100) _ (omega (arith, four)))
      ∙ (>>=-scans _ _ _ (scan_two-two (year % 100) _ (omega arith))
          ∙ (>>=-scans _ _ _ (lit-scans (b'-' ∷ []) _)
              ∙ (>>=-scans _ _ _ (scan_two-two (m.0 + 1) _ (omega (arith, month)))
                  ∙ (>>=-scans _ _ _ (lit-scans (b'-' ∷ []) _)
                      ∙ (>>=-scans _ _ _ (scan_two-two (m.1 + 1) _ (omega (arith, day)))
                          ∙ (>>=-scans _ _ _ (lit-scans (b'T' ∷ []) r)
                              ∙ rw (whole, add-sub (m.0), add-sub (m.1))
                                  (ap (λ n. some (n, r)) counted))))))))

-- The text of a time before the year 10000 is read back as the second of that time.
pub scan_time-time_text :
    (t : Time) (r : Bytes) → t < year_10000 → scan_time (time_text t r) ≡ some (t - t % second, r)
unfolding scan_time time_text
scan_time-time_text t r h =
    >>=-scans _ _ _ (scan_day-day_text (t / second / 86400) _ (omega (arith, h)))
    ∙ (>>=-scans _ _ _ (scan_clock-clock_text (t / second % 86400) r (omega arith))
        ∙ ap (λ n. some (n, r)) (omega arith))
