-- ===== src/Ingestion/Decoders/Tick/Calendar.antt =====
-- The conversion of dates follows the calendar.
use qonduit.Common.{
  ℕ, zero, suc, ◌+◌, ◌-◌, ◌*◌, ◌≤◌, ◌≡◌, ap, ◌∙◌, ltb, if◌then◌else◌, arith, Bool-cases, inl, inr,
}
use qonduit.Bytes.{ok}
use qonduit.Ingestion.Decoders.Tick.{is_leap_year, add_years, qubic_date_to_unix}
use qonduit.Ingestion.Decoders.Tick.Dates.{
  is_leap_year_lem, month_length, months_length, add_months-ok,
}
use native.Mathlib.Nat.{add-zero}

-- A calendar date from 1970 on.
pub record IsDate (year month day : ℕ) : Type 0 where
  pub from_1970 : 1970 ≤ year
  pub month_pos : 1 ≤ month
  pub month_le : month ≤ 12
  pub day_pos : 1 ≤ day
  pub day_le : day ≤ month_length year month

-- The timestamp of a date and a time of day.
abbrev timestamp_of : ℕ → ℕ → ℕ → ℕ → ℕ
timestamp_of year month day seconds =
    (add_years 0 (year - 1970) 1970 + months_length (month - 1) 1 year + (day - 1)) * 86400
    + seconds

qubic_date_to_unix-timestamp :
    (year month day hour minute second : ℕ)
    → month ≤ 12
    → qubic_date_to_unix year month day hour minute second
      ≡ ok (timestamp_of year month day (hour * 3600 + minute * 60 + second))
unfolding qubic_date_to_unix
qubic_date_to_unix-timestamp year month day hour minute second h =
    rw
      (add_months-ok (month - 1) (add_years 0 (year - 1970) 1970) 1 year (omega arith)
        (omega arith))
      (ap ok (omega arith))

months_length_snoc :
    (n m year : ℕ)
    → months_length (suc n) m year ≡ months_length n m year + month_length year (m + n)
unfolding months_length
months_length_snoc zero m year = omega (arith, ap (month_length year) (add-zero m))
months_length_snoc (suc n) m year =
    let e : m + 1 + n ≡ m + suc n = omega arith in
    omega (arith, months_length_snoc n (m + 1) year, ap (month_length year) e)

abbrev year_days : ℕ → ℕ
year_days year = if is_leap_year year then 366 else 365

add_years_snoc : (n acc y : ℕ) → add_years acc (suc n) y ≡ add_years acc n y + year_days (y + n)
unfolding add_years
add_years_snoc zero acc y = rw (add-zero y)
add_years_snoc (suc n) acc y =
    let e : y + 1 + n ≡ y + suc n = omega arith in
    add_years_snoc n (acc + year_days y) (y + 1)
    ∙ ap (λ k. add_years (acc + year_days y) n (y + 1) + year_days k) e

year_length : (year : ℕ) → months_length 12 1 year ≡ year_days year
unfolding months_length month_length
year_length year = ground (arith, is_leap_year_lem year)

month_length_pos : (year m : ℕ) → 1 ≤ month_length year m
unfolding month_length
month_length_pos year m = ground arith

-- The day after a date.
unfoldable pub next_day : ℕ → ℕ → ℕ → ℕ × ℕ × ℕ
next_day year month day =
    if ltb day (month_length year month)
    then (year, month, day + 1)
    else if ltb month 12
    then (year, month + 1, 1)
    else (year + 1, 1, 1)

end_of_month :
    (year month day : ℕ)
    → 1 ≤ month
    → day ≡ month_length year month
    → 1 ≤ day
    → months_length (month + 1 - 1) 1 year ≡ months_length (month - 1) 1 year + (day - 1) + 1
end_of_month year month day h e pos =
    let k : month + 1 - 1 ≡ suc (month - 1) = omega arith in
    let m : 1 + (month - 1) ≡ month = omega arith in
    omega (
      arith,
      ap (λ n. months_length n 1 year) k,
      months_length_snoc (month - 1) 1 year,
      ap (month_length year) m,
    )

end_of_year :
    (year : ℕ)
    → 1970 ≤ year
    → add_years 0 (year + 1 - 1970) 1970 ≡ add_years 0 (year - 1970) 1970 + months_length 12 1 year
end_of_year year h =
    let k : year + 1 - 1970 ≡ suc (year - 1970) = omega arith in
    let y : 1970 + (year - 1970) ≡ year = omega arith in
    omega (
      arith,
      ap (λ n. add_years 0 n 1970) k,
      add_years_snoc (year - 1970) 0 1970,
      ap year_days y,
      year_length year,
    )

end_of_december :
    (year month day seconds : ℕ)
    → IsDate year month day
    → month ≡ 12
    → day ≡ month_length year month
    → timestamp_of (year + 1) 1 1 seconds ≡ timestamp_of year month day seconds + 86400
unfolding months_length
end_of_december year month day seconds d e last = omega (
  arith,
  end_of_year year d.from_1970,
  months_length_snoc 11 1 year,
  ap (λ m. months_length (m - 1) 1 year) e,
  ap (month_length year) e,
  d.day_pos,
)

timestamp-next_day :
    (year month day seconds : ℕ)
    → IsDate year month day
    → timestamp_of
        (next_day year month day).0
        (next_day year month day).1
        (next_day year month day).2
        seconds
      ≡ timestamp_of year month day seconds + 86400
unfolding next_day
timestamp-next_day year month day seconds d =
    elim (Bool-cases (ltb day (month_length year month))) [
      | inl within ↦ rw within (omega (arith, d.day_pos))
      | inr last ↦
          let end : day ≡ month_length year month = ground (arith, d.day_le) in
          elim (Bool-cases (ltb month 12)) [
            | inl inside ↦
                rw (last, inside)
                  (omega (arith, end_of_month year month day d.month_pos end d.day_pos))
            | inr december ↦
                let twelve : month ≡ 12 = ground (arith, d.month_le) in
                rw (last, december) (end_of_december year month day seconds d twelve end)
          ]
    ]

next_day-IsDate :
    (year month day : ℕ)
    → IsDate year month day
    → IsDate (next_day year month day).0 (next_day year month day).1 (next_day year month day).2
unfolding next_day
next_day-IsDate year month day d = elim (Bool-cases (ltb day (month_length year month))) [
  | inl within ↦ rw within (record {
    from_1970 = d.from_1970;
    month_pos = d.month_pos;
    month_le = d.month_le;
    day_pos = omega arith;
    day_le = ground arith;
  })
  | inr last ↦ elim (Bool-cases (ltb month 12)) [
    | inl inside ↦
        rw (last, inside)
          (record {
            from_1970 = d.from_1970;
            month_pos = omega arith;
            month_le = ground arith;
            day_pos = omega arith;
            day_le = month_length_pos year (month + 1);
          })
    | inr december ↦
        rw (last, december)
          (record {
            from_1970 = omega (arith, d.from_1970);
            month_pos = omega arith;
            month_le = omega arith;
            day_pos = omega arith;
            day_le = month_length_pos (year + 1) 1;
          })
  ]
]

-- The date that lies `n` days after 1 January 1970.
unfoldable pub date_of : ℕ → ℕ × ℕ × ℕ
date_of zero = (1970, 1, 1)
date_of (suc n) = let (year, month, day) = date_of n in next_day year month day

date_of-IsDate : (n : ℕ) → IsDate (date_of n).0 (date_of n).1 (date_of n).2
unfolding date_of month_length
date_of-IsDate zero = record {
  from_1970 = omega arith;
  month_pos = omega arith;
  month_le = omega arith;
  day_pos = omega arith;
  day_le = omega arith;
}
date_of-IsDate (suc n) = next_day-IsDate _ _ _ (date_of-IsDate n)

timestamp-date_of :
    (n seconds : ℕ)
    → timestamp_of (date_of n).0 (date_of n).1 (date_of n).2 seconds ≡ n * 86400 + seconds
unfolding date_of add_years months_length
timestamp-date_of zero seconds = omega arith
timestamp-date_of (suc n) seconds =
    omega (arith, timestamp-next_day _ _ _ seconds (date_of-IsDate n), timestamp-date_of n seconds)

-- On the date that lies `n` days after 1 January 1970 in the Gregorian calendar, counted day by
-- day, the conversion returns `n` times 86400 seconds and the seconds of the time of day.
pub qubic_date_to_unix-date_of :
    (n hour minute second : ℕ)
    → qubic_date_to_unix (date_of n).0 (date_of n).1 (date_of n).2 hour minute second
      ≡ ok (n * 86400 + (hour * 3600 + minute * 60 + second))
qubic_date_to_unix-date_of n hour minute second =
    qubic_date_to_unix-timestamp _ _ _ hour minute second (date_of-IsDate n).month_le
    ∙ ap ok (timestamp-date_of n (hour * 3600 + minute * 60 + second))
