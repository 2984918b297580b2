-- ===== src/Ingestion/Decoders/Tick/Dates.antt =====
-- The conversion of dates to Unix time: what it computes on valid dates, and when it panics.
use qonduit.Common.{
  ℕ, zero, suc, ◌+◌, ◌-◌, ◌≤◌, ◌<◌, ◌≡◌, refl, ap, List, [], ◌∷◌, ◌%◌, Bool, true, false, ◌&&◌,
  ◌||◌, ◌==◌, none, some, ltb, length, get_elem?, if◌then◌else◌, arith, Bool-cases, inl, inr,
}
use qonduit.Bytes.{ok, panic}
use qonduit.Ingestion.Decoders.Guards.{IsOk, is_ok}
use qonduit.Ingestion.Decoders.Tick.{
  is_leap_year, days_in_month, index, add_years, add_months, qubic_date_to_unix,
}

unfoldable pub month_days : ℕ → ℕ
month_days m = elim (get_elem? days_in_month m) [ none ↦ 0 | some d ↦ d ]

-- The leap years of the Gregorian calendar.
unfoldable pub gregorian_leap : ℕ → Bool
gregorian_leap y = if y % 400 == 0 then true else if y % 100 == 0 then false else y % 4 == 0

-- The length of a month of a year in the Gregorian calendar.
unfoldable pub month_length : ℕ → ℕ → ℕ
month_length year m =
    if m == 2
    then (if gregorian_leap year then 29 else 28)
    else if m == 4 || m == 6 || m == 9 || m == 11
    then 30
    else 31

pub is_leap_year_lem : (year : ℕ) → is_leap_year year ≡ gregorian_leap year
unfolding is_leap_year gregorian_leap
is_leap_year_lem year = ground arith

month_days_lem :
    (year m : ℕ)
    → 1 ≤ m
    → m ≤ 12
    → month_days m + (if m == 2 && is_leap_year year then 1 else 0) ≡ month_length year m
unfolding month_days month_length
month_days_lem year zero h k = absurd (omega arith)
month_days_lem year (suc zero) h k = refl
month_days_lem year (suc (suc zero)) h k = ground (arith, is_leap_year_lem year)
month_days_lem year (suc (suc (suc zero))) h k = refl
month_days_lem year (suc (suc (suc (suc zero)))) h k = refl
month_days_lem year (suc (suc (suc (suc (suc zero))))) h k = refl
month_days_lem year (suc (suc (suc (suc (suc (suc zero)))))) h k = refl
month_days_lem year (suc (suc (suc (suc (suc (suc (suc zero))))))) h k = refl
month_days_lem year (suc (suc (suc (suc (suc (suc (suc (suc zero)))))))) h k = refl
month_days_lem year (suc (suc (suc (suc (suc (suc (suc (suc (suc zero))))))))) h k = refl
month_days_lem year (suc (suc (suc (suc (suc (suc (suc (suc (suc (suc zero)))))))))) h k = refl
month_days_lem year (suc (suc (suc (suc (suc (suc (suc (suc (suc (suc (suc zero))))))))))) h k =
    refl
month_days_lem year (suc (suc (suc (suc (suc (suc (suc (suc (suc (suc (suc (suc zero)))))))))))) h
      k =
    refl
month_days_lem year (suc (suc (suc (suc (suc (suc (suc (suc (suc (suc (suc (suc (suc m)))))))))))))
      h k =
    absurd (omega arith)

-- The lengths of the `n` months from `m` on.
unfoldable pub months_length : ℕ → ℕ → ℕ → ℕ
months_length zero m year = 0
months_length (suc n) m year = month_length year m + months_length n (m + 1) year

get_elem?_lt : (xs : List ℕ) (i : ℕ) → i < length xs → (x : ℕ) × (get_elem? xs i ≡ some x)
get_elem?_lt [] i h = absurd (omega arith)
get_elem?_lt (x ∷ xs) zero h = (x, refl)
get_elem?_lt (x ∷ xs) (suc i) h = get_elem?_lt xs i (omega arith)

get_elem?_ge : (xs : List ℕ) (i : ℕ) → length xs ≤ i → get_elem? xs i ≡ none
get_elem?_ge [] i h = refl
get_elem?_ge (x ∷ xs) zero h = absurd (omega arith)
get_elem?_ge (x ∷ xs) (suc i) h = get_elem?_ge xs i (omega arith)

index-month_days : (m : ℕ) → m < 13 → index days_in_month m ≡ ok (month_days m)
unfolding index month_days
index-month_days m h = let (d, e) = get_elem?_lt days_in_month m h in rw (e, month_days) refl

pub add_months-ok :
    (n acc m year : ℕ)
    → 1 ≤ m
    → m + n ≤ 13
    → add_months acc n m year ≡ ok (acc + months_length n m year)
unfolding add_months months_length
add_months-ok zero acc m year pos h = ap ok (omega arith)
add_months-ok (suc n) acc m year pos h =
    let leap : ℕ = if m == 2 && is_leap_year year then 1 else 0 in
    rw
      (
        index-month_days m (omega arith),
        add_months-ok n (acc + month_days m + leap) (m + 1) year (omega arith) (omega arith),
      )
      (ap ok (omega (arith, month_days_lem year m pos (omega arith))))

add_months-panic : (n acc m year : ℕ) → m ≤ 13 → 13 < m + n → add_months acc n m year ≡ panic
unfolding add_months index
add_months-panic zero acc m year le lt = absurd (omega arith)
add_months-panic (suc n) acc m year le lt = elim (Bool-cases (ltb m 13)) [
  | inl small ↦
      let (d, e) = get_elem?_lt days_in_month m (ground arith) in
      rw e (add_months-panic n _ (m + 1) year (ground arith) (omega arith))
  | inr big ↦ rw (get_elem?_ge days_in_month m (ground arith))
]

pub qubic_date_to_unix-IsOk :
    (year month day hour minute second : ℕ)
    → month < 14
    → IsOk (qubic_date_to_unix year month day hour minute second)
unfolding qubic_date_to_unix
qubic_date_to_unix-IsOk year month day hour minute second h =
    rw
      (add_months-ok (month - 1) (add_years 0 (year - 1970) 1970) 1 year (omega arith)
        (omega arith))
      (is_ok _)

pub qubic_date_to_unix-panic :
    (year month day hour minute second : ℕ)
    → 14 ≤ month
    → qubic_date_to_unix year month day hour minute second ≡ panic
unfolding qubic_date_to_unix
qubic_date_to_unix-panic year month day hour minute second h = rw (
    add_months-panic (month - 1) (add_years 0 (year - 1970) 1970) 1 year (omega arith)
      (omega arith))
