-- ===== src/Logging/Civil.antt =====
-- The date and the time of day of timestamp of logging/logger.hpp.
use silicon.Prelude.{
  ℕ, zero, suc, ◌+◌, ◌-◌, ◌*◌, ◌/◌, ◌<◌, ◌≡◌, ap, List, [], ◌∷◌, arith, ltb, Bool-cases, inl, inr,
}
use silicon.Logging.Timestamp.{
  year_length, month_lengths, find_year, find_month, date_fields, fields_of,
}
use silicon.Logging.Reading.{days_of_years, days_of_months, day_number, time_of}

-- The days of the years that are passed over and those left are the days given.
find_year_sum :
    (fuel year days : ℕ)
    → (n : ℕ) × ((find_year fuel year days).0 ≡ year + n)
      × (days_of_years n year + (find_year fuel year days).1 ≡ days)
unfolding find_year days_of_years
find_year_sum zero year days = (0, omega arith, omega arith)
find_year_sum (suc fuel) year days = elim (Bool-cases (ltb days (year_length year))) [
  | inl e ↦ (0, ground arith, ground arith)
  | inr e ↦
      let (n, l, h) = find_year_sum fuel (year + 1) (days - year_length year) in
      (suc n, ground (arith, e, l), ground (arith, e, h))
]

find_month_sum :
    (month : ℕ) (lens : List ℕ) (days : ℕ)
    → (n : ℕ) × ((find_month month lens days).0 ≡ month + n)
      × (days_of_months n lens + (find_month month lens days).1 ≡ days)
unfolding find_month days_of_months
find_month_sum month [] days = (0, omega arith, omega arith)
find_month_sum month (len ∷ lens) days = elim (Bool-cases (ltb days len)) [
  | inl e ↦ (0, ground arith, ground arith)
  | inr e ↦
      let (n, l, h) = find_month_sum (month + 1) lens (days - len) in
      (suc n, ground (arith, e, l), ground (arith, e, h))
]

-- The fuel is enough: the day that is left lies in the year.
find_year_within :
    (fuel year days : ℕ)
    → days < 365 * fuel
    → (find_year fuel year days).1 < year_length (find_year fuel year days).0
unfolding find_year
find_year_within zero year days l = omega arith
find_year_within (suc fuel) year days l = elim (Bool-cases (ltb days (year_length year))) [
  | inl e ↦ rw e (ground (arith, e))
  | inr e ↦ rw e (
      find_year_within fuel (year + 1) (days - year_length year)
        (unfold year_length in ground (arith, e, l)))
]

-- The fields of a time stand for that time.
pub time_of-fields_of : (now : ℕ) → time_of (fields_of now) ≡ now
unfolding fields_of date_fields time_of day_number
time_of-fields_of now =
    let days : ℕ = now / 1000000 / 86400 in
    let y : ℕ × ℕ = find_year (suc (days / 365)) 1970 days in
    let m : ℕ × ℕ = find_month 1 (month_lengths y.0) y.1 in
    let (n, a, b) = find_year_sum (suc (days / 365)) 1970 days in
    let (k, c, d) = find_month_sum 1 (month_lengths y.0) y.1 in
    let e : y.0 - 1970 ≡ n = omega (arith, a) in
    let f : m.0 - 1 ≡ k = omega (arith, c) in
    omega (
      arith,
      ap (λ i. days_of_years i 1970) e,
      ap (λ i. days_of_months i (month_lengths y.0)) f,
      b,
      d,
    )
