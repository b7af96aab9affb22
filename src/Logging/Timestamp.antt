-- ===== src/Logging/Timestamp.antt =====
-- timestamp of logging/logger.hpp. A time is the number of microseconds since 1970, in UTC.
use silicon.Prelude.{
  ℕ, zero, suc, ◌+◌, ◌-◌, ◌/◌, ◌%◌, Bool, not, ◌&&◌, ◌||◌, List, [], ◌∷◌, ◌++◌, ltb, ◌==◌,
  if◌then◌else◌, length,
}
use silicon.Text.{Str, codes, digits}

-- The calendar of std::chrono.
unfoldable pub is_leap : ℕ → Bool
is_leap year = year % 4 == 0 && (not (year % 100 == 0) || year % 400 == 0)

unfoldable pub year_length : ℕ → ℕ
year_length year = if is_leap year then 366 else 365

abbrev pub month_lengths : ℕ → List ℕ
month_lengths year =
    31 ∷ (if is_leap year then 29 else 28) ∷ 31 ∷ 30 ∷ 31 ∷ 30 ∷ 31 ∷ 31 ∷ 30 ∷ 31 ∷ 30 ∷ 31 ∷ []

-- The year of a day counted from the first of January of some year, and the day counted in it.
unfoldable pub find_year : ℕ → ℕ → ℕ → ℕ × ℕ
find_year zero year days = (year, days)
find_year (suc fuel) year days =
    let rest = find_year fuel (year + 1) (days - year_length year) in
    if ltb days (year_length year) then (year, days) else rest

-- The month of a day counted from the first of some month, and the day counted in it.
unfoldable pub find_month : ℕ → List ℕ → ℕ → ℕ × ℕ
find_month month [] days = (month, days)
find_month month (len ∷ lens) days =
    let rest = find_month (month + 1) lens (days - len) in
    if ltb days len then (month, days) else rest

-- The fields of the format.
pub record Fields : Type 0 where
  pub year : ℕ
  pub month : ℕ
  pub day : ℕ
  pub hour : ℕ
  pub minute : ℕ
  pub second : ℕ
  pub micros : ℕ

unfoldable pub date_fields : ℕ → ℕ → ℕ → Fields
date_fields days seconds micros =
    let (year, day_of_year) = find_year (suc (days / 365)) 1970 days in
    let (month, day) = find_month 1 (month_lengths year) day_of_year in
    record {
      year = year;
      month = month;
      day = suc day;
      hour = seconds / 3600;
      minute = seconds / 60 % 60;
      second = seconds % 60;
      micros = micros;
    }

unfoldable pub fields_of : ℕ → Fields
fields_of now =
    let secs = now / 1000000 in date_fields (secs / 86400) (secs % 86400) (now % 1000000)

unfoldable pub zeros : ℕ → Str
zeros zero = []
zeros (suc n) = b'0' ∷ zeros n

-- A number with zeros before it, up to a width.
unfoldable pub pad : ℕ → ℕ → Str
pad width n = zeros (width - length (digits n)) ++ digits n

unfoldable pub print_fields : Fields → Str
print_fields f =
    pad 4 f.year
    ++ codes "-"
    ++ pad 2 f.month
    ++ codes "-"
    ++ pad 2 f.day
    ++ codes " "
    ++ pad 2 f.hour
    ++ codes ":"
    ++ pad 2 f.minute
    ++ codes ":"
    ++ pad 2 f.second
    ++ codes "."
    ++ pad 6 f.micros

-- The branch for a format_error is left out: this format throws none.
unfoldable pub timestamp : ℕ → Str
timestamp now = print_fields (fields_of now)
