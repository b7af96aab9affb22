-- ===== src/Logging/Reading.antt =====
-- A log file read back: the inverse of what Logger of logging/logger.hpp writes, written without its
-- functions.
use silicon.Prelude.{
  ℕ, zero, suc, ◌+◌, ◌-◌, ◌*◌, Bool, ◌&&◌, Option, none, some, List, [], ◌∷◌, map, leb, ◌==◌,
  if◌then◌else◌,
}
use silicon.Text.{Str, codes, str_eq}
use silicon.Logging.Levels.{LogLevel, trace, debug, info, warn, error, critical}
use silicon.Logging.Timestamp.{Fields, year_length, month_lengths}

infixl 5 ◌>>=◌
abbrev pub ◌>>=◌ : {A B : Type 0} → Option A → (A → Option B) → Option B
none >>= f = none
some a >>= f = f a

abbrev pub is_digit : ℕ → Bool
is_digit c = leb b'0' c && leb c b'9'

-- The number at the start of a text, and what comes behind the separator that has to end it.
unfoldable pub read_number : ℕ → ℕ → Str → Option (ℕ × Str)
read_number separator value [] = none
read_number separator value (c ∷ cs) =
    let rest = read_number separator (value * 10 + (c - b'0')) cs in
    if is_digit c then rest else if c == separator then some (value, cs) else none

-- The text before the first of a byte, and the text behind it.
unfoldable pub read_until : ℕ → Str → Option (Str × Str)
read_until stop [] = none
read_until stop (c ∷ cs) =
    let rest = read_until stop cs >>= (λ (r : Str × Str). some (c ∷ r.0, r.1)) in
    if c == stop then some ([], cs) else rest

-- The days of the years before one, from 1970 on, and of the months before one.
unfoldable pub days_of_years : ℕ → ℕ → ℕ
days_of_years zero year = 0
days_of_years (suc n) year = year_length year + days_of_years n (year + 1)

unfoldable pub days_of_months : ℕ → List ℕ → ℕ
days_of_months zero lens = 0
days_of_months (suc n) [] = 0
days_of_months (suc n) (len ∷ lens) = len + days_of_months n lens

unfoldable pub day_number : Fields → ℕ
day_number f =
    days_of_years (f.year - 1970) 1970
    + days_of_months (f.month - 1) (month_lengths f.year)
    + (f.day - 1)

-- The microseconds since 1970.
unfoldable pub time_of : Fields → ℕ
time_of f = (day_number f * 86400 + f.hour * 3600 + f.minute * 60 + f.second) * 1000000 + f.micros

unfoldable pub read_fields : Str → Option (Fields × Str)
read_fields text = do
  (year, text1) ← read_number b'-' 0 text
  (month, text2) ← read_number b'-' 0 text1
  (day, text3) ← read_number b' ' 0 text2
  (hour, text4) ← read_number b':' 0 text3
  (minute, text5) ← read_number b':' 0 text4
  (second, text6) ← read_number b'.' 0 text5
  (micros, text7) ← read_number b' ' 0 text6
  some (
    record {
      year = year;
      month = month;
      day = day;
      hour = hour;
      minute = minute;
      second = second;
      micros = micros;
    },
    text7,
  )

unfoldable pub level_of : Str → Option LogLevel
level_of label =
    if str_eq label (codes "TRACE")
    then some trace
    else if str_eq label (codes "DEBUG")
    then some debug
    else if str_eq label (codes "INFO")
    then some info
    else if str_eq label (codes "WARN")
    then some warn
    else if str_eq label (codes "ERROR")
    then some error
    else if str_eq label (codes "CRITICAL")
    then some critical
    else none

pub record Entry : Type 0 where
  pub time : ℕ
  pub level : LogLevel
  pub message : Str

-- The level in brackets, and the message.
unfoldable pub read_level : ℕ → Str → Option Entry
read_level time text = do
  (opening, text1) ← read_until b'[' text
  (label, text2) ← read_until b']' text1
  (space, message) ← read_until b' ' text2
  level ← level_of label
  some (record { time = time; level = level; message = message })

-- One line: the time, the level and the message.
unfoldable pub read_line : Str → Option Entry
read_line text = read_fields text >>= (λ (f : Fields × Str). read_level (time_of f.0) f.1)

unfoldable pub onto_first : ℕ → List Str → List Str
onto_first c [] = (c ∷ []) ∷ []
onto_first c (line ∷ lines) = (c ∷ line) ∷ lines

-- The lines of a file, without the byte that ends each.
unfoldable pub lines_of : Str → List Str
unfolding onto_first
lines_of [] = []
lines_of (c ∷ cs) = let rest = lines_of cs in if c == 10 then [] ∷ rest else onto_first c rest

-- A whole file; a line that is none of the logger's gives `none`.
unfoldable pub read_file : Str → List (Option Entry)
read_file text = map read_line (lines_of text)
