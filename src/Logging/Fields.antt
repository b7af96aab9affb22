-- ===== src/Logging/Fields.antt =====
-- The padded numbers of timestamp of logging/logger.hpp, read back.
use silicon.Prelude.{
  ℕ, zero, suc, ◌+◌, ◌-◌, ◌*◌, ◌/◌, ◌%◌, ◌≡◌, refl, ap, ◌∙◌, Bool, true, false, some, [], ◌∷◌, ◌++◌,
  ◌==◌, arith, All, length, exists_in, if◌then◌else◌,
}
use silicon.Text.{Str, digits, digits_within}
use silicon.Text.Laws.{decimal, decimal-digits}
use silicon.Logging.Timestamp.{zeros, pad}
use silicon.Logging.Reading.{is_digit, read_number}

abbrev pub IsNumeral : Str → Type 0
IsNumeral = All (λ c. is_digit c ≡ true)

IsNumeral-append : (ds es : Str) → IsNumeral ds → IsNumeral es → IsNumeral (ds ++ es)
IsNumeral-append [] es h k = k
IsNumeral-append (d ∷ ds) es (h, hs) k = (h, IsNumeral-append ds es hs k)

zeros-IsNumeral : (n : ℕ) → IsNumeral (zeros n)
unfolding zeros
zeros-IsNumeral zero = tt
zeros-IsNumeral (suc n) = (refl, zeros-IsNumeral n)

digits_within-IsNumeral : (fuel n : ℕ) → IsNumeral (digits_within fuel n)
unfolding digits_within
digits_within-IsNumeral zero n = tt
digits_within-IsNumeral (suc fuel) n = ground (
  arith,
  IsNumeral-append (digits_within fuel (n / 10)) ((b'0' + n % 10) ∷ [])
      (digits_within-IsNumeral fuel (n / 10)) (ground arith, tt),
)

pub pad-IsNumeral : (width n : ℕ) → IsNumeral (pad width n)
unfolding pad digits
pad-IsNumeral width n =
    IsNumeral-append _ _ (zeros-IsNumeral (width - length (digits n)))
      (digits_within-IsNumeral (suc n) n)

decimal-zeros : (n : ℕ) (ds : Str) → decimal 0 (zeros n ++ ds) ≡ decimal 0 ds
unfolding zeros
decimal-zeros zero ds = refl
decimal-zeros (suc n) ds = decimal-zeros n ds

read_number-digits :
    (separator value : ℕ) (ds rest : Str)
    → IsNumeral ds
    → read_number separator value (ds ++ rest) ≡ read_number separator (decimal value ds) rest
unfolding read_number
read_number-digits separator value [] rest h = refl
read_number-digits separator value (d ∷ ds) rest (h, hs) =
    rw h (read_number-digits separator (value * 10 + (d - b'0')) ds rest hs)

read_number-separator :
    (separator value : ℕ) (rest : Str)
    → is_digit separator ≡ false
    → read_number separator value (separator ∷ rest) ≡ some (value, rest)
unfolding read_number
read_number-separator separator value rest h = ground (arith, h)

decimal-pad : (width n : ℕ) → decimal 0 (pad width n) ≡ n
unfolding pad
decimal-pad width n = decimal-zeros (width - length (digits n)) (digits n) ∙ decimal-digits n

-- A padded number reads back as the number.
pub read_number-pad :
    (separator width n : ℕ) (rest : Str)
    → is_digit separator ≡ false
    → read_number separator 0 (pad width n ++ separator ∷ rest) ≡ some (n, rest)
read_number-pad separator width n rest h =
    read_number-digits separator 0 (pad width n) (separator ∷ rest) (pad-IsNumeral width n)
    ∙ ap (λ v. read_number separator v (separator ∷ rest)) (decimal-pad width n)
    ∙ read_number-separator separator n rest h

-- The bytes of a text without an end of line.
abbrev pub has_newline : Str → Bool
has_newline text = exists_in (λ c. c == 10) text

pub newline_append :
    (s t : Str) → has_newline (s ++ t) ≡ (if has_newline s then true else has_newline t)
unfolding exists_in
newline_append [] t = refl
newline_append (c ∷ s) t = ground (arith, newline_append s t)

pub numeral_one_line : (ds : Str) → IsNumeral ds → has_newline ds ≡ false
unfolding exists_in
numeral_one_line [] h = refl
numeral_one_line (d ∷ ds) (h, hs) = ground (arith, numeral_one_line ds hs)
