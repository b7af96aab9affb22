-- ===== src/Logging/RoundTrip.antt =====
-- A line of write_line of logging/logger.hpp, read back.
use silicon.Prelude.{
  ℕ, ◌≡◌, refl, ap, ◌∙◌, false, some, [], ◌∷◌, ◌++◌, arith, exists_in, ◌==◌, append_assoc,
}
use silicon.Text.{Str, str_eq}
use silicon.Logging.Levels.{LogLevel, trace, debug, info, warn, error, critical, level_label}
use silicon.Logging.Timestamp.{Fields, pad, print_fields, fields_of, timestamp}
use silicon.Logging.Logger.{line_text}
use silicon.Logging.Reading.{
  ◌>>=◌, read_level, read_until, read_fields, read_line, level_of, time_of,
}
use silicon.Logging.Fields.{
  read_number-pad, pad-IsNumeral, has_newline, newline_append, numeral_one_line,
}
use silicon.Logging.Civil.{time_of-fields_of}

-- The fields with what comes behind each.
abbrev fields_then : Fields → Str → Str
fields_then f rest =
    pad 4 f.year
    ++ b'-'
      ∷ (pad 2 f.month
          ++ b'-'
            ∷ (pad 2 f.day
                ++ b' '
                  ∷ (pad 2 f.hour
                      ++ b':'
                        ∷ (pad 2 f.minute
                            ++ b':' ∷ (pad 2 f.second ++ b'.' ∷ (pad 6 f.micros ++ b' ' ∷ rest))))))

print_fields-then : (f : Fields) (rest : Str) → print_fields f ++ b' ' ∷ rest ≡ fields_then f rest
unfolding print_fields
print_fields-then f rest = simp append_assoc refl

read_fields-then : (f : Fields) (rest : Str) → read_fields (fields_then f rest) ≡ some (f, rest)
unfolding read_fields
read_fields-then f rest = simp read_number-pad refl

-- Up to a byte that the text before it does not hold.
read_until-first :
    (stop : ℕ) (s rest : Str)
    → exists_in (λ c. c == stop) s ≡ false
    → read_until stop (s ++ stop ∷ rest) ≡ some (s, rest)
unfolding read_until exists_in
read_until-first stop [] rest h = ground arith
read_until-first stop (c ∷ s) rest h =
    ground (arith, h, read_until-first stop s rest (ground (arith, h)))

level_of-label : (level : LogLevel) → level_of (level_label level) ≡ some level
unfolding level_of str_eq
level_of-label trace = refl
level_of-label debug = refl
level_of-label info = refl
level_of-label warn = refl
level_of-label error = refl
level_of-label critical = refl

label_inside : (level : LogLevel) → exists_in (λ c. c == b']') (level_label level) ≡ false
unfolding exists_in
label_inside trace = refl
label_inside debug = refl
label_inside info = refl
label_inside warn = refl
label_inside error = refl
label_inside critical = refl

label_one_line : (level : LogLevel) → has_newline (level_label level) ≡ false
unfolding exists_in
label_one_line trace = refl
label_one_line debug = refl
label_one_line info = refl
label_one_line warn = refl
label_one_line error = refl
label_one_line critical = refl

read_level-label :
    (time : ℕ) (level : LogLevel) (message : Str)
    → read_level time (b'[' ∷ (level_label level ++ b']' ∷ b' ' ∷ message))
      ≡ some (record { time = time; level = level; message = message })
unfolding read_level exists_in
read_level-label time level message =
    rw
      (
        read_until-first b'[' [] (level_label level ++ b']' ∷ b' ' ∷ message) refl,
        read_until-first b']' (level_label level) (b' ' ∷ message) (label_inside level),
        read_until-first b' ' [] message refl,
        level_of-label level,
      )
      refl

abbrev behind_time : LogLevel → Str → Str
behind_time level message = b'[' ∷ (level_label level ++ b']' ∷ b' ' ∷ message)

line_text-then :
    (now : ℕ) (level : LogLevel) (message : Str)
    → line_text now level message ≡ fields_then (fields_of now) (behind_time level message)
unfolding line_text timestamp
line_text-then now level message =
    simp append_assoc refl ∙ print_fields-then (fields_of now) (behind_time level message)

-- A line of the logger reads back as its time, level and message, whatever the message holds.
pub read_line-line_text :
    (now : ℕ) (level : LogLevel) (message : Str)
    → read_line (line_text now level message)
      ≡ some (record { time = now; level = level; message = message })
unfolding read_line
read_line-line_text now level message =
    ap (λ r. r >>= (λ (f : Fields × Str). read_level (time_of f.0) f.1))
      (ap read_fields (line_text-then now level message)
        ∙ read_fields-then (fields_of now) (behind_time level message))
    ∙ rw (time_of-fields_of now) (read_level-label now level message)

pad_one_line : (width n : ℕ) → has_newline (pad width n) ≡ false
pad_one_line width n = numeral_one_line (pad width n) (pad-IsNumeral width n)

-- A message of one line makes one line.
pub line_text_one_line :
    (now : ℕ) (level : LogLevel) (message : Str)
    → has_newline message ≡ false
    → has_newline (line_text now level message) ≡ false
unfolding line_text timestamp print_fields exists_in
line_text_one_line now level message h =
    simp (newline_append, pad_one_line, label_one_line level, h) refl
