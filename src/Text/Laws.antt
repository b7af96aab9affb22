-- ===== src/Text/Laws.antt =====
-- Laws of the operations on texts.
use silicon.Prelude.{
  ℕ, zero, suc, ◌+◌, ◌-◌, ◌*◌, ◌/◌, ◌%◌, ◌≤◌, ◌≡◌, refl, ap, ◌≢◌, ◌↔◌, inl, inr, true, List, [],
  ◌∷◌, ◌++◌, arith, if◌then◌else◌, length, drop, All, none, some, Option-cases,
}
use silicon.Text.{
  digits, digits_within, Str, str_eq, starts_with, find_last_of, char_at, mem, set_insert,
}

pub str_eq_refl : (s : Str) → str_eq s s ≡ true
unfolding str_eq
str_eq_refl [] = refl
str_eq_refl (x ∷ xs) = ground (arith, str_eq_refl xs)

pub str_eq→eq : (s t : Str) → str_eq s t ≡ true → s ≡ t
unfolding str_eq
str_eq→eq [] [] h = refl
str_eq→eq [] (y ∷ ys) h = ground arith
str_eq→eq (x ∷ xs) [] h = ground arith
str_eq→eq (x ∷ xs) (y ∷ ys) h = ground (arith, str_eq→eq xs ys)

pub str_eq_iff : (s t : Str) → (str_eq s t ≡ true) ↔ (s ≡ t)
str_eq_iff s t = (str_eq→eq s t, λ e. ground (arith, str_eq_refl s))

-- A prefix splits the text.
pub starts_with→eq : (v p : Str) → starts_with v p ≡ true → (r : Str) × (v ≡ p ++ r)
unfolding starts_with
starts_with→eq v [] h = (v, refl)
starts_with→eq [] (p ∷ ps) h = absurd (ground arith)
starts_with→eq (x ∷ xs) (p ∷ ps) h =
    let (r, e) = starts_with→eq xs ps (ground arith) in (r, ground arith)

pub starts_with-append : (p r : Str) → starts_with (p ++ r) p ≡ true
unfolding starts_with
starts_with-append [] r = refl
starts_with-append (p ∷ ps) r = ground (arith, starts_with-append ps r)

pub char_at-append : (p r : Str) → char_at (p ++ r) (length p) ≡ char_at r 0
unfolding char_at
char_at-append [] r = refl
char_at-append (p ∷ ps) r = char_at-append ps r

pub drop-append : (p r : Str) → drop (length p) (p ++ r) ≡ r
drop-append [] r = refl
drop-append (p ∷ ps) r = drop-append ps r

pub drop-suc-append : (p : Str) (c : ℕ) (r : Str) → drop (suc (length p)) (p ++ c ∷ r) ≡ r
drop-suc-append [] c r = refl
drop-suc-append (p ∷ ps) c r = drop-suc-append ps c r

-- What `find_last_of` finds.
pub find_last_of-none : (c : ℕ) (s : Str) → find_last_of c s ≡ none → All (λ x. x ≢ c) s
unfolding find_last_of
find_last_of-none c [] h = tt
find_last_of-none c (x ∷ xs) h = (ground arith, find_last_of-none c xs (ground arith))

pub find_last_of-some :
    (c : ℕ) (s : Str) (i : ℕ)
    → find_last_of c s ≡ some i
    → (a : Str) × (b : Str) × (s ≡ a ++ c ∷ b) × (length a ≡ i) × All (λ x. x ≢ c) b
unfolding find_last_of
find_last_of-some c [] i h = absurd (ground arith)
find_last_of-some c (x ∷ xs) i h = elim (Option-cases (find_last_of c xs)) [
  | inl e ↦ ([], xs, ground arith, ground arith, find_last_of-none c xs e)
  | inr (j, e) ↦
      let (a, b, split, size, rest) = find_last_of-some c xs j e in
      (x ∷ a, b, ap (λ (t : Str). x ∷ t) split, ground arith, rest)
]

-- Sets.
pub mem-append :
    (s : Str) (xs ys : List Str) → mem s (xs ++ ys) ≡ (if mem s xs then true else mem s ys)
unfolding mem
mem-append s [] ys = refl
mem-append s (x ∷ xs) ys = ground (arith, mem-append s xs ys)

pub mem-set_insert :
    (s t : Str) (xs : List Str) → mem s (set_insert t xs) ≡ (if str_eq t s then true else mem s xs)
unfolding set_insert
mem-set_insert s t xs = ground (arith, mem-append s xs (t ∷ []), str_eq_iff t s)

-- The number that a list of decimal digits stands for, after the number before them.
abbrev pub decimal : ℕ → Str → ℕ
decimal before [] = before
decimal before (d ∷ ds) = decimal (before * 10 + (d - b'0')) ds

decimal-snoc :
    (before : ℕ) (ds : Str) (d : ℕ)
    → decimal before (ds ++ d ∷ []) ≡ decimal before ds * 10 + (d - b'0')
decimal-snoc before [] d = refl
decimal-snoc before (c ∷ ds) d = decimal-snoc (before * 10 + (c - b'0')) ds d

decimal-digits_within : (fuel n : ℕ) → n ≤ fuel → decimal 0 (digits_within fuel n) ≡ n
unfolding digits_within
decimal-digits_within zero n l = omega arith
decimal-digits_within (suc fuel) n l = ground (
  arith,
  decimal-digits_within fuel (n / 10) (omega (arith, l)),
  decimal-snoc 0 (digits_within fuel (n / 10)) (b'0' + n % 10),
)

-- The fuel of digits is enough: the digits of a number stand for it.
pub decimal-digits : (n : ℕ) → decimal 0 (digits n) ≡ n
unfolding digits
decimal-digits n = decimal-digits_within (suc n) n (omega arith)
