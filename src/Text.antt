-- ===== src/Text.antt =====
-- std::string and std::string_view as the program uses them: a text is the list of its bytes.
pub mod Laws
use Prim.Native.Char.{code}
use silicon.Prelude.Int.{ℤ, pos, negsuc}
use silicon.Prelude.{
  ℕ, zero, suc, ◌+◌, ◌-◌, ◌/◌, ◌%◌, String, Bool, true, false, ◌&&◌, Option, none, some, List, [],
  ◌∷◌, ◌++◌, ltb, leb, ◌==◌, if◌then◌else◌, length, drop,
}

abbrev pub Str : Type 0
Str = List ℕ

-- The bytes of a literal (all literals of the program are ASCII).
abbrev pub codes : String → Str
codes String.[] = []
codes (String.◌∷◌ c s) = code c ∷ codes s

-- operator==
unfoldable pub str_eq : Str → Str → Bool
str_eq [] [] = true
str_eq [] (y ∷ ys) = false
str_eq (x ∷ xs) [] = false
str_eq (x ∷ xs) (y ∷ ys) = let rest = str_eq xs ys in if x == y then rest else false

-- value.starts_with(prefix), the arguments in that order.
unfoldable pub starts_with : Str → Str → Bool
starts_with value [] = true
starts_with [] (p ∷ ps) = false
starts_with (x ∷ xs) (p ∷ ps) = let rest = starts_with xs ps in if x == p then rest else false

-- value.ends_with(suffix)
unfoldable pub ends_with : Str → Str → Bool
unfolding str_eq
ends_with value suffix =
    leb (length suffix) (length value) && str_eq (drop (length value - length suffix) value) suffix

-- value.find_last_of(c); `none` is npos.
unfoldable pub find_last_of : ℕ → Str → Option ℕ
find_last_of c [] = none
find_last_of c (x ∷ xs) = elim (find_last_of c xs) [
  | some i ↦ some (suc i)
  | none ↦ if x == c then some 0 else none
]

-- value.back(); 0 for an empty text, where the program never asks.
unfoldable pub back : Str → ℕ
back [] = 0
back (x ∷ []) = x
back (x ∷ y ∷ ys) = back (y ∷ ys)

-- value[i]; 0 out of range (there it is the terminator or never read).
unfoldable pub char_at : Str → ℕ → ℕ
char_at [] i = 0
char_at (x ∷ xs) zero = x
char_at (x ∷ xs) (suc i) = char_at xs i

-- std::tolower in the "C" locale.
unfoldable pub tolower : ℕ → ℕ
tolower c = if leb b'A' c && leb c b'Z' then c + 32 else c

-- std::isprint in the "C" locale.
unfoldable pub isprint : ℕ → Bool
isprint c = leb 32 c && leb c 126

-- Membership in a set or a vector of texts.
unfoldable pub mem : Str → List Str → Bool
unfolding str_eq
mem s [] = false
mem s (x ∷ xs) = let rest = mem s xs in if str_eq x s then true else rest

-- unordered_set::insert. A set is the list of its elements, none twice, in the order in which they
-- came in.
unfoldable pub set_insert : Str → List Str → List Str
unfolding mem
set_insert s xs = if mem s xs then xs else xs ++ s ∷ []

-- A number in decimal, as std::format writes it; the fuel bounds the digits.
unfoldable pub digits_within : ℕ → ℕ → Str
digits_within zero n = []
digits_within (suc fuel) n =
    let higher = digits_within fuel (n / 10) in
    if ltb n 10 then (b'0' + n) ∷ [] else higher ++ (b'0' + n % 10) ∷ []

unfoldable pub digits : ℕ → Str
digits n = digits_within (suc n) n

-- An int in decimal.
unfoldable pub print_int : ℤ → Str
print_int (pos n) = digits n
print_int (negsuc n) = b'-' ∷ digits (suc n)
