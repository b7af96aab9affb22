-- ===== src/FsPath.antt =====
-- std::filesystem::path on POSIX, the part that looks at the text of a path alone. A path is its
-- text, which generic_string() gives back.
use silicon.Prelude.{
  ℕ, Bool, true, false, not, ◌&&◌, ◌||◌, List, [], ◌∷◌, ◌++◌, ◌==◌, if◌then◌else◌, is_empty, suc,
  exists_in, some, none, zero,
}
use mathlib.Core.List.{reverse}
use silicon.Text.{Str, codes, str_eq, back, find_last_of}

abbrev pub slash : ℕ
slash = b'/'

unfoldable pub is_absolute : Str → Bool
is_absolute [] = false
is_absolute (c ∷ cs) = c == slash

unfoldable pub is_relative : Str → Bool
unfolding is_absolute
is_relative path = not (is_absolute path)

-- operator/
unfoldable pub join : Str → Str → Str
unfolding is_absolute back
join left right =
    if is_absolute right
    then right
    else if is_empty left || back left == slash
    then left ++ right
    else left ++ slash ∷ right

onto_first : ℕ → List Str → List Str
onto_first c [] = (c ∷ []) ∷ []
onto_first c (part ∷ parts) = (c ∷ part) ∷ parts

-- The parts between slashes, empty ones too.
unfoldable pub split : Str → List Str
unfolding onto_first
split [] = [] ∷ []
split (c ∷ cs) = let rest = split cs in if c == slash then [] ∷ rest else onto_first c rest

-- The text without the slashes at its end.
strip_slashes : Str → Str
strip_slashes [] = []
strip_slashes (c ∷ cs) =
    let rest = strip_slashes cs in if is_empty rest && c == slash then [] else c ∷ rest

take_to : ℕ → Str → Str
take_to zero s = []
take_to (suc n) [] = []
take_to (suc n) (c ∷ cs) = c ∷ take_to n cs

-- parent_path()
unfoldable pub parent_path : Str → Str
unfolding find_last_of strip_slashes take_to is_absolute
parent_path path = elim (find_last_of slash path) [
  | none ↦ []
  | some i ↦
      let dir = strip_slashes (take_to i path) in
      if is_empty dir && is_absolute path then slash ∷ [] else dir
]

-- The state of lexically_normal's walk: the parts kept, the last one first, and whether the text
-- so far ends in a separator.
pub record Walk : Type 0 where
  pub parts : List Str
  pub trailing : Bool

walk_up : Bool → List Str → Walk
walk_up rooted [] =
    if rooted
    then record { parts = []; trailing = true }
    else record { parts = codes ".." ∷ []; trailing = false }
walk_up rooted (part ∷ parts) =
    if str_eq part (codes "..")
    then record { parts = codes ".." ∷ part ∷ parts; trailing = false }
    else record { parts = parts; trailing = true }

walk_part : Bool → Walk → Str → Walk
unfolding walk_up str_eq
walk_part rooted w part =
    if is_empty part || str_eq part (codes ".")
    then record w { trailing = true }
    else if str_eq part (codes "..")
    then walk_up rooted w.parts
    else record { parts = part ∷ w.parts; trailing = false }

unfoldable pub walk : Bool → Walk → List Str → Walk
unfolding walk_part
walk rooted w [] = w
walk rooted w (part ∷ parts) = walk rooted (walk_part rooted w part) parts

unfoldable pub join_parts : List Str → Str
join_parts [] = []
join_parts (part ∷ []) = part
join_parts (part ∷ next ∷ parts) = part ++ slash ∷ join_parts (next ∷ parts)

trailing_slash : Walk → Str
unfolding str_eq
trailing_slash w = elim w.parts [
  | [] ↦ []
  | part ∷ _ ↦ if w.trailing && not (str_eq part (codes "..")) then slash ∷ [] else []
]

-- lexically_normal()
unfoldable pub lexically_normal : Str → Str
unfolding is_absolute walk split join_parts trailing_slash
lexically_normal path =
    let rooted = is_absolute path in
    let w = walk rooted (record { parts = []; trailing = false }) (split path) in
    let text =
      (if rooted then slash ∷ [] else []) ++ join_parts (reverse w.parts) ++ trailing_slash w in
    if is_empty path then [] else if is_empty text then codes "." else text

-- `for (part : path) if (part == "..")`
unfoldable pub has_dot_dot : Str → Bool
unfolding split str_eq exists_in
has_dot_dot path = exists_in (λ part. str_eq part (codes "..")) (split path)
