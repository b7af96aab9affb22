-- ===== src/Process/Helpers.antt =====
-- The text helpers of src/process/process_enforcer.cpp, which it has for itself.
use silicon.Prelude.{
  ℕ, ◌+◌, Bool, true, false, not, ◌||◌, none, some, [], ◌∷◌, map, ltb, leb, ◌==◌, if◌then◌else◌,
  length, drop, is_empty,
}
use silicon.Text.{Str, starts_with, back, char_at, tolower, isprint, find_last_of}
use silicon.FsPath.{slash}

unfoldable pub has_directory_prefix : Str → Str → Bool
unfolding starts_with back char_at
has_directory_prefix path prefix =
    if is_empty prefix || ltb (length path) (length prefix)
    then false
    else if not (starts_with path prefix)
    then false
    else if length path == length prefix
    then true
    else if back prefix == slash
    then true
    else char_at path (length prefix) == slash

unfoldable pub lower_ascii_copy : Str → Str
unfolding tolower
lower_ascii_copy value = map tolower value

unfoldable pub basename_from_path : Str → Str
unfolding find_last_of
basename_from_path path = if is_empty path then [] else elim (find_last_of slash path) [
  | none ↦ path
  | some pos ↦ if leb (length path) (pos + 1) then [] else drop (pos + 1) path
]

unfoldable pub sanitize_byte : ℕ → ℕ
unfolding isprint
sanitize_byte c =
    if c == b'\n' || c == b'\r' || c == b'\t' then b' ' else if isprint c then c else b'?'

unfoldable pub sanitize_for_log : Str → Str
unfolding sanitize_byte
sanitize_for_log [] = []
sanitize_for_log (c ∷ value) = sanitize_byte c ∷ sanitize_for_log value
