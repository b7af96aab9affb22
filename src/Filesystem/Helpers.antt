-- ===== src/Filesystem/Helpers.antt =====
-- The text helpers of src/filesystem/filesystem_enforcer.cpp.
use silicon.Prelude.{
  ℕ, ◌+◌, Bool, true, false, not, ◌&&◌, ◌||◌, none, some, List, [], ◌∷◌, map, ltb, leb, ◌==◌,
  if◌then◌else◌, length, drop, is_empty,
}
use mathlib.Core.Bool.{beq}
use silicon.Prelude.Int.{eq_int}
use silicon.Text.{Str, starts_with, back, char_at, tolower, isprint, find_last_of}
use silicon.FsPath.{slash}
use silicon.Filesystem.Types.{PathFingerprint}

-- EACCES and EPERM on macOS.
abbrev pub eacces : ℕ
eacces = 13

abbrev pub eperm : ℕ
eperm = 1

unfoldable pub is_permission_error : ℕ → Bool
is_permission_error error_code = error_code == eacces || error_code == eperm

unfoldable pub sanitize_byte : ℕ → ℕ
unfolding isprint
sanitize_byte c =
    if c == b'\n' || c == b'\r' || c == b'\t' then b' ' else if isprint c then c else b'?'

unfoldable pub sanitize_for_log : Str → Str
unfolding sanitize_byte
sanitize_for_log [] = []
sanitize_for_log (c ∷ value) = sanitize_byte c ∷ sanitize_for_log value

unfoldable pub has_directory_prefix : Str → Str → Bool
unfolding starts_with back char_at
has_directory_prefix path prefix =
    if is_empty prefix || ltb (length path) (length prefix)
    then false
    else if not (starts_with path prefix)
    then false
    else if length path == length prefix
    then true
    else if back prefix == slash
    then true
    else char_at path (length prefix) == slash

unfoldable pub lower_ascii_copy : Str → Str
unfolding tolower
lower_ascii_copy value = map tolower value

unfoldable pub basename_from_path : Str → Str
unfolding find_last_of
basename_from_path path = if is_empty path then [] else elim (find_last_of slash path) [
  | none ↦ path
  | some slash_pos ↦ if leb (length path) (slash_pos + 1) then [] else drop (slash_pos + 1) path
]

unfoldable pub fingerprints_equal : PathFingerprint → PathFingerprint → Bool
fingerprints_equal left right =
    beq left.is_directory right.is_directory
    && left.size_bytes == right.size_bytes
    && eq_int left.modified_ticks right.modified_ticks

unfoldable pub should_ignore_path : Str → List Str → Bool
unfolding has_directory_prefix
should_ignore_path path [] = false
should_ignore_path path (pattern ∷ patterns) =
    let rest = should_ignore_path path patterns in
    if is_empty pattern then rest else if has_directory_prefix path pattern then true else rest
