-- ===== src/Filesystem/Printable.antt =====
-- What sanitize_for_log of src/filesystem/filesystem_enforcer.cpp lets through.
use silicon.Prelude.{ℕ, ◌≤◌, [], ◌∷◌, All, arith}
use silicon.Text.{Str}
use silicon.Filesystem.Helpers.{sanitize_for_log, sanitize_byte}

-- Printable ASCII alone: no control byte, so no line break.
abbrev pub IsPrintable : Str → Type 0
IsPrintable = All (λ c. (32 ≤ c) × (c ≤ 126))

sanitize_byte_bounds : (c : ℕ) → (32 ≤ sanitize_byte c) × (sanitize_byte c ≤ 126)
unfolding sanitize_byte
sanitize_byte_bounds c = ground arith

-- Whatever bytes it is given, sanitize_for_log gives printable ASCII alone.
pub sanitize_for_log-IsPrintable : (s : Str) → IsPrintable (sanitize_for_log s)
unfolding sanitize_for_log
sanitize_for_log-IsPrintable [] = tt
sanitize_for_log-IsPrintable (c ∷ s) = (sanitize_byte_bounds c, sanitize_for_log-IsPrintable s)
