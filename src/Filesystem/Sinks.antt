-- ===== src/Filesystem/Sinks.antt =====
-- SystemClipboard, LoggingNotificationSink and describe_error_code of
-- src/filesystem/filesystem_enforcer.cpp.
use silicon.Prelude.{ℕ, Bool, true, false, Option, none, some, [], ◌++◌, ◌==◌, if◌then◌else◌}
use silicon.Prelude.Int.{ℤ, pos, negsuc, below, to_nat}
use silicon.Text.{Str, codes, print_int}
use silicon.Platform.{Outcome, done, failed}
use silicon.Filesystem.Helpers.{sanitize_for_log}
use silicon.Logging.Levels.{warn}
use silicon.Logging.Logger.{Call, formatting, formatted}

unfoldable pub is_zero : ℤ → Bool
is_zero (pos n) = n == 0
is_zero (negsuc n) = false

-- Given strerror, and the pipe: the errno where popen fails, else what pclose returns.
unfoldable pub clear : (ℕ → Str) → Outcome ℤ → Bool × Str
clear strerror (failed errno) = (false, strerror errno)
clear strerror (done close_status) =
    if is_zero close_status
    then (true, [])
    else (false, codes "pbcopy exited with status " ++ print_int close_status)

-- The call of the logger that notify makes, and the time of its line.
unfoldable pub notify : ℕ → Str → Call
notify now message =
    formatting now warn (formatted (codes "NOTIFICATION: " ++ sanitize_for_log message))

-- strerror may return a null pointer.
unfoldable pub describe_error_code : (ℕ → Option Str) → ℤ → Str
describe_error_code strerror error_code =
    if below error_code 1
    then codes "unknown"
    else elim (strerror (to_nat error_code)) [ none ↦ codes "unknown" | some text ↦ text ]
