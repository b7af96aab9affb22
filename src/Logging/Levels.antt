-- ===== src/Logging/Levels.antt =====
-- LogLevel of logging/logger.hpp, its order and its labels.
use silicon.Prelude.{ℕ, Bool, leb}
use silicon.Text.{Str, codes}

pub data LogLevel : Type 0 where
  trace debug info warn error critical : LogLevel

abbrev pub level_rank : LogLevel → ℕ
level_rank trace = 0
level_rank debug = 1
level_rank info = 2
level_rank warn = 3
level_rank error = 4
level_rank critical = 5

abbrev pub level_label : LogLevel → Str
level_label trace = codes "TRACE"
level_label debug = codes "DEBUG"
level_label info = codes "INFO"
level_label warn = codes "WARN"
level_label error = codes "ERROR"
level_label critical = codes "CRITICAL"

-- Whether a message of the second level goes out under the first, min_level_.
unfoldable pub is_enabled : LogLevel → LogLevel → Bool
is_enabled min_level level = leb (level_rank min_level) (level_rank level)
