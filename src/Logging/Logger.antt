-- ===== src/Logging/Logger.antt =====
-- The state and the operations of Logger of logging/logger.hpp.
use silicon.Prelude.{
  ℕ, Bool, true, false, not, Option, none, some, [], ◌∷◌, ◌++◌, if◌then◌else◌, is_empty,
}
use silicon.Text.{Str, codes}
use silicon.FsPath.{parent_path}
use silicon.Logging.Levels.{LogLevel, trace, level_label, is_enabled}
use silicon.Logging.Timestamp.{timestamp}

-- The file system, as std::filesystem and std::ofstream use it here.
pub record FileStore : Type 1 where
  pub Disk : Type 0
  pub create_directories : Disk → Str → Disk  -- whether it throws or not
  pub open_append : Disk → Str → Disk × Bool  -- open(path, out | app) and is_open()
  pub append : Disk → Str → Str → Disk  -- what << and flush write at the end of the file
  pub contents : Disk → Str → Str  -- of a file; empty where there is none

-- The outcome of std::format with its arguments.
pub data Formatted : Type 0 where
  formatted : Str → Formatted
  format_error : Str → Formatted  -- what() of the exception

abbrev pub message_of : Formatted → Str
message_of (formatted message) = message
message_of (format_error what) = codes "format_error: " ++ what

-- The public operations, as one sequence: each of them holds the lock where it writes.
pub data Call : Type 0 where
  moving : Str → Call
  filtering : LogLevel → Call
  saying : ℕ → LogLevel → Str → Call
  formatting : ℕ → LogLevel → Formatted → Call

unfoldable pub line_text : ℕ → LogLevel → Str → Str
line_text now level message =
    timestamp now ++ codes " [" ++ level_label level ++ codes "] " ++ message

module _ (S : FileStore) where
  -- The stream is the path that it was opened at, or `none` when it is closed.
  pub record Logger : Type 0 where
    pub disk : S.Disk
    pub path : Str
    pub stream : Option Str
    pub min_level : LogLevel

  abbrev pub parent_made : S.Disk → Str → S.Disk
  parent_made disk path =
      if not (is_empty (parent_path path))
      then S.create_directories disk (parent_path path)
      else disk

  abbrev pub opened : Logger → S.Disk × Bool → Logger
  opened l (disk, is_open) = record l {
    disk = disk;
    stream = if is_open then some l.path else none;
  }

  unfoldable pub reopen_stream_locked : Logger → Logger
  reopen_stream_locked l = opened l (S.open_append (parent_made l.disk l.path) l.path)

  unfoldable pub construct : S.Disk → Logger
  construct disk = reopen_stream_locked (record {
    disk = disk;
    path = codes "runtime/logs/silicon_dev.log";
    stream = none;
    min_level = trace;
  })

  unfoldable pub set_log_path : Str → Logger → Logger
  set_log_path path l = reopen_stream_locked (record l { path = path })

  abbrev pub set_min_level : LogLevel → Logger → Logger
  set_min_level level l = record l { min_level = level }

  abbrev pub is_stream_open : Option Str → Bool
  is_stream_open none = false
  is_stream_open (some path) = true

  -- `stream_ << ...` when the stream is open.
  unfoldable pub write_open : Option Str → Str → Logger → Logger
  write_open none text l = l
  write_open (some path) text l = record l { disk = S.append l.disk path text }

  unfoldable pub write_line : ℕ → LogLevel → Str → Logger → Logger
  write_line now level message l =
      let ready = if is_stream_open l.stream then l else reopen_stream_locked l in
      write_open ready.stream (line_text now level message ++ 10 ∷ []) ready

  unfoldable pub log_message : ℕ → LogLevel → Str → Logger → Logger
  log_message now level message l =
      if not (is_enabled l.min_level level) then l else write_line now level message l

  unfoldable pub log : ℕ → LogLevel → Formatted → Logger → Logger
  log now level outcome l =
      if not (is_enabled l.min_level level) then l else write_line now level (message_of outcome) l

  unfoldable pub apply : Call → Logger → Logger
  apply (moving path) l = set_log_path path l
  apply (filtering level) l = set_min_level level l
  apply (saying now level message) l = log_message now level message l
  apply (formatting now level outcome) l = log now level outcome l
