-- ===== src/Filesystem/Types.antt =====
-- The state of src/filesystem/filesystem_enforcer.hpp and what a scan is given from outside.
use silicon.Prelude.{ℕ, Bool, List}
use silicon.Prelude.Int.{ℤ}
use silicon.Text.{Str}

-- Points in time are microseconds since the epoch, as system_clock counts on macOS.
abbrev pub Time : Type 0
Time = ℕ

abbrev pub ticks_per_second : ℕ
ticks_per_second = 1000000

pub record PathFingerprint : Type 0 where
  pub is_directory : Bool
  pub size_bytes : ℕ
  pub modified_ticks : ℤ

-- unordered_map<string, PathFingerprint>: no key twice, in the order of insertion.
abbrev pub Snapshot : Type 0
Snapshot = List (Str × PathFingerprint)

-- The results of list_directories and snapshot_tree with their out parameters.
pub record Listing : Type 0 where
  pub listed : Bool
  pub directories : List Str
  pub error_code : ℕ
  pub permission_errors : ℕ

pub record Tree : Type 0 where
  pub ok : Bool
  pub snapshot : Snapshot
  pub error_code : ℕ
  pub permission_errors : ℕ

-- IFileSystem during one scan: `now n` is what the n-th call of now() returns, so that the clock
-- may move, also backwards, between two calls.
pub record FileSystem : Type 0 where
  pub now : ℕ → Time
  pub list_directories : Str → Listing
  pub snapshot_tree : Str → Tree

pub record ScanStats : Type 0 where
  pub timestamp : Time
  pub mounts_seen : ℕ
  pub new_mounts_detected : ℕ
  pub path_events_detected : ℕ
  pub notifications_emitted : ℕ
  pub permission_errors : ℕ

abbrev pub new_stats : Time → ScanStats
new_stats timestamp = record {
  timestamp = timestamp;
  mounts_seen = 0;
  new_mounts_detected = 0;
  path_events_detected = 0;
  notifications_emitted = 0;
  permission_errors = 0;
}

-- The members that scans and event callbacks change. `event_backend` tells whether the pointer is
-- set.
pub record FilesystemEnforcer : Type 0 where
  pub volumes_root : Str
  pub last_scan_stats : ScanStats
  pub event_backend : Bool
  pub pending_event_paths : List Str
  pub volumes_event_pending : Bool
  pub has_pending_events : Bool
  pub known_mounts_initialized : Bool
  pub known_mounts : List Str
  pub known_path_snapshot_initialized : Bool
  pub known_path_snapshot : Snapshot
  pub has_last_volume_resync : Bool
  pub last_volume_resync : Time
  pub has_notification_time : Bool
  pub last_notification_time : Time
  pub has_next_clipboard_deadline : Bool
  pub next_clipboard_deadline : Time
  pub clipboard_hook_disabled : Bool
  pub clipboard_disable_logged : Bool

-- The lines that a scan logs, with the arguments of their format strings.
pub data Line : Type 0 where
  list_failed : Str → ℕ → Line
  mount_allowed : Str → Line
  new_volume : Str → Str → ℕ → Line
  path_change : Str → Str → Line
  suppressed : ℕ → Line
  scan_denied : Str → Line
  scan_failed : Str → ℕ → Line
  clipboard_dry_run : Line
  clipboard_unavailable : Str → Line
  clipboard_cleared : Line

-- A scan under way: the enforcer, the local ScanStats, the calls of now() so far, and what went
-- out: notifications and log lines (the oldest first) and calls of IClipboard::clear.
pub record Scan : Type 0 where
  pub enforcer : FilesystemEnforcer
  pub open enforcer use *
  pub stats : ScanStats
  pub clock_calls : ℕ
  pub sent : List Str
  pub log : List Line
  pub clears : ℕ
