-- ===== src/Config/Queries.antt =====
-- The queries of src/config/config_manager.cpp, each made under the shared lock.
use silicon.Prelude.{
  ◌+◌, Bool, true, false, not, ◌&&◌, Option, none, some, List, ltb, if◌then◌else◌, length, is_empty,
  drop, exists_in,
}
use silicon.Prelude.Int.{ℤ, max_int}
use silicon.Text.{Str, find_last_of, mem}
use silicon.FsPath.{slash}
use silicon.Platform.{JsonLib}
use silicon.Config.Helpers.{to_lower_copy, match_domain_pattern}
use silicon.Config.State.{Settings, ConfigManager}

-- `basename` of isProcessAllowed: the whole name where no slash has text behind it.
unfoldable pub process_basename : Str → Str
unfolding find_last_of
process_basename normalized = elim (find_last_of slash normalized) [
  | none ↦ normalized
  | some slash_pos ↦
      if ltb (slash_pos + 1) (length normalized)
      then drop (slash_pos + 1) normalized
      else normalized
]

-- A name or its basename is in the set.
unfoldable pub is_listed : Str → Str → List Str → Bool
unfolding mem
is_listed normalized basename set =
    if mem normalized set then true else not (is_empty basename) && mem basename set

unfoldable pub is_process_allowed : Settings → Str → Bool
unfolding to_lower_copy process_basename is_listed
is_process_allowed s process_name =
    let normalized = to_lower_copy process_name in
    let basename = process_basename normalized in
    if is_listed normalized basename s.blocked_processes
    then false
    else if is_empty s.allowed_processes
    then true
    else is_listed normalized basename s.allowed_processes

unfoldable pub is_domain_allowed : Settings → Str → Bool
unfolding to_lower_copy match_domain_pattern exists_in
is_domain_allowed s domain =
    let normalized = to_lower_copy domain in
    if exists_in (match_domain_pattern normalized) s.blocked_domains
    then false
    else if is_empty s.allowed_domains
    then true
    else exists_in (match_domain_pattern normalized) s.allowed_domains

module _ (s : Settings) where
  unfoldable pub get_protected_paths : List Str
  get_protected_paths = s.protected_paths

  unfoldable pub get_filesystem_monitor_paths : List Str
  get_filesystem_monitor_paths = s.filesystem_monitor_paths

  unfoldable pub get_system_paths_to_ignore : List Str
  get_system_paths_to_ignore = s.system_paths_to_ignore

  unfoldable pub get_allowed_volumes : List Str
  get_allowed_volumes = s.allowed_volumes

  unfoldable pub get_allowed_mount_prefixes : List Str
  get_allowed_mount_prefixes = s.allowed_mount_prefixes

  unfoldable pub get_heartbeat_interval : ℤ
  get_heartbeat_interval = s.heartbeat_interval_seconds

  unfoldable pub get_process_scan_interval : ℤ
  get_process_scan_interval = s.process_scan_interval_seconds

  unfoldable pub get_filesystem_scan_interval_ms : ℤ
  get_filesystem_scan_interval_ms = max_int s.filesystem_scan_interval_ms 250

  unfoldable pub is_debug_mode : Bool
  is_debug_mode = s.debug_mode

  unfoldable pub should_clear_clipboard : Bool
  should_clear_clipboard = s.clear_clipboard

  unfoldable pub get_clipboard_clear_interval_seconds : ℤ
  get_clipboard_clear_interval_seconds = max_int s.clipboard_clear_interval_seconds 5

  unfoldable pub are_filesystem_notifications_enabled : Bool
  are_filesystem_notifications_enabled = s.filesystem_notifications_enabled

  unfoldable pub get_notification_rate_limit_seconds : ℤ
  get_notification_rate_limit_seconds = max_int s.notification_rate_limit_seconds 1

-- getRawConfig(): the snapshot; `none` is the null pointer before the first load.
unfoldable pub get_raw_config : (J : JsonLib) → ConfigManager J → Option J.Json
get_raw_config J c = c.config_snapshot
