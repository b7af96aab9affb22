-- ===== src/Process/Inspect.antt =====
-- What src/process/process_enforcer.cpp reads of one process and when it skips it.
use silicon.Prelude.{
  ℕ, ◌*◌, Bool, false, not, ◌&&◌, ◌||◌, Option, none, some, List, [], ltb, ◌==◌, if◌then◌else◌,
  is_empty, exists_in,
}
use silicon.Prelude.Int.{ℤ, below, to_nat}
use silicon.Text.{Str, str_eq, char_at}
use silicon.FsPath.{slash}
use silicon.Config.State.{Settings}
use silicon.Config.Queries.{get_process_scan_interval, is_debug_mode}
use silicon.Filesystem.Helpers.{is_permission_error}
use silicon.Process.Helpers.{lower_ascii_copy, basename_from_path, has_directory_prefix}
use silicon.Process.Types.{Kernel, ProcessSnapshot}

-- `executable_name`, from what proc_name gives and the path.
unfoldable pub executable_name_of : Str × ℤ × ℕ → Str → Str
executable_name_of (buffer, name_length, errno) path =
    let name =
      if not (below name_length 1)
      then buffer
      else if not (is_empty path)
      then basename_from_path path
      else [] in
    if is_empty name then basename_from_path path else name

-- From the result of proc_pidpath on.
unfoldable pub snapshot_of : Kernel → ℕ → Str × ℤ × ℕ → Option ProcessSnapshot × Bool
snapshot_of k pid (buffer, path_length, errno) =
    let path = if below path_length 1 then [] else buffer in
    let denied = below path_length 1 && is_permission_error errno in
    if is_empty path then (none, denied) else (
      some (record {
        pid = pid;
        executable_path = path;
        executable_name = executable_name_of (k.name pid) path;
      }),
      denied,
    )

-- The snapshot, if the process could be read, and whether permission was denied.
unfoldable pub read_process_snapshot : Kernel → ℕ → Option ProcessSnapshot × Bool
read_process_snapshot k pid = if pid == 0 then (none, false) else snapshot_of k pid (k.pidpath pid)

-- One pattern: a path prefix if it starts with a slash, else a name.
unfoldable pub ignores : Str → Str → Str → Bool
ignores normalized_path normalized_name raw_pattern =
    let pattern = lower_ascii_copy raw_pattern in
    if is_empty raw_pattern || is_empty pattern
    then false
    else if char_at pattern 0 == slash
    then has_directory_prefix normalized_path pattern
    else not (is_empty normalized_name) && str_eq normalized_name pattern

unfoldable pub should_ignore_process : Str → Str → List Str → Bool
unfolding exists_in
should_ignore_process path name ignore_patterns =
    let lowered = lower_ascii_copy name in
    let normalized_name =
      if is_empty lowered then lower_ascii_copy (basename_from_path path) else lowered in
    exists_in (ignores (lower_ascii_copy path) normalized_name) ignore_patterns

-- In milliseconds. A configured value of 250 or more is read as milliseconds, a smaller one as
-- seconds.
unfoldable pub resolve_scan_interval : Option Settings → ℕ
resolve_scan_interval none = 2000
resolve_scan_interval (some config) =
    let raw_interval = get_process_scan_interval config in
    let interval =
      if below raw_interval 250 then to_nat raw_interval * 1000 else to_nat raw_interval in
    if below raw_interval 1 then 2000 else if ltb interval 250 then 250 else interval

unfoldable pub should_show_notifications : Option Settings → Bool
should_show_notifications none = false
should_show_notifications (some config) = not (is_debug_mode config)
