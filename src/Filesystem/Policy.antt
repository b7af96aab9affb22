-- ===== src/Filesystem/Policy.antt =====
-- What src/filesystem/filesystem_enforcer.cpp takes from the policy. `none` is a null ConfigManager.
use silicon.Prelude.{
  ℕ, Bool, true, false, ◌||◌, Option, none, some, List, [], ◌∷◌, ◌++◌, if◌then◌else◌, is_empty,
}
use Prim.Native.Nat.{max}
use silicon.Prelude.Int.{below, to_nat}
use silicon.Text.{Str, str_eq, mem, set_insert}
use silicon.Config.State.{Settings}
use silicon.Config.Queries.{
  get_protected_paths, get_filesystem_monitor_paths, get_system_paths_to_ignore,
  get_allowed_volumes, get_allowed_mount_prefixes, get_filesystem_scan_interval_ms,
  get_notification_rate_limit_seconds, get_clipboard_clear_interval_seconds,
}
use silicon.Filesystem.Helpers.{
  has_directory_prefix, lower_ascii_copy, basename_from_path, should_ignore_path,
}

-- In milliseconds.
unfoldable pub resolve_scan_interval : Option Settings → ℕ
unfolding get_filesystem_scan_interval_ms
resolve_scan_interval none = 2000
resolve_scan_interval (some s) =
    let configured = get_filesystem_scan_interval_ms s in
    if below configured 1 then 2000 else max 250 (to_nat configured)

-- In seconds.
unfoldable pub resolve_notification_rate_limit : Option Settings → ℕ
unfolding get_notification_rate_limit_seconds
resolve_notification_rate_limit none = 5
resolve_notification_rate_limit (some s) =
    let configured_seconds = get_notification_rate_limit_seconds s in
    if below configured_seconds 1 then 5 else max 1 (to_nat configured_seconds)

-- In seconds.
unfoldable pub resolve_clipboard_clear_interval : Option Settings → ℕ
unfolding get_clipboard_clear_interval_seconds
resolve_clipboard_clear_interval none = 15
resolve_clipboard_clear_interval (some s) =
    let configured_seconds = get_clipboard_clear_interval_seconds s in
    if below configured_seconds 1 then 15 else max 5 (to_nat configured_seconds)

-- The lambda `append` of load_monitored_paths, with its `monitored` and `seen`.
append_paths : List Str → List Str → List Str × List Str → List Str × List Str
unfolding should_ignore_path set_insert mem
append_paths ignored [] (monitored, seen) = (monitored, seen)
append_paths ignored (path ∷ paths) (monitored, seen) = append_paths ignored paths (
    if is_empty path || should_ignore_path path ignored
    then (monitored, seen)
    else (if mem path seen then monitored else monitored ++ path ∷ [], set_insert path seen))

unfoldable pub load_monitored_paths : Option Settings → List Str
unfolding append_paths get_protected_paths get_filesystem_monitor_paths get_system_paths_to_ignore
load_monitored_paths none = []
load_monitored_paths (some s) =
    let ignored = get_system_paths_to_ignore s in
    (append_paths ignored (get_filesystem_monitor_paths s)
      (append_paths ignored (get_protected_paths s) ([], []))).0

-- The loops of is_mount_allowed.
volume_listed : Str → Str → List Str → Bool
unfolding str_eq lower_ascii_copy
volume_listed mount_lower volume_name_lower [] = false
volume_listed mount_lower volume_name_lower (allowed_volume ∷ volumes) =
    let rest = volume_listed mount_lower volume_name_lower volumes in
    let allowed = lower_ascii_copy allowed_volume in
    if is_empty allowed
    then rest
    else if str_eq allowed volume_name_lower || str_eq allowed mount_lower
    then true
    else rest

prefix_listed : Str → List Str → Bool
unfolding has_directory_prefix lower_ascii_copy
prefix_listed mount_lower [] = false
prefix_listed mount_lower (allowed_prefix ∷ prefixes) =
    let rest = prefix_listed mount_lower prefixes in
    let prefix = lower_ascii_copy allowed_prefix in
    if is_empty prefix then rest else if has_directory_prefix mount_lower prefix then true else rest

unfoldable pub is_mount_allowed : Option Settings → Str → Bool
unfolding volume_listed prefix_listed basename_from_path lower_ascii_copy get_allowed_volumes
    get_allowed_mount_prefixes
is_mount_allowed none mount_path = false
is_mount_allowed (some s) mount_path =
    let mount_lower = lower_ascii_copy mount_path in
    let volume_name_lower = lower_ascii_copy (basename_from_path mount_path) in
    volume_listed mount_lower volume_name_lower (get_allowed_volumes s)
    || prefix_listed mount_lower (get_allowed_mount_prefixes s)
