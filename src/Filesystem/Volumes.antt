-- ===== src/Filesystem/Volumes.antt =====
-- monitor_volumes of src/filesystem/filesystem_enforcer.cpp.
use silicon.Prelude.{
  ◌+◌, ◌/◌, true, not, Option, List, [], ◌∷◌, ◌++◌, if◌then◌else◌, is_empty, length,
}
use silicon.Text.{Str, codes, mem, set_insert}
use silicon.Config.State.{Settings}
use silicon.Filesystem.Types.{
  ticks_per_second, Listing, FileSystem, Scan, Line, list_failed, mount_allowed, new_volume,
}
use silicon.Filesystem.Helpers.{is_permission_error, sanitize_for_log, basename_from_path}
use silicon.Filesystem.Policy.{is_mount_allowed}
use silicon.Filesystem.Notify.{emit_notification_if_allowed}

-- The loop that fills `current_mounts`.
unfoldable pub collect_mounts : List Str → List Str → List Str
collect_mounts set [] = set
collect_mounts set (mount ∷ mounts) =
    collect_mounts (if is_empty mount then set else set_insert mount set) mounts

unfoldable pub add_line : Line → Scan → Scan
add_line line s = record s { log = s.log ++ line ∷ [] }

unfoldable pub display_name : Str → Str
display_name mount =
    let volume_name = sanitize_for_log (basename_from_path mount) in
    if is_empty volume_name then codes "<unknown>" else volume_name

unfoldable pub volume_message : Str → Str
volume_message mount =
    codes "External volume detected: "
    ++ (display_name mount ++ (codes " (" ++ (sanitize_for_log mount ++ codes ")")))

module _ (fs : FileSystem) (config : Option Settings) where
  -- The body of the loop for a mount that is new and not allowed.
  unfoldable pub report_volume : Str → Scan → Scan
  report_volume mount s =
      let counted = record s {
        stats = record (s.stats) { new_mounts_detected = s.stats.new_mounts_detected + 1 };
      } in
      let logged =
        add_line
          (new_volume (display_name mount) (sanitize_for_log mount)
            (s.stats.timestamp / ticks_per_second))
          counted in
      emit_notification_if_allowed fs config (volume_message mount) logged

  unfoldable pub check_mount : List Str → Str → Scan → Scan
  check_mount known mount s =
      if mem mount known
      then s
      else if is_mount_allowed config mount
      then add_line (mount_allowed (sanitize_for_log mount)) s
      else report_volume mount s

  unfoldable pub check_mounts : List Str → List Str → Scan → Scan
  check_mounts known [] s = s
  check_mounts known (mount ∷ mounts) s = check_mounts known mounts (check_mount known mount s)

  -- From the listing on.
  unfoldable pub handle_listing : Listing → Scan → Scan
  handle_listing l s =
      let denied = record (s.stats) {
        permission_errors = s.stats.permission_errors + l.permission_errors;
      } in
      let current = collect_mounts [] l.directories in
      let seen = record denied { mounts_seen = length current } in
      if not l.listed
      then add_line (list_failed (sanitize_for_log s.volumes_root) l.error_code) (record s {
        stats = record denied {
          permission_errors =
              denied.permission_errors + (if is_permission_error l.error_code then 1 else 0);
        };
      })
      else if not s.known_mounts_initialized
      then record s {
        stats = seen;
        enforcer = record (s.enforcer) { known_mounts = current; known_mounts_initialized = true };
      }
      else (let checked = check_mounts s.known_mounts current (record s { stats = seen }) in
          record checked { enforcer = record (checked.enforcer) { known_mounts = current } })

  unfoldable pub monitor_volumes : Scan → Scan
  monitor_volumes s = handle_listing (fs.list_directories s.volumes_root) s
