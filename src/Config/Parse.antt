-- ===== src/Config/Parse.antt =====
-- parse_json_locked of src/config/config_manager.cpp.
use silicon.Prelude.{
  ℕ, Bool, true, false, not, ◌&&◌, List, [], ◌∷◌, ◌++◌, if◌then◌else◌, is_empty, keep, exists_in,
}
use silicon.Prelude.Int.{ℤ, pos, below}
use silicon.Text.{Str, codes, set_insert}
use silicon.Platform.{JsonLib, Os}
use silicon.Config.Helpers.{to_lower_copy, has_prefix_path, dedupe_preserve_order}
use silicon.Config.Paths.{normalize_paths}
use silicon.Config.State.{Settings}

-- The loops that fill a set from a vector, lower-cased or as it is.
unfoldable pub insert_lower : List Str → List Str → List Str
unfolding set_insert to_lower_copy
insert_lower set [] = set
insert_lower set (item ∷ items) = insert_lower (set_insert (to_lower_copy item) set) items

unfoldable pub insert_each : List Str → List Str → List Str
unfolding set_insert
insert_each set [] = set
insert_each set (item ∷ items) = insert_each (set_insert item set) items

-- The lambda `filter_paths`, over the ignore list.
unfoldable pub filter_paths : List Str → List Str → List Str
unfolding has_prefix_path dedupe_preserve_order exists_in keep
filter_paths ignores paths =
    dedupe_preserve_order (keep (λ path. not (exists_in (has_prefix_path path) ignores)) paths)

module _ (J : JsonLib) where
  open J use {Json, contains, at, is_array, is_string, elements, get_string}
  open J use {is_number_integer, get_int, is_boolean, get_bool}

  -- A reader gives the new value of its target, and false where it sets `ok` to false.
  unfoldable pub read_entries : List Json → List Str → Bool → List Str × Bool
  read_entries [] out ok = (out, ok)
  read_entries (entry ∷ entries) out ok =
      read_entries entries (if is_string entry then out ++ get_string entry ∷ [] else out)
        (ok && is_string entry)

  unfoldable pub read_string_array : Json → Str → List Str → List Str × Bool
  unfolding read_entries
  read_string_array json key out =
      if not (contains json key)
      then (out, true)
      else if not (is_array (at json key))
      then (out, false)
      else read_entries (elements (at json key)) [] true

  unfoldable pub read_int : Json → Str → ℤ → ℕ → ℤ × Bool
  read_int json key target min_value =
      if not (contains json key)
      then (target, true)
      else if not (is_number_integer (at json key))
      then (target, false)
      else (let value = get_int (at json key) in
          if below value min_value then (target, false) else (value, true))

  unfoldable pub read_int_clamped : Json → Str → ℤ → ℕ → ℤ × Bool
  read_int_clamped json key target min_value =
      if not (contains json key)
      then (target, true)
      else if not (is_number_integer (at json key))
      then (target, false)
      else (let value = get_int (at json key) in
          if below value min_value then (pos min_value, false) else (value, true))

  unfoldable pub read_bool : Json → Str → Bool → Bool × Bool
  read_bool json key target =
      if not (contains json key)
      then (target, true)
      else if not (is_boolean (at json key))
      then (target, false)
      else (get_bool (at json key), true)

  -- A vector that starts empty.
  abbrev strings : Json → Str → List Str
  strings json key = (read_string_array json key []).0

  -- The new ignore list: the old one, then the configured paths.
  unfoldable pub merge_ignores : (O : Os) → O.Disk → List Str → List Str → List Str
  unfolding dedupe_preserve_order
  merge_ignores O d old configured =
      dedupe_preserve_order
        (if is_empty configured then old else old ++ normalize_paths O d configured)

  unfoldable pub parse_json_locked : (O : Os) → O.Disk → Settings → Json → Settings × Bool
  unfolding insert_lower insert_each filter_paths merge_ignores dedupe_preserve_order
  parse_json_locked O d s json =
      let allowed_processes = read_string_array json (codes "allowed_processes") [] in
      let blocked_processes = read_string_array json (codes "blocked_processes") [] in
      let allowed_domains = read_string_array json (codes "allowed_domains") [] in
      let blocked_domains = read_string_array json (codes "blocked_domains") [] in
      let protected_paths = read_string_array json (codes "protected_paths") [] in
      let network_whitelist = read_string_array json (codes "network_whitelist") [] in
      let monitor_paths = read_string_array json (codes "filesystem_monitor_paths") [] in
      let ignore_paths = read_string_array json (codes "system_paths_to_ignore") [] in
      let allowed_volumes = read_string_array json (codes "allowed_volumes") [] in
      let mount_prefixes = read_string_array json (codes "allowed_mount_prefixes") [] in
      let debug_mode = read_bool json (codes "debug_mode") s.debug_mode in
      let clear_clipboard = read_bool json (codes "clear_clipboard") s.clear_clipboard in
      let notifications =
        read_bool json (codes "filesystem_notifications_enabled")
          s.filesystem_notifications_enabled in
      let heartbeat =
        read_int json (codes "heartbeat_interval_seconds") s.heartbeat_interval_seconds 1 in
      let process_scan =
        read_int json (codes "process_scan_interval_seconds") s.process_scan_interval_seconds 1 in
      let filesystem_scan =
        read_int_clamped json (codes "filesystem_scan_interval_ms") s.filesystem_scan_interval_ms
          250 in
      let clipboard =
        read_int_clamped json (codes "clipboard_clear_interval_seconds")
          s.clipboard_clear_interval_seconds 5 in
      let rate_limit =
        read_int_clamped json (codes "notification_rate_limit_seconds")
          s.notification_rate_limit_seconds 1 in
      let ignores = merge_ignores O d s.system_paths_to_ignore ignore_paths.0 in
      let filtered =
        λ (paths : List Str). if is_empty ignores then paths else filter_paths ignores paths in
      (
        record {
          allowed_processes = insert_lower [] allowed_processes.0;
          blocked_processes = insert_lower [] blocked_processes.0;
          allowed_domains = insert_lower [] allowed_domains.0;
          blocked_domains = insert_lower [] blocked_domains.0;
          network_whitelist = insert_each [] network_whitelist.0;
          protected_paths = filtered (normalize_paths O d protected_paths.0);
          filesystem_monitor_paths = filtered (normalize_paths O d monitor_paths.0);
          system_paths_to_ignore = ignores;
          allowed_volumes = dedupe_preserve_order allowed_volumes.0;
          allowed_mount_prefixes = normalize_paths O d mount_prefixes.0;
          heartbeat_interval_seconds = heartbeat.0;
          process_scan_interval_seconds = process_scan.0;
          filesystem_scan_interval_ms = filesystem_scan.0;
          clipboard_clear_interval_seconds = clipboard.0;
          notification_rate_limit_seconds = rate_limit.0;
          debug_mode = debug_mode.0;
          clear_clipboard = clear_clipboard.0;
          filesystem_notifications_enabled = notifications.0;
        },
        allowed_processes.1 && blocked_processes.1 && allowed_domains.1 && blocked_domains.1
            && protected_paths.1 && network_whitelist.1 && monitor_paths.1 && ignore_paths.1
            && allowed_volumes.1 && mount_prefixes.1 && debug_mode.1 && clear_clipboard.1
            && notifications.1 && heartbeat.1 && process_scan.1 && filesystem_scan.1 && clipboard.1
            && rate_limit.1,
      )
