-- ===== src/Config/Summary.antt =====
-- log_summary_locked of src/config/config_manager.cpp: the lines that tell of a policy.
use silicon.Prelude.{Bool, true, false, List, [], ◌∷◌, ◌++◌, length, is_empty, if◌then◌else◌}
use silicon.Text.{Str, codes, digits, print_int}
use silicon.Platform.{JsonLib}
use silicon.Logging.Levels.{LogLevel, info, debug}
use silicon.Config.Helpers.{join_strings}
use silicon.Config.State.{ConfigManager}

abbrev pub flag_text : Bool → Str
flag_text true = codes "true"
flag_text false = codes "false"

abbrev pub info_line : Str → Str → LogLevel × Str
info_line label value = (info, codes "ConfigManager: " ++ (label ++ value))

-- A sample of a list, where there is something to show.
abbrev pub sample_line : Str → List Str → List (LogLevel × Str)
sample_line label items =
    if is_empty items
    then []
    else (debug, codes "ConfigManager: " ++ (label ++ join_strings items 20)) ∷ []

unfoldable pub log_summary_locked : (J : JsonLib) → ConfigManager J → List (LogLevel × Str)
log_summary_locked J c =
    info_line (codes "Loaded config from ") c.config_path
    ∷ info_line (codes "Allowed processes: ") (digits (length c.allowed_processes))
    ∷ info_line (codes "Blocked processes: ") (digits (length c.blocked_processes))
    ∷ info_line (codes "Allowed domains: ") (digits (length c.allowed_domains))
    ∷ info_line (codes "Blocked domains: ") (digits (length c.blocked_domains))
    ∷ info_line (codes "Protected paths: ") (digits (length c.protected_paths))
    ∷ info_line (codes "Filesystem monitor paths: ") (digits (length c.filesystem_monitor_paths))
    ∷ info_line (codes "Allowed volumes: ") (digits (length c.allowed_volumes))
    ∷ info_line (codes "Allowed mount prefixes: ") (digits (length c.allowed_mount_prefixes))
    ∷ info_line (codes "System paths to ignore: ") (digits (length c.system_paths_to_ignore))
    ∷ info_line (codes "Heartbeat interval: ") (print_int c.heartbeat_interval_seconds ++ codes "s")
    ∷ info_line (codes "Process scan interval: ")
        (print_int c.process_scan_interval_seconds ++ codes "s")
    ∷ info_line (codes "Filesystem scan interval: ")
        (print_int c.filesystem_scan_interval_ms ++ codes "ms")
    ∷ info_line (codes "Debug mode: ") (flag_text c.debug_mode)
    ∷ info_line (codes "Filesystem notifications enabled: ")
        (flag_text c.filesystem_notifications_enabled)
    ∷ info_line (codes "Filesystem notification rate limit: ")
        (print_int c.notification_rate_limit_seconds ++ codes "s")
    ∷ info_line (codes "Clear clipboard: ") (flag_text c.clear_clipboard)
    ∷ info_line (codes "Clipboard clear interval: ")
        (print_int c.clipboard_clear_interval_seconds ++ codes "s")
    ∷ (sample_line (codes "Allowed process list: ") c.allowed_processes
        ++ (sample_line (codes "Blocked process list: ") c.blocked_processes
            ++ (sample_line (codes "Allowed domain list: ") c.allowed_domains
                ++ (sample_line (codes "Blocked domain list: ") c.blocked_domains
                    ++ (sample_line (codes "Protected paths: ") c.protected_paths
                        ++ (sample_line (codes "Filesystem monitor paths: ")
                              c.filesystem_monitor_paths
                            ++ (sample_line (codes "Allowed volumes: ") c.allowed_volumes
                                ++ sample_line (codes "Allowed mount prefixes: ")
                                    c.allowed_mount_prefixes)))))))
