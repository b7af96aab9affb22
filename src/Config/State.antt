-- ===== src/Config/State.antt =====
-- The state of ConfigManager (src/config/config_manager.hpp) and its defaults.
use silicon.Prelude.{Bool, true, false, Option, List, [], ◌∷◌}
use silicon.Prelude.Int.{ℤ, pos}
use silicon.Text.{Str, codes}
use silicon.Platform.{JsonLib, Os}
use silicon.Config.Paths.{normalize_paths}

-- The members that the policy file sets: what the enforcers can ask for.
pub record Settings : Type 0 where
  pub allowed_processes : List Str
  pub blocked_processes : List Str
  pub allowed_domains : List Str
  pub blocked_domains : List Str
  pub network_whitelist : List Str
  pub protected_paths : List Str
  pub filesystem_monitor_paths : List Str
  pub system_paths_to_ignore : List Str
  pub allowed_volumes : List Str
  pub allowed_mount_prefixes : List Str
  pub heartbeat_interval_seconds : ℤ
  pub process_scan_interval_seconds : ℤ
  pub filesystem_scan_interval_ms : ℤ
  pub clipboard_clear_interval_seconds : ℤ
  pub notification_rate_limit_seconds : ℤ
  pub debug_mode : Bool
  pub clear_clipboard : Bool
  pub filesystem_notifications_enabled : Bool

pub record ConfigManager (J : JsonLib) : Type 0 where
  pub config_path : Str
  pub settings : Settings
  pub open settings use *
  pub config_snapshot : Option J.Json

abbrev pub default_ignores : List Str
default_ignores =
    codes "/System/Library/"
    ∷ codes "/usr/libexec/"
    ∷ codes "/usr/sbin/"
    ∷ codes "/sbin/"
    ∷ codes "/bin/"
    ∷ codes "/usr/bin/"
    ∷ codes "/usr/local/"
    ∷ []

-- apply_defaults() sets every member; the normalised paths depend on the disk.
unfoldable pub apply_defaults : (O : Os) → O.Disk → Settings
apply_defaults O d = record {
  allowed_processes = [];
  blocked_processes = [];
  allowed_domains = [];
  blocked_domains = [];
  network_whitelist = [];
  protected_paths = [];
  filesystem_monitor_paths = [];
  system_paths_to_ignore = normalize_paths O d default_ignores;
  allowed_volumes = [];
  allowed_mount_prefixes = [];
  heartbeat_interval_seconds = pos 120;
  process_scan_interval_seconds = pos 10;
  filesystem_scan_interval_ms = pos 2000;
  clipboard_clear_interval_seconds = pos 15;
  notification_rate_limit_seconds = pos 5;
  debug_mode = true;
  clear_clipboard = false;
  filesystem_notifications_enabled = true;
}
