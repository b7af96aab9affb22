-- ===== src/Tests.antt =====
-- Concrete policies, disks and kernels, and the theorems of the other modules at them.
pub mod Configs
pub mod Monitors
pub mod Disks
pub mod Streams
pub mod Processes
pub mod Workers
pub mod Logs
pub mod Blocked
use silicon.Prelude.{
  ℕ, Bool, true, false, Option, none, some, List, [], ◌∷◌, map, is_empty, if◌then◌else◌,
}
use silicon.Prelude.Int.{ℤ, pos}
use silicon.Text.{Str, codes, str_eq}
use silicon.Platform.{Outcome, done, failed, JsonLib, Os}
use silicon.Config.State.{Settings}

-- JSON values of a small library: a policy is an object with one array of strings.
pub data Value : Type 0 where
  text : Str → Value
  texts : List Str → Value
  policy : List Str → Value
  number : ℕ → Value

abbrev pub Small : JsonLib
Small = record {
  Json = Value;
  parse = λ t. if is_empty t then none else some (policy (t ∷ []));
  dump = λ v. codes "{}";
  is_object = λ v. elim v [ policy xs ↦ true | _ ↦ false ];
  is_array = λ v. elim v [ texts xs ↦ true | _ ↦ false ];
  is_string = λ v. elim v [ text t ↦ true | _ ↦ false ];
  is_number_integer = λ v. elim v [ number n ↦ true | _ ↦ false ];
  is_boolean = λ v. false;
  contains = λ v key. elim v [ policy xs ↦ str_eq key (codes "blocked_processes") | _ ↦ false ];
  at = λ v key. elim v [ policy xs ↦ texts xs | _ ↦ number 0 ];
  elements = λ v. elim v [ texts xs ↦ map text xs | _ ↦ [] ];
  get_string = λ v. elim v [ text t ↦ t | _ ↦ [] ];
  get_int = λ v. elim v [ number n ↦ pos n | _ ↦ pos 0 ];
  get_bool = λ v. false;
  object = λ members. policy [];
  array = λ vs. texts [];
  string = text;
  integer = number;
  boolean = λ b. number 0;
}

-- A disk that holds one file, or none.
abbrev pub OneFile : Os
OneFile = record {
  Disk = Option Str;
  home = some (codes "/Users/ada");
  exists = λ d path. elim d [ none ↦ done false | some t ↦ done true ];
  file_size = λ d path. elim d [ none ↦ failed 2 | some t ↦ done 100 ];
  create_directories = λ d path. (d, done true);
  read_file = λ d path. d;
  write_file = λ d path t. (some t, some true);
  absolute = λ d path. done path;
  weakly_canonical = λ d path. done path;
}

-- A policy that blocks one program and one domain.
abbrev pub exam : Settings
exam = record {
  allowed_processes = [];
  blocked_processes = codes "cheat" ∷ [];
  allowed_domains = [];
  blocked_domains = codes "*.chat.com" ∷ [];
  network_whitelist = [];
  protected_paths = codes "/Users/ada/exam" ∷ [];
  filesystem_monitor_paths = [];
  system_paths_to_ignore = codes "/System" ∷ [];
  allowed_volumes = codes "Backup" ∷ [];
  allowed_mount_prefixes = [];
  heartbeat_interval_seconds = pos 60;
  process_scan_interval_seconds = pos 2;
  filesystem_scan_interval_ms = pos 2000;
  clipboard_clear_interval_seconds = pos 15;
  notification_rate_limit_seconds = pos 5;
  debug_mode = false;
  clear_clipboard = true;
  filesystem_notifications_enabled = true;
}
