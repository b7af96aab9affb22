-- ===== src/Config/Load.antt =====
-- Loading of src/config/config_manager.cpp: load_locked, the default policy file, the constructor.
use silicon.Prelude.{
  ℕ, Bool, true, false, not, ◌&&◌, ◌*◌, Option, none, some, [], ◌∷◌, map, ltb, if◌then◌else◌,
  is_empty,
}
use silicon.Prelude.Int.{pos}
use silicon.Text.{Str, codes}
use silicon.Platform.{done, failed, JsonLib, Os}
use silicon.Config.Paths.{default_config_path, ensure_config_directory, normalize_path}
use silicon.Config.State.{ConfigManager, default_ignores, apply_defaults}
use silicon.Config.Parse.{parse_json_locked}

abbrev pub max_config_bytes : ℕ
max_config_bytes = 1024 * 1024

module _ (J : JsonLib) (O : Os) where
  open J use {Json, parse, dump, is_object, object, array, string, integer, boolean}
  open O use {Disk, exists, file_size, read_file, write_file}

  abbrev empty_array : Json
  empty_array = array []

  -- The value that create_default_config() writes.
  unfoldable pub default_config : Json
  default_config = object (
      (codes "allowed_processes", empty_array)
      ∷ (codes "blocked_processes", empty_array)
      ∷ (codes "allowed_domains", empty_array)
      ∷ (codes "blocked_domains", empty_array)
      ∷ (codes "protected_paths", array (string (codes "/Users/copperhead07/Downloads") ∷ []))
      ∷ (codes "network_whitelist", empty_array)
      ∷ (codes "filesystem_monitor_paths", empty_array)
      ∷ (codes "allowed_volumes", empty_array)
      ∷ (codes "allowed_mount_prefixes", empty_array)
      ∷ (codes "debug_mode", boolean true)
      ∷ (codes "heartbeat_interval_seconds", integer 120)
      ∷ (codes "process_scan_interval_seconds", integer 10)
      ∷ (codes "filesystem_scan_interval_ms", integer 2000)
      ∷ (codes "clear_clipboard", boolean false)
      ∷ (codes "clipboard_clear_interval_seconds", integer 15)
      ∷ (codes "filesystem_notifications_enabled", boolean true)
      ∷ (codes "notification_rate_limit_seconds", integer 5)
      ∷ (codes "system_paths_to_ignore", array (map string default_ignores))
      ∷ [])

  -- The disk afterwards, and whether the file was written.
  unfoldable pub create_default_config : Disk → Str → Disk × Bool
  unfolding default_config
  create_default_config d config_path =
      let (d', written) = write_file d config_path (dump default_config) in
      (d', elim written [ none ↦ false | some good ↦ good ])

  -- The text of the file, where all the checks before the parser pass.
  unfoldable pub read_policy : Disk → Str → Option Str
  read_policy d config_path = elim (exists d config_path) [
    | failed code ↦ none
    | done false ↦ none
    | done true ↦ elim (file_size d config_path) [
      | failed code ↦ none
      | done size ↦ if ltb max_config_bytes size then none else read_file d config_path
    ]
  ]

  -- What load_locked() sets before it looks at the file.
  unfoldable pub reset : Disk → ConfigManager J → ConfigManager J
  unfolding apply_defaults
  reset d c = record c { settings = apply_defaults O d; config_snapshot = some (object []) }

  -- The rest, from the parsed value.
  unfoldable pub accept_json : Disk → ConfigManager J → Option Json → ConfigManager J × Bool
  unfolding parse_json_locked
  accept_json d c none = (c, false)
  accept_json d c (some json) = if not (is_object json) then (c, false) else (
    record c {
      settings = (parse_json_locked J O d c.settings json).0;
      config_snapshot = some json;
    },
    true,
  )

  unfoldable pub after_read : Disk → ConfigManager J → Option Str → ConfigManager J × Bool
  unfolding accept_json
  after_read d c none = (c, false)
  after_read d c (some text) = accept_json d c (parse text)

  unfoldable pub load_locked : Disk → ConfigManager J → ConfigManager J × Bool
  unfolding reset read_policy after_read
  load_locked d c = let c' = reset d c in after_read d c' (read_policy d c'.config_path)

  -- load() and reload() are load_locked() under the lock.
  unfoldable pub load : Disk → ConfigManager J → ConfigManager J × Bool
  unfolding load_locked
  load d c = load_locked d c

  unfoldable pub reload : Disk → ConfigManager J → ConfigManager J × Bool
  unfolding load_locked
  reload d c = load_locked d c

  -- The members' initialisers in the class.
  unfoldable pub initial : Str → ConfigManager J
  initial config_path = record {
    config_path = config_path;
    settings = record {
      allowed_processes = [];
      blocked_processes = [];
      allowed_domains = [];
      blocked_domains = [];
      network_whitelist = [];
      protected_paths = [];
      filesystem_monitor_paths = [];
      system_paths_to_ignore = [];
      allowed_volumes = [];
      allowed_mount_prefixes = [];
      heartbeat_interval_seconds = pos 60;
      process_scan_interval_seconds = pos 2;
      filesystem_scan_interval_ms = pos 2000;
      clipboard_clear_interval_seconds = pos 15;
      notification_rate_limit_seconds = pos 5;
      debug_mode = true;
      clear_clipboard = false;
      filesystem_notifications_enabled = true;
    };
    config_snapshot = none;
  }

  -- The path after the constructor's normalisation.
  unfoldable pub resolve_path : Disk → Str → Str
  unfolding normalize_path
  resolve_path d config_path =
      let (normalized, ok) = normalize_path O d config_path in
      if ok && not (is_empty normalized) then normalized else config_path

  -- The constructor's attempt to load, with the default policy as the second try.
  unfoldable pub try_created : ConfigManager J → Disk × Bool → Disk × ConfigManager J
  unfolding load apply_defaults
  try_created c (d, true) = (d, (load d c).0)
  try_created c (d, false) = (d, record c { settings = apply_defaults O d })

  unfoldable pub or_create : Disk → ConfigManager J × Bool → Disk × ConfigManager J
  unfolding try_created create_default_config
  or_create d (c, true) = (d, c)
  or_create d (c, false) = try_created c (create_default_config d c.config_path)

  unfoldable pub load_or_create : Disk → ConfigManager J → Disk × ConfigManager J
  unfolding load or_create
  load_or_create d c = or_create d (load d c)

  -- The constructor once the path is chosen.
  unfoldable pub construct_at : Disk × Str → Disk × ConfigManager J
  unfolding ensure_config_directory resolve_path load_or_create initial
  construct_at (d, config_path) =
      let d' = ensure_config_directory O d config_path in
      load_or_create d' (initial (resolve_path d' config_path))

  unfoldable pub construct : Disk → Str → Disk × ConfigManager J
  unfolding default_config_path construct_at
  construct d path = construct_at (if is_empty path then default_config_path O d else (d, path))
