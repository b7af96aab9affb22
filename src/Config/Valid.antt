-- ===== src/Config/Valid.antt =====
-- What holds of the policy after load, reload and the constructor of src/config/config_manager.cpp,
-- whatever the file holds and wherever they fail.
use silicon.Prelude.{
  ℕ, ◌≡◌, refl, sym, ◌∙◌, Bool, true, false, List, [], ◌∷◌, ◌++◌, arith, if◌then◌else◌, is_empty,
  Bool-cases, inl, inr, some, none, Option,
}
use silicon.Prelude.Int.{ℤ, below}
use silicon.Text.{Str, codes, mem}
use silicon.Text.Laws.{mem-append}
use silicon.Platform.{JsonLib, Os}
use silicon.Config.Dedupe.{NoRepeats, mem-dedupe_preserve_order, dedupe_preserve_order-NoRepeats}
use silicon.Config.Paths.{ensure_config_directory, default_config_path, normalize_paths}
use silicon.Config.State.{Settings, ConfigManager, apply_defaults}
use silicon.Config.Parse.{
  read_string_array, read_int, read_int_clamped, merge_ignores, parse_json_locked,
}
use silicon.Config.Load.{
  load, accept_json, read_policy, reset, after_read, try_created, or_create, load_or_create,
  construct_at, construct, initial, resolve_path, create_default_config,
}
use silicon.Config.Plain.{
  NoDotDot, Outside, normalize_paths-NoDotDot, normalize_paths-NoRepeats, filtered-Outside,
  filtered-NoDotDot, filtered-NoRepeats,
}

pub record IsValid (s : Settings) : Type 0 where
  pub heartbeat_min : below s.heartbeat_interval_seconds 1 ≡ false
  pub process_scan_min : below s.process_scan_interval_seconds 1 ≡ false
  pub filesystem_scan_min : below s.filesystem_scan_interval_ms 250 ≡ false
  pub clipboard_min : below s.clipboard_clear_interval_seconds 5 ≡ false
  pub rate_limit_min : below s.notification_rate_limit_seconds 1 ≡ false
  pub protected_outside : Outside s.system_paths_to_ignore s.protected_paths
  pub monitored_outside : Outside s.system_paths_to_ignore s.filesystem_monitor_paths
  pub protected_plain : NoDotDot s.protected_paths
  pub monitored_plain : NoDotDot s.filesystem_monitor_paths
  pub ignores_plain : NoDotDot s.system_paths_to_ignore
  pub prefixes_plain : NoDotDot s.allowed_mount_prefixes
  pub protected_once : NoRepeats s.protected_paths
  pub monitored_once : NoRepeats s.filesystem_monitor_paths
  pub ignores_once : NoRepeats s.system_paths_to_ignore
  pub volumes_once : NoRepeats s.allowed_volumes

-- Readers of numbers keep to the minimum.
module _ (J : JsonLib) (json : J.Json) (key : Str) (target : ℤ) (min_value : ℕ) where
  read_int_min :
      below target min_value ≡ false
      → below (read_int J json key target min_value).0 min_value ≡ false
  unfolding read_int
  read_int_min h = ground arith

  read_int_clamped_min :
      below target min_value ≡ false
      → below (read_int_clamped J json key target min_value).0 min_value ≡ false
  unfolding read_int_clamped
  read_int_clamped_min h = ground arith

module _ (J : JsonLib) (O : Os) (d : O.Disk) where
  merge_ignores-NoDotDot :
      (old configured : List Str) → NoDotDot old → NoDotDot (merge_ignores J O d old configured)
  unfolding merge_ignores
  merge_ignores-NoDotDot old [] h p m = h p (sym (mem-dedupe_preserve_order p _) ∙ m)
  merge_ignores-NoDotDot old (x ∷ xs) h p m = ground (
    arith,
    h p,
    mem-dedupe_preserve_order p (old ++ normalize_paths O d (x ∷ xs)),
    mem-append p old (normalize_paths O d (x ∷ xs)),
    normalize_paths-NoDotDot O d (x ∷ xs) p,
  )

  merge_ignores-NoRepeats :
      (old configured : List Str) → NoRepeats (merge_ignores J O d old configured)
  unfolding merge_ignores
  merge_ignores-NoRepeats old configured =
      dedupe_preserve_order-NoRepeats
        (if is_empty configured then old else old ++ normalize_paths O d configured)

  apply_defaults-IsValid : IsValid (apply_defaults O d)
  unfolding apply_defaults
  apply_defaults-IsValid = record {
    heartbeat_min = refl;
    process_scan_min = refl;
    filesystem_scan_min = refl;
    clipboard_min = refl;
    rate_limit_min = refl;
    protected_outside = λ p i m n. absurd (unfold mem in ground arith);
    monitored_outside = λ p i m n. absurd (unfold mem in ground arith);
    protected_plain = λ p m. absurd (unfold mem in ground arith);
    monitored_plain = λ p m. absurd (unfold mem in ground arith);
    ignores_plain = normalize_paths-NoDotDot O d _;
    prefixes_plain = λ p m. absurd (unfold mem in ground arith);
    protected_once = tt;
    monitored_once = tt;
    ignores_once = normalize_paths-NoRepeats O d _;
    volumes_once = tt;
  }

  parse_json_locked-IsValid :
      (s : Settings) (json : J.Json) → IsValid s → IsValid (parse_json_locked J O d s json).0
  unfolding parse_json_locked
  parse_json_locked-IsValid s json v = record {
    heartbeat_min = read_int_min J json _ _ 1 v.heartbeat_min;
    process_scan_min = read_int_min J json _ _ 1 v.process_scan_min;
    filesystem_scan_min = read_int_clamped_min J json _ _ 250 v.filesystem_scan_min;
    clipboard_min = read_int_clamped_min J json _ _ 5 v.clipboard_min;
    rate_limit_min = read_int_clamped_min J json _ _ 1 v.rate_limit_min;
    protected_outside = filtered-Outside _ _;
    monitored_outside = filtered-Outside _ _;
    protected_plain = filtered-NoDotDot _ _ (normalize_paths-NoDotDot O d _);
    monitored_plain = filtered-NoDotDot _ _ (normalize_paths-NoDotDot O d _);
    ignores_plain = merge_ignores-NoDotDot _ _ v.ignores_plain;
    prefixes_plain = normalize_paths-NoDotDot O d _;
    protected_once = filtered-NoRepeats _ _ (normalize_paths-NoRepeats O d _);
    monitored_once = filtered-NoRepeats _ _ (normalize_paths-NoRepeats O d _);
    ignores_once = merge_ignores-NoRepeats s.system_paths_to_ignore _;
    volumes_once =
        dedupe_preserve_order-NoRepeats (read_string_array J json (codes "allowed_volumes") []).0;
  }

  accept_json-IsValid :
      (c : ConfigManager J) (o : Option J.Json)
      → IsValid c.settings
      → IsValid (accept_json J O d c o).0.settings
  unfolding accept_json
  accept_json-IsValid c none v = v
  accept_json-IsValid c (some json) v = elim (Bool-cases (J.is_object json)) [
    | inl obj ↦ rw obj (parse_json_locked-IsValid c.settings json v)
    | inr other ↦ rw other v
  ]

  after_read-IsValid :
      (c : ConfigManager J) (o : Option Str)
      → IsValid c.settings
      → IsValid (after_read J O d c o).0.settings
  unfolding after_read
  after_read-IsValid c none v = v
  after_read-IsValid c (some text) v = accept_json-IsValid c (J.parse text) v

  -- load() leaves a valid policy, whatever was there before and wherever it fails.
  pub load-IsValid : (c : ConfigManager J) → IsValid (load J O d c).0.settings
  unfolding load reset
  load-IsValid c =
      after_read-IsValid (reset J O d c) (read_policy J O d c.config_path) apply_defaults-IsValid

module _ (J : JsonLib) (O : Os) where
  try_created-IsValid :
      (c : ConfigManager J) (r : O.Disk × Bool) → IsValid (try_created J O c r).1.settings
  unfolding try_created
  try_created-IsValid c (d, true) = load-IsValid J O d c
  try_created-IsValid c (d, false) = apply_defaults-IsValid J O d

  or_create-IsValid :
      (d : O.Disk) (r : ConfigManager J × Bool)
      → IsValid r.0.settings
      → IsValid (or_create J O d r).1.settings
  unfolding or_create
  or_create-IsValid d (c, true) v = v
  or_create-IsValid d (c, false) v =
      try_created-IsValid c (create_default_config J O d c.config_path)

  load_or_create-IsValid :
      (d : O.Disk) (c : ConfigManager J) → IsValid (load_or_create J O d c).1.settings
  unfolding load_or_create
  load_or_create-IsValid d c = or_create-IsValid d (load J O d c) (load-IsValid J O d c)

  construct_at-IsValid : (start : O.Disk × Str) → IsValid (construct_at J O start).1.settings
  unfolding construct_at
  construct_at-IsValid (d, config_path) =
      let d' : O.Disk = ensure_config_directory O d config_path in
      load_or_create-IsValid d' (initial J O (resolve_path J O d' config_path))

  -- The constructor leaves a valid policy on every path through it.
  pub construct-IsValid : (d : O.Disk) (path : Str) → IsValid (construct J O d path).1.settings
  unfolding construct
  construct-IsValid d path =
      construct_at-IsValid (if is_empty path then default_config_path O d else (d, path))
