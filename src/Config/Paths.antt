-- ===== src/Config/Paths.antt =====
-- Paths of src/config/config_manager.cpp: the default location of the policy and normalize_path.
use silicon.Prelude.{
  Bool, true, false, ◌||◌, none, some, List, [], ◌∷◌, ◌++◌, if◌then◌else◌, is_empty, drop, not,
}
use silicon.Text.{Str, codes, str_eq, starts_with}
use silicon.Platform.{Outcome, done, failed, Os}
use silicon.FsPath.{is_relative, join, parent_path, lexically_normal, has_dot_dot}
use silicon.Config.Helpers.{dedupe_preserve_order}

-- The relative path that default_config_path() puts behind $HOME.
abbrev pub support_path : Str
support_path = codes "~/Library/Application Support/com.silicon.agent/policy.json"

abbrev pub dev_path : Str
dev_path = codes "runtime/config/policy.json"

module _ (O : Os) where
  open O use {Disk, home, exists, create_directories, absolute, weakly_canonical}

  -- The part of default_config_path() after the file was not found: create the directories.
  after_create : Str → Disk × Outcome Bool → Disk × Str
  after_create user_support_path (d, done created) = (d, user_support_path)
  after_create user_support_path (d, failed code) = (d, dev_path)

  default_below : Disk → Str → Outcome Bool → Disk × Str
  unfolding after_create
  default_below d user_support_path (done true) = (d, user_support_path)
  default_below d user_support_path (done false) =
      after_create user_support_path (create_directories d user_support_path)
  default_below d user_support_path (failed code) =
      after_create user_support_path (create_directories d user_support_path)

  unfoldable pub default_config_path : Disk → Disk × Str
  unfolding default_below join
  default_config_path d = elim home [
    | none ↦ (d, dev_path)
    | some dir ↦
        let user_support_path = join dir support_path in
        default_below d user_support_path (exists d user_support_path)
  ]

  unfoldable pub ensure_config_directory : Disk → Str → Disk
  unfolding parent_path
  ensure_config_directory d config_path =
      let dir_path = parent_path config_path in
      if is_empty dir_path then d else (create_directories d dir_path).0

  -- `~` and `~/…`
  unfoldable pub expand_home : Str → Str
  unfolding str_eq starts_with
  expand_home path =
      if str_eq path (codes "~") || starts_with path (codes "~/")
      then elim home [ none ↦ path | some dir ↦ dir ++ drop 1 path ]
      else path

  unfoldable pub to_absolute : Disk → Str → Str
  unfolding is_relative lexically_normal
  to_absolute d expanded =
      if is_relative expanded
      then elim (absolute d expanded) [ done p ↦ p | failed code ↦ lexically_normal expanded ]
      else expanded

  unfoldable pub canonical_or_normal : Disk → Str → Str
  unfolding lexically_normal
  canonical_or_normal d fs_path = elim (weakly_canonical d fs_path) [
    | done p ↦ p
    | failed code ↦ lexically_normal fs_path
  ]

  -- The returned text, and what is written to `*ok`.
  unfoldable pub normalize_path : Disk → Str → Str × Bool
  unfolding expand_home to_absolute canonical_or_normal has_dot_dot
  normalize_path d path =
      if is_empty path
      then ([], false)
      else (let normalized = canonical_or_normal d (to_absolute d (expand_home path)) in
          if has_dot_dot normalized then ([], false) else (normalized, true))

  unfoldable pub normalize_each : Disk → List Str → List Str
  normalize_each d [] = []
  normalize_each d (path ∷ paths) =
      let rest = normalize_each d paths in
      let (normalized_path, ok) = normalize_path d path in
      if not ok || is_empty normalized_path then rest else normalized_path ∷ rest

  unfoldable pub normalize_paths : Disk → List Str → List Str
  unfolding normalize_each dedupe_preserve_order normalize_path
  normalize_paths d paths = dedupe_preserve_order (normalize_each d paths)
