-- ===== src/Config/Plain.antt =====
-- The lists of paths that normalize_paths and filter_paths of src/config/config_manager.cpp give.
use silicon.Prelude.{
  ◌≡◌, sym, ◌∙◌, true, false, not, ◌&&◌, List, [], ◌∷◌, arith, if◌then◌else◌, is_empty, exists_in,
  keep,
}
use silicon.Text.{Str, mem}
use silicon.Text.Laws.{str_eq_iff}
use silicon.Platform.{Os}
use silicon.FsPath.{has_dot_dot}
use silicon.Config.Helpers.{has_prefix_path}
use silicon.Config.Dedupe.{
  NoRepeats, mem-dedupe_preserve_order, dedupe_preserve_order-NoRepeats, mem-keep,
}
use silicon.Config.Decide.{exists_in-none}
use silicon.Config.Paths.{normalize_path, normalize_paths, normalize_each}
use silicon.Config.Parse.{filter_paths}

-- No path of the list climbs by `..`.
abbrev pub NoDotDot : List Str → Type 0
NoDotDot paths = (p : Str) → mem p paths ≡ true → has_dot_dot p ≡ false

-- No path of the list lies under an ignored one.
abbrev pub Outside : List Str → List Str → Type 0
Outside ignores paths =
    (p i : Str) → mem p paths ≡ true → mem i ignores ≡ true → has_prefix_path p i ≡ false

module _ (O : Os) (d : O.Disk) where
  normalize_path_plain :
      (path : Str)
      → (normalize_path O d path).1 ≡ true
      → has_dot_dot (normalize_path O d path).0 ≡ false
  unfolding normalize_path
  normalize_path_plain path h = ground arith

  normalize_each-NoDotDot : (paths : List Str) → NoDotDot (normalize_each O d paths)
  unfolding normalize_each mem
  normalize_each-NoDotDot [] p m = absurd (ground arith)
  normalize_each-NoDotDot (path ∷ paths) p m = ground (
    arith,
    normalize_path_plain path,
    normalize_each-NoDotDot paths p,
    str_eq_iff (normalize_path O d path).0 p,
  )

  pub normalize_paths-NoDotDot : (paths : List Str) → NoDotDot (normalize_paths O d paths)
  unfolding normalize_paths
  normalize_paths-NoDotDot paths p m =
      normalize_each-NoDotDot paths p (sym (mem-dedupe_preserve_order p _) ∙ m)

  pub normalize_paths-NoRepeats : (paths : List Str) → NoRepeats (normalize_paths O d paths)
  unfolding normalize_paths
  normalize_paths-NoRepeats paths = dedupe_preserve_order-NoRepeats (normalize_each O d paths)

mem-filter_paths :
    (ignores paths : List Str) (p : Str)
    → mem p (filter_paths ignores paths)
      ≡ (mem p paths && not (exists_in (has_prefix_path p) ignores))
unfolding filter_paths
mem-filter_paths ignores paths p = mem-dedupe_preserve_order p _ ∙ mem-keep p _ paths

-- The paths as parse_json_locked leaves them.
abbrev pub filtered : List Str → List Str → List Str
filtered ignores paths = if is_empty ignores then paths else filter_paths ignores paths

pub filtered-Outside : (ignores paths : List Str) → Outside ignores (filtered ignores paths)
unfolding mem
filtered-Outside [] paths p i m n = absurd (ground arith)
filtered-Outside (x ∷ xs) paths p i m n =
    exists_in-none (has_prefix_path p) (x ∷ xs) i
      (ground (arith, mem-filter_paths (x ∷ xs) paths p)) n

pub filtered-NoDotDot :
    (ignores paths : List Str) → NoDotDot paths → NoDotDot (filtered ignores paths)
filtered-NoDotDot [] paths h p m = h p m
filtered-NoDotDot (x ∷ xs) paths h p m = h p (ground (arith, mem-filter_paths (x ∷ xs) paths p))

pub filtered-NoRepeats :
    (ignores paths : List Str) → NoRepeats paths → NoRepeats (filtered ignores paths)
unfolding filter_paths
filtered-NoRepeats [] paths h = h
filtered-NoRepeats (x ∷ xs) paths h =
    dedupe_preserve_order-NoRepeats (keep (λ p. not (exists_in (has_prefix_path p) (x ∷ xs))) paths)
