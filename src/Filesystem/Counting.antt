-- ===== src/Filesystem/Counting.antt =====
-- Which path events monitor_paths_from_events of src/filesystem/filesystem_enforcer.cpp counts.
use silicon.Prelude.{
  ℕ, ◌+◌, ◌≡◌, refl, ap, ◌∙◌, Bool, true, false, Option, some, List, [], ◌∷◌, arith, length,
  if◌then◌else◌, not, ◌&&◌, ◌||◌, keep, is_empty, exists_in,
}
use silicon.Text.{Str, codes, mem, set_insert, str_eq}
use silicon.Text.Laws.{mem-set_insert}
use silicon.Config.Dedupe.{first_occurrences, keep-keep, keep-ext}
use silicon.Config.State.{Settings}
use silicon.Config.Queries.{get_system_paths_to_ignore}
use silicon.Filesystem.Types.{FileSystem, Scan}
use silicon.Filesystem.Policy.{load_monitored_paths}
use silicon.Filesystem.Frame.{emit-SameBut}
use silicon.Filesystem.Volumes.{add_line}
use silicon.Filesystem.Events.{
  is_relevant, report_change, log_change, count_change, activity_message, next_logged,
  handle_events, note_matched, note_suppressed, monitor_with, monitor_paths_from_events,
}

-- An event that is reported: not empty, and relevant.
abbrev pub counts : Str → List Str → List Str → Str → Bool
counts root ignores roots path = not (is_empty path) && is_relevant root ignores roots path

-- The distinct events to report, but those in `unique`.
abbrev reported : Str → List Str → List Str → List Str → List Str → List Str
reported root ignores roots unique paths =
    keep (λ y. not (mem y unique) && counts root ignores roots y) (first_occurrences paths)

module _ (root : Str) (ignores roots : List Str) where
  abbrev grow : Str → List Str → List Str
  grow x unique = if is_empty x then unique else set_insert x unique

  same_test :
      (x y : Str) (unique : List Str)
      → (not (str_eq x y) && (not (mem y unique) && counts root ignores roots y))
        ≡ (not (mem y (grow x unique)) && counts root ignores roots y)
  unfolding str_eq
  same_test [] [] unique = ground arith
  same_test [] (d ∷ ds) unique = refl
  same_test (c ∷ cs) y unique = ground (arith, mem-set_insert y (c ∷ cs) unique)

  same_rest :
      (x : Str) (xs unique : List Str)
      → keep
          (λ y. not (mem y unique) && counts root ignores roots y)
          (keep (λ y. not (str_eq x y)) xs)
        ≡ keep (λ y. not (mem y (grow x unique)) && counts root ignores roots y) xs
  same_rest x xs unique =
      keep-keep _ (λ y. not (str_eq x y)) xs ∙ keep-ext _ _ xs (λ y. same_test x y unique)

  -- One event more.
  reported_step :
      (x : Str) (paths unique : List Str)
      → length (reported root ignores roots unique (x ∷ paths))
        ≡ (if not (is_empty x || mem x unique) && is_relevant root ignores roots x then 1 else 0)
          + length (reported root ignores roots (grow x unique) paths)
  unfolding first_occurrences keep
  reported_step x paths unique =
      ground (arith, ap length (same_rest x (first_occurrences paths) unique))

module _ (fs : FileSystem) (config : Option Settings) where
  report_change-root :
      (action path : Str) (logged : ℕ) (s : Scan)
      → (report_change fs config action path logged s).volumes_root ≡ s.volumes_root
  unfolding report_change log_change count_change add_line
  report_change-root action path logged s =
      (emit-SameBut fs config (activity_message path)
        (log_change action path logged (count_change s))).root
      ∙ ground arith

  pub report_change-path_events :
      (action path : Str) (logged : ℕ) (s : Scan)
      → (report_change fs config action path logged s).stats.path_events_detected
        ≡ s.stats.path_events_detected + 1
  unfolding report_change log_change count_change add_line
  report_change-path_events action path logged s =
      (emit-SameBut fs config (activity_message path)
        (log_change action path logged (count_change s))).path_events
      ∙ ground arith

  abbrev detected : Scan → ℕ
  detected s = s.stats.path_events_detected

  -- The scan after one event, reported or not.
  abbrev after_event : Bool → Str → ℕ → Scan → Scan
  after_event hit path logged s =
      if hit then report_change fs config (codes "fsevent") path logged s else s

  after_event-root :
      (hit : Bool) (path : Str) (logged : ℕ) (s : Scan)
      → (after_event hit path logged s).volumes_root ≡ s.volumes_root
  after_event-root true path logged s = report_change-root _ path logged s
  after_event-root false path logged s = refl

  after_event-detected :
      (hit : Bool) (path : Str) (logged : ℕ) (s : Scan)
      → detected (after_event hit path logged s) ≡ detected s + (if hit then 1 else 0)
  after_event-detected true path logged s = report_change-path_events _ path logged s
  after_event-detected false path logged s = omega arith

  handle_events-count :
      (ignores roots paths unique : List Str) (logged matched : ℕ) (s : Scan)
      → detected (handle_events fs config ignores roots paths unique logged matched s).1
        ≡ detected s + length (reported s.volumes_root ignores roots unique paths)
  unfolding handle_events
  handle_events-count ignores roots [] unique logged matched s =
      unfold first_occurrences keep in omega arith
  handle_events-count ignores roots (x ∷ paths) unique logged matched s =
      let hit : Bool =
        not (is_empty x || mem x unique) && is_relevant s.volumes_root ignores roots x in
      let unique' : List Str = grow s.volumes_root ignores roots x unique in
      omega (
        arith,
        handle_events-count ignores roots paths unique' (if hit then next_logged logged else logged)
            (if hit then matched + 1 else matched) (after_event hit x logged s),
        ap (λ r. length (reported r ignores roots unique' paths)) (after_event-root hit x logged s),
        after_event-detected hit x logged s,
        reported_step s.volumes_root ignores roots x paths unique,
      )

  note_matched-detected : (r : ℕ × Scan) → detected (note_matched fs config r) ≡ detected r.1
  unfolding note_matched note_suppressed add_line
  note_matched-detected (n, s) = ground arith

-- With nothing monitored there is nothing to report.
none_counts :
    (root : Str) (ignores paths : List Str) → length (keep (counts root ignores []) paths) ≡ 0
unfolding keep is_relevant exists_in
none_counts root ignores [] = refl
none_counts root ignores (x ∷ xs) = ground (arith, none_counts root ignores xs)

all_fresh :
    (root : Str) (ignores roots paths : List Str)
    → reported root ignores roots [] paths
      ≡ keep (counts root ignores roots) (first_occurrences paths)
all_fresh root ignores roots paths = keep-ext _ _ _ (λ y. unfold mem in refl)

module _ (fs : FileSystem) (settings : Settings) (s : Scan) where
  abbrev ignored : List Str
  ignored = get_system_paths_to_ignore settings

  counted_from :
      (roots paths : List Str)
      → detected fs (some settings) (
          note_matched fs
            (some settings)
            (handle_events fs (some settings) ignored roots paths [] 0 0 s))
        ≡ s.stats.path_events_detected
          + length (keep (counts s.volumes_root ignored roots) (first_occurrences paths))
  counted_from roots paths = omega (
    arith,
    note_matched-detected fs (some settings)
        (handle_events fs (some settings) ignored roots paths [] 0 0 s),
    handle_events-count fs (some settings) ignored roots paths [] 0 0 s,
    ap length (all_fresh s.volumes_root ignored roots paths),
  )

  counted_with :
      (roots paths : List Str)
      → (if is_empty roots || is_empty paths
          then s
          else note_matched fs (some settings) (
              handle_events fs
                (some settings)
                ignored
                roots
                paths
                []
                0
                0
                s)).stats.path_events_detected
        ≡ s.stats.path_events_detected
          + length (keep (counts s.volumes_root ignored roots) (first_occurrences paths))
  counted_with [] paths =
      omega (arith, none_counts s.volumes_root ignored (first_occurrences paths))
  counted_with (r ∷ roots) [] = unfold first_occurrences keep in omega arith
  counted_with (r ∷ roots) (x ∷ paths) = counted_from (r ∷ roots) (x ∷ paths)

-- monitor_paths_from_events counts each distinct event once, if it is not empty, not on the volumes
-- root, not ignored and under a monitored root, and counts nothing else.
pub monitor_paths_from_events-count :
    (fs : FileSystem) (settings : Settings) (paths : List Str) (s : Scan)
    → (monitor_paths_from_events fs (some settings) paths s).stats.path_events_detected
      ≡ s.stats.path_events_detected
        + length (
            keep
              (counts s.volumes_root
                (get_system_paths_to_ignore settings)
                (load_monitored_paths (some settings)))
              (first_occurrences paths))
unfolding monitor_paths_from_events monitor_with
monitor_paths_from_events-count fs settings paths s =
    counted_with fs settings s (load_monitored_paths (some settings)) paths
