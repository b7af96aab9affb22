-- ===== src/Filesystem/Events.antt =====
-- The path events of src/filesystem/filesystem_enforcer.cpp: their queue and
-- monitor_paths_from_events.
use silicon.Prelude.{
  ℕ, ◌+◌, ◌-◌, Bool, true, false, not, ◌&&◌, ◌||◌, Option, none, some, List, [], ◌∷◌, ◌++◌, ltb,
  if◌then◌else◌, is_empty, exists_in,
}
use silicon.Text.{Str, codes, mem, set_insert}
use silicon.Config.State.{Settings}
use silicon.Config.Queries.{get_system_paths_to_ignore}
use silicon.Filesystem.Types.{FileSystem, FilesystemEnforcer, Scan, path_change, suppressed}
use silicon.Filesystem.Helpers.{sanitize_for_log, has_directory_prefix, should_ignore_path}
use silicon.Filesystem.Policy.{load_monitored_paths}
use silicon.Filesystem.Notify.{emit_notification_if_allowed}
use silicon.Filesystem.Volumes.{add_line}

abbrev pub max_path_events_logged_per_scan : ℕ
max_path_events_logged_per_scan = 32

unfoldable pub enqueue_path_event : FilesystemEnforcer → Str → FilesystemEnforcer
unfolding has_directory_prefix
enqueue_path_event e path = if is_empty path then e else record e {
  pending_event_paths = e.pending_event_paths ++ path ∷ [];
  volumes_event_pending =
      if has_directory_prefix path e.volumes_root then true else e.volumes_event_pending;
  has_pending_events = true;
}

-- The enforcer, the event paths and whether a volume event is among them.
unfoldable pub drain_pending_events : FilesystemEnforcer → FilesystemEnforcer × List Str × Bool
drain_pending_events e = (
  record e { pending_event_paths = []; volumes_event_pending = false; has_pending_events = false },
  e.pending_event_paths,
  e.volumes_event_pending,
)

unfoldable pub activity_message : Str → Str
activity_message path =
    codes "Filesystem activity detected in monitored path: " ++ sanitize_for_log path

-- A path that is not on a volume, not ignored and under a monitored root.
unfoldable pub is_relevant : Str → List Str → List Str → Str → Bool
unfolding has_directory_prefix should_ignore_path exists_in
is_relevant volumes_root ignore_patterns monitored_paths raw_path =
    if has_directory_prefix raw_path volumes_root
    then false
    else if should_ignore_path raw_path ignore_patterns
    then false
    else exists_in (has_directory_prefix raw_path) monitored_paths

-- The line that tells how many events had no line of their own.
unfoldable pub note_suppressed : ℕ → Scan → Scan
note_suppressed matched s =
    if ltb max_path_events_logged_per_scan matched
    then add_line (suppressed (matched - max_path_events_logged_per_scan)) s
    else s

-- `logged_events` after one more event.
abbrev pub next_logged : ℕ → ℕ
next_logged logged = if ltb logged max_path_events_logged_per_scan then logged + 1 else logged

-- ++stats->path_events_detected
unfoldable pub count_change : Scan → Scan
count_change s = record s {
  stats = record (s.stats) { path_events_detected = s.stats.path_events_detected + 1 };
}

-- A line for the event, while there are fewer than 32.
unfoldable pub log_change : Str → Str → ℕ → Scan → Scan
log_change action path logged s =
    if ltb logged max_path_events_logged_per_scan
    then add_line (path_change (sanitize_for_log action) (sanitize_for_log path)) s
    else s

module _ (fs : FileSystem) (config : Option Settings) where
  -- What both monitors do for one event; `logged` counts the lines so far.
  unfoldable pub report_change : Str → Str → ℕ → Scan → Scan
  report_change action path logged s =
      emit_notification_if_allowed fs config (activity_message path)
        (log_change action path logged (count_change s))

  -- The loop over the events: `unique_events`, `logged_events`, `matched_events`.
  unfoldable pub handle_events : List Str → List Str → List Str → List Str → ℕ → ℕ → Scan → ℕ × Scan
  handle_events ignores roots [] unique logged matched s = (matched, s)
  handle_events ignores roots (raw_path ∷ paths) unique logged matched s =
      let skip = is_empty raw_path || mem raw_path unique in
      let hit = not skip && is_relevant s.volumes_root ignores roots raw_path in
      handle_events ignores roots paths
        (if is_empty raw_path then unique else set_insert raw_path unique)
        (if hit then next_logged logged else logged) (if hit then matched + 1 else matched)
        (if hit then report_change (codes "fsevent") raw_path logged s else s)

  unfoldable pub note_matched : ℕ × Scan → Scan
  note_matched (matched, s) = note_suppressed matched s

  unfoldable pub monitor_with : Settings → List Str → Scan → Scan
  monitor_with settings event_paths s =
      let monitored_paths = load_monitored_paths (some settings) in
      if is_empty monitored_paths || is_empty event_paths
      then s
      else note_matched
          (handle_events (get_system_paths_to_ignore settings) monitored_paths event_paths [] 0 0 s)

unfoldable pub monitor_paths_from_events : FileSystem → Option Settings → List Str → Scan → Scan
monitor_paths_from_events fs none event_paths s = s
monitor_paths_from_events fs (some settings) event_paths s =
    monitor_with fs (some settings) settings event_paths s
