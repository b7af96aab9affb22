-- ===== src/Tests/Monitors.antt =====
-- The theorems on FilesystemEnforcer (src/filesystem) at a concrete file system.
use silicon.Prelude.{
  ◌+◌, ◌*◌, ◌≡◌, ◌≤◌, refl, true, false, not, ◌&&◌, ◌||◌, some, List, [], ◌∷◌, if◌then◌else◌, arith,
  length, keep, is_empty, exists_in, ◌++◌,
}
use silicon.Prelude.Int.{pos}
use silicon.Text.{Str, codes}
use silicon.Tests.{exam}
use silicon.Platform.{failed}
use silicon.Filesystem.Sinks.{clear}
use silicon.Filesystem.Disabled.{run_hooks, failed_clear-last}
use silicon.Config.Queries.{get_system_paths_to_ignore, should_clear_clipboard, is_debug_mode}
use silicon.Config.Dedupe.{first_occurrences}
use silicon.Filesystem.Types.{
  ticks_per_second, Snapshot, FileSystem, new_stats, FilesystemEnforcer, Scan,
}
use silicon.Filesystem.Policy.{resolve_clipboard_clear_interval, load_monitored_paths}
use silicon.Filesystem.Volumes.{collect_mounts}
use silicon.Filesystem.Events.{is_relevant}
use silicon.Filesystem.Polling.{find, contains, created, modified, deleted, diff}
use silicon.Filesystem.Clipboard.{run_clipboard_hook}
use silicon.Filesystem.Scan.{Surroundings, begin_scan, perform_scan}
use silicon.Filesystem.RateLimit.{Spread, emission_times, emission_times-Spread}
use silicon.Filesystem.Sending.{IsAccounted}
use silicon.Filesystem.Sending.Cycle.{queue_after, perform_scan-IsAccounted}
use silicon.Filesystem.Lines.{change_lines}
use silicon.Filesystem.Whole.{path_changes, perform_scan-path_changes}
use silicon.Filesystem.Queue.{
  Turn, arrives, drains, turns, drained, IsCoherent, AreFlagged, turns-IsCoherent,
}
use silicon.Filesystem.Mounts.{is_intruder}
use silicon.Filesystem.Surveyed.{looks, perform_scan-known_mounts}
use silicon.Filesystem.Diff.{occurs, has_changed, Unique, diff_events}
use silicon.Filesystem.Clearing.{
  clears_at, run_clipboard_hook-clears, clear_times, clear_times-Spread,
}

-- Two volumes, and one file under the protected path.
abbrev file_system : FileSystem
file_system = record {
  now = λ n. 1000000 * n;
  list_directories = λ root. record {
    listed = true;
    directories = codes "/Volumes/Backup" ∷ codes "/Volumes/Stick" ∷ [];
    error_code = 0;
    permission_errors = 0;
  };
  snapshot_tree = λ root. record {
    ok = true;
    snapshot =
        (
          codes "/Users/ada/exam/a.txt",
          record { is_directory = false; size_bytes = 3; modified_ticks = pos 7 },
        )
        ∷ [];
    error_code = 0;
    permission_errors = 0;
  };
}

abbrev pub enforcer : FilesystemEnforcer
enforcer = record {
  volumes_root = codes "/Volumes";
  last_scan_stats = new_stats 0;
  event_backend = true;
  pending_event_paths = codes "/Users/ada/exam/a.txt" ∷ codes "/Users/ada/exam/a.txt" ∷ [];
  volumes_event_pending = true;
  has_pending_events = true;
  known_mounts_initialized = true;
  known_mounts = codes "/Volumes/Backup" ∷ [];
  known_path_snapshot_initialized = false;
  known_path_snapshot = [];
  has_last_volume_resync = false;
  last_volume_resync = 0;
  has_notification_time = false;
  last_notification_time = 0;
  has_next_clipboard_deadline = true;
  next_clipboard_deadline = 5;
  clipboard_hook_disabled = false;
  clipboard_disable_logged = false;
}

abbrev pub surroundings : Surroundings
surroundings = record {
  config = some exam;
  file_system = file_system;
  stop = λ i. false;
  clipboard = (true, []);
}

abbrev scan : Scan
scan = begin_scan surroundings enforcer

abbrev events : List Str
events = codes "/Users/ada/exam/a.txt" ∷ codes "/tmp/b" ∷ codes "/Users/ada/exam/a.txt" ∷ []

perform_scan-IsAccounted_example :
    IsAccounted (queue_after surroundings.config enforcer) (perform_scan surroundings enforcer)
perform_scan-IsAccounted_example = perform_scan-IsAccounted surroundings enforcer

perform_scan-path_changes_example :
    ((perform_scan surroundings enforcer).stats.path_events_detected
      ≡ path_changes surroundings exam enforcer)
    × (change_lines (perform_scan surroundings enforcer).log ≤ 32)
perform_scan-path_changes_example = perform_scan-path_changes surroundings exam enforcer refl

-- The one file that two events name, under the protected path.
path_changes_test : path_changes surroundings exam enforcer ≡ 1
unfolding keep first_occurrences is_relevant get_system_paths_to_ignore load_monitored_paths
path_changes_test = refl

abbrev before_change : Snapshot
before_change =
    (codes "/a", record { is_directory = false; size_bytes = 3; modified_ticks = pos 7 }) ∷ []

abbrev after_change : Snapshot
after_change =
    (codes "/b", record { is_directory = false; size_bytes = 3; modified_ticks = pos 7 }) ∷ []

after_change-Unique : Unique after_change
unfolding find
after_change-Unique = (refl, tt)

diff_events_example :
    (occurs created (codes "/b") (diff before_change after_change)
      ≡ (contains (codes "/b") after_change && not (contains (codes "/b") before_change)))
    × (occurs modified (codes "/b") (diff before_change after_change)
        ≡ has_changed (find (codes "/b") before_change) (find (codes "/b") after_change))
    × (occurs deleted (codes "/b") (diff before_change after_change)
        ≡ (contains (codes "/b") before_change && not (contains (codes "/b") after_change)))
diff_events_example = diff_events (codes "/b") before_change after_change after_change-Unique

-- With a stream, one of the two volumes known, and an event on the volumes root.
abbrev plugged : FilesystemEnforcer
plugged = record enforcer {
  event_backend = true;
  volumes_event_pending = true;
  known_mounts_initialized = true;
  known_mounts = codes "/Volumes/Backup" ∷ [];
}

perform_scan-known_mounts_example :
    let l = surroundings.file_system.list_directories plugged.volumes_root in
    let current = collect_mounts [] l.directories in
    let listed = looks plugged (surroundings.file_system.now 0) && l.listed in
    let t = perform_scan surroundings plugged in
    (t.known_mounts ≡ (if listed then current else plugged.known_mounts))
    × (t.known_mounts_initialized ≡ (listed || plugged.known_mounts_initialized))
    × (t.stats.new_mounts_detected ≡ (
        if listed && plugged.known_mounts_initialized
        then length
            (keep (is_intruder surroundings.file_system (some exam) plugged.known_mounts) current)
        else 0))
perform_scan-known_mounts_example = perform_scan-known_mounts surroundings exam plugged refl

emission_times-Spread_example :
    Spread (5 * ticks_per_second) (emission_times enforcer 5 (10 ∷ 20 ∷ 6000000 ∷ []))
emission_times-Spread_example =
    emission_times-Spread enforcer 5 (10 ∷ 20 ∷ 6000000 ∷ [])
      (omega arith, (omega arith, (omega arith, tt)))

clear_times-Spread_example :
    Spread
      (resolve_clipboard_clear_interval (some exam) * ticks_per_second)
      (clear_times exam scan ((10, (true, [])) ∷ (11, (true, [])) ∷ (20000000, (false, [])) ∷ []))
clear_times-Spread_example =
    clear_times-Spread exam scan
      ((10, (true, [])) ∷ (11, (true, [])) ∷ (20000000, (false, [])) ∷ [])

run_clipboard_hook-clears_example :
    (run_clipboard_hook (some exam) (true, []) 10 scan).clears
    ≡ scan.clears + (if clears_at exam 10 scan then 1 else 0)
run_clipboard_hook-clears_example = run_clipboard_hook-clears exam (true, []) 10 scan

abbrev idle : FilesystemEnforcer
idle = record enforcer {
  pending_event_paths = [];
  volumes_event_pending = false;
  has_pending_events = false;
}

abbrev stream_turns : List Turn
stream_turns = arrives (codes "/a") ∷ arrives [] ∷ drains ∷ arrives (codes "/b") ∷ []

turns-IsCoherent_example :
    let (e, batches) = turns stream_turns idle in
    IsCoherent e
    × AreFlagged (codes "/Volumes") batches
    × (drained batches ++ e.pending_event_paths
        ≡ keep (λ p. not (is_empty p)) (codes "/a" ∷ [] ∷ codes "/b" ∷ []))
unfolding exists_in
turns-IsCoherent_example =
    turns-IsCoherent stream_turns idle (record { volumes = refl; some_pending = refl })

-- A deadline that has passed, and a clipboard that fails.
abbrev due : Scan
due = record scan {
  enforcer = record enforcer { has_next_clipboard_deadline = true; next_clipboard_deadline = 5 };
}

due_now : clears_at exam 10 due ≡ true
unfolding should_clear_clipboard is_debug_mode
due_now = refl

pbcopy_failed : (clear (λ errno. codes "no such file") (failed 2)).0 ≡ false
unfolding clear
pbcopy_failed = refl

failed_clear-last_example :
    (run_hooks ((some exam, (true, []), 90000000) ∷ []) (
      run_clipboard_hook
        (some exam)
        (clear (λ errno. codes "no such file") (failed 2))
        10
        due)).clears
    ≡ due.clears + 1
failed_clear-last_example =
    failed_clear-last exam (λ errno. codes "no such file") (failed 2) 10 due
      ((some exam, (true, []), 90000000) ∷ []) due_now pbcopy_failed
