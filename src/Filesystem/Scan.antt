-- ===== src/Filesystem/Scan.antt =====
-- perform_scan of src/filesystem/filesystem_enforcer.cpp.
use silicon.Prelude.{
  ℕ, ◌-◌, ◌*◌, Bool, true, false, not, ◌||◌, Option, none, some, List, [], leb, if◌then◌else◌,
  is_empty,
}
use silicon.Text.{Str}
use silicon.Config.State.{Settings}
use silicon.Filesystem.Types.{
  Time, ticks_per_second, FileSystem, FilesystemEnforcer, Scan, new_stats,
}
use silicon.Filesystem.Volumes.{monitor_volumes}
use silicon.Filesystem.Events.{drain_pending_events, monitor_paths_from_events}
use silicon.Filesystem.Polling.{monitor_paths_polling}
use silicon.Filesystem.Clipboard.{run_clipboard_hook}

abbrev pub volume_resync_interval : ℕ
volume_resync_interval = 60

-- What one scan meets: the policy, the file system, the value of stop_requested_ at each root, and
-- what IClipboard::clear would answer.
pub record Surroundings : Type 0 where
  pub config : Option Settings
  pub file_system : FileSystem
  pub stop : ℕ → Bool
  pub clipboard : Bool × Str

unfoldable pub publish_scan_stats : Scan → Scan
publish_scan_stats s = record s { enforcer = record (s.enforcer) { last_scan_stats = s.stats } }

-- `should_scan_volumes`
unfoldable pub should_scan_volumes : FilesystemEnforcer → Time → Bool → Bool
should_scan_volumes e timestamp volume_event_pending =
    if not e.known_mounts_initialized || volume_event_pending
    then true
    else if not e.has_last_volume_resync
    then false
    else leb (volume_resync_interval * ticks_per_second) (timestamp - e.last_volume_resync)

abbrev pub mark_resync : Scan → Scan
mark_resync s = record s {
  enforcer = record (s.enforcer) {
    has_last_volume_resync = true;
    last_volume_resync = s.stats.timestamp;
  };
}

module _ (w : Surroundings) where
  open w use {config, file_system, stop, clipboard}

  -- The branch with an event stream.
  unfoldable pub scan_with_events : List Str → Bool → Scan → Scan
  scan_with_events pending_paths volume_event_pending s =
      monitor_paths_from_events file_system config pending_paths (
        if should_scan_volumes s.enforcer s.stats.timestamp volume_event_pending
        then mark_resync (monitor_volumes file_system config s)
        else if s.has_last_volume_resync
        then s
        else mark_resync s)

  -- The branch without one.
  unfoldable pub scan_with_polling : List Str → Scan → Scan
  scan_with_polling pending_paths s =
      let s' = monitor_volumes file_system config s in
      if not (is_empty pending_paths)
      then monitor_paths_from_events file_system config pending_paths s'
      else monitor_paths_polling file_system config stop s'

  unfoldable pub scan_drained : FilesystemEnforcer × List Str × Bool → Scan → Scan
  scan_drained (e, pending_paths, volume_event_pending) s =
      let drained = record s { enforcer = e } in
      let monitored =
        if e.event_backend
        then scan_with_events pending_paths volume_event_pending drained
        else scan_with_polling pending_paths drained in
      publish_scan_stats (run_clipboard_hook config clipboard s.stats.timestamp monitored)

  -- A scan with a policy and one without.
  unfoldable pub scan_under : Option Settings → Scan → Scan
  scan_under none s = publish_scan_stats s
  scan_under (some settings) s = scan_drained (drain_pending_events s.enforcer) s

  abbrev pub begin_scan : FilesystemEnforcer → Scan
  begin_scan e = record {
    enforcer = e;
    stats = new_stats (file_system.now 0);
    clock_calls = 1;
    sent = [];
    log = [];
    clears = 0;
  }

  unfoldable pub perform_scan : FilesystemEnforcer → Scan
  perform_scan e = scan_under config (begin_scan e)
