-- ===== src/Filesystem/Surveyed.antt =====
-- What a whole scan, perform_scan of src/filesystem/filesystem_enforcer.cpp, does about the volumes.
use silicon.Prelude.{
  ◌-◌, ◌*◌, ◌≡◌, refl, sym, ap, subst, ◌∙◌, Bool, true, false, not, ◌&&◌, ◌||◌, some, List, [],
  arith, if◌then◌else◌, if_cases, is_empty, length, keep, leb,
}
use silicon.Text.{Str}
use silicon.Config.State.{Settings}
use silicon.Filesystem.Types.{Time, ticks_per_second, FilesystemEnforcer, Scan}
use silicon.Filesystem.Volumes.{collect_mounts, monitor_volumes}
use silicon.Filesystem.Events.{drain_pending_events, monitor_paths_from_events}
use silicon.Filesystem.Clipboard.{run_clipboard_hook}
use silicon.Filesystem.Polling.{monitor_paths_polling}
use silicon.Filesystem.Scan.{
  Surroundings, should_scan_volumes, scan_with_events, scan_with_polling, scan_drained, scan_under,
  begin_scan, publish_scan_stats, perform_scan, mark_resync,
}
use silicon.Filesystem.Mounts.{is_intruder, monitor_volumes-branches}
use silicon.Filesystem.Settled.{
  Kept, Settled, monitor_paths_from_events-Settled, monitor_paths_polling-Settled,
  run_clipboard_hook-Settled,
}

-- Whether a scan at this time looks at the volumes: without a stream always, and with one before the
-- first listing, after an event on the volumes root, and sixty seconds after the last look.
abbrev pub looks : FilesystemEnforcer → Time → Bool
looks e now =
    not e.event_backend
    || (not e.known_mounts_initialized
        || (e.volumes_event_pending
            || (e.has_last_volume_resync
                && leb (60 * ticks_per_second) (now - e.last_volume_resync))))

module _ (v : Surroundings) (settings : Settings) where
  abbrev w : Surroundings
  w = record v { config = some settings }

  abbrev current : Str → List Str
  current root = collect_mounts [] (v.file_system.list_directories root).directories

  abbrev readable : Str → Bool
  readable root = (v.file_system.list_directories root).listed

  -- What is known of the volumes behind a scan that does or does not look at them.
  abbrev surveyed : Bool → Scan → Kept
  surveyed look s = record {
    backend = s.event_backend;
    mounts = if look && readable s.volumes_root then current s.volumes_root else s.known_mounts;
    ready = (look && readable s.volumes_root) || s.known_mounts_initialized;
    new_mounts =
        if (look && readable s.volumes_root) && s.known_mounts_initialized
        then length (
            keep (is_intruder v.file_system (some settings) s.known_mounts)
              (current s.volumes_root))
        else 0;
  }

  abbrev Surveyed : Bool → Scan → Scan → Type 0
  Surveyed look s t =
      (t.known_mounts ≡ (surveyed look s).mounts)
      × (t.known_mounts_initialized ≡ (surveyed look s).ready)
      × (t.stats.new_mounts_detected ≡ (surveyed look s).new_mounts)

  Surveyed-behind :
      (look : Bool) (s t u : Scan) → Surveyed look s t → Settled t u → Surveyed look s u
  Surveyed-behind look s t u (a, b, c) q = (
    ap (λ (k : Kept). k.mounts) q ∙ a,
    ap (λ (k : Kept). k.ready) q ∙ b,
    ap (λ (k : Kept). k.new_mounts) q ∙ c,
  )

  monitor_volumes-Surveyed :
      (s : Scan)
      → s.stats.new_mounts_detected ≡ 0
      → Surveyed true s (monitor_volumes v.file_system (some settings) s)
  monitor_volumes-Surveyed s z =
      let (a, b, c, d) = monitor_volumes-branches v.file_system (some settings) s in
      (a, b, omega (arith, c, z))

  untouched : (s : Scan) → s.stats.new_mounts_detected ≡ 0 → Surveyed false s s
  untouched s z = (refl, refl, z)

  events-Surveyed :
      (look : Bool) (s t : Scan) (pending : List Str)
      → Surveyed look s t
      → Surveyed look s (monitor_paths_from_events v.file_system (some settings) pending t)
  events-Surveyed look s t pending p =
      Surveyed-behind look s t (monitor_paths_from_events v.file_system (some settings) pending t) p
        (monitor_paths_from_events-Settled v.file_system (some settings) pending t)

  volumes-Surveyed :
      (look : Bool) (s : Scan)
      → s.stats.new_mounts_detected ≡ 0
      → Surveyed look s (
          if look
          then mark_resync (monitor_volumes v.file_system (some settings) s)
          else if s.has_last_volume_resync
          then s
          else mark_resync s)
  volumes-Surveyed true s z = monitor_volumes-Surveyed s z
  volumes-Surveyed false s z =
      if_cases (Surveyed false s) s.has_last_volume_resync (untouched s z) (untouched s z)

  scan_with_events-Surveyed :
      (pending : List Str) (volume_event_pending : Bool) (s : Scan)
      → s.stats.new_mounts_detected ≡ 0
      → Surveyed
          (should_scan_volumes s.enforcer s.stats.timestamp volume_event_pending)
          s
          (scan_with_events w pending volume_event_pending s)
  unfolding scan_with_events
  scan_with_events-Surveyed pending volume_event_pending s z =
      let look = should_scan_volumes s.enforcer s.stats.timestamp volume_event_pending in
      events-Surveyed look s
        (if look
          then mark_resync (monitor_volumes v.file_system (some settings) s)
          else if s.has_last_volume_resync
          then s
          else mark_resync s)
        pending (volumes-Surveyed look s z)

  scan_with_polling-Surveyed :
      (pending : List Str) (s : Scan)
      → s.stats.new_mounts_detected ≡ 0
      → Surveyed true s (scan_with_polling w pending s)
  unfolding scan_with_polling
  scan_with_polling-Surveyed pending s z =
      let t = monitor_volumes v.file_system (some settings) s in
      let p = monitor_volumes-Surveyed s z in
      if_cases (Surveyed true s) (not (is_empty pending)) (events-Surveyed true s t pending p) (
        Surveyed-behind true s t (monitor_paths_polling v.file_system (some settings) v.stop t) p
          (monitor_paths_polling-Settled v.file_system (some settings) v.stop t))

  either :
      (b look : Bool) (s t u : Scan)
      → Surveyed look s t
      → Surveyed true s u
      → Surveyed (not b || look) s (if b then t else u)
  either true look s t u p q = p
  either false look s t u p q = q

  looks_lem :
      (e : FilesystemEnforcer) (now : Time)
      → (not e.event_backend || should_scan_volumes e now e.volumes_event_pending) ≡ looks e now
  unfolding should_scan_volumes
  looks_lem e now = ground arith

  scanned-Surveyed :
      (e : FilesystemEnforcer)
      → Surveyed (looks e (v.file_system.now 0)) (begin_scan w e) (perform_scan w e)
  unfolding perform_scan scan_under scan_drained drain_pending_events publish_scan_stats
      should_scan_volumes
  scanned-Surveyed e =
      let now = v.file_system.now 0 in
      let s = begin_scan w (record e {
        pending_event_paths = [];
        volumes_event_pending = false;
        has_pending_events = false;
      }) in
      let look = should_scan_volumes s.enforcer now e.volumes_event_pending in
      let monitored =
        if e.event_backend
        then scan_with_events w e.pending_event_paths e.volumes_event_pending s
        else scan_with_polling w e.pending_event_paths s in
      subst (λ l. Surveyed l s (run_clipboard_hook (some settings) v.clipboard now monitored))
        (looks_lem e now)
        (Surveyed-behind (not e.event_backend || look) s monitored
          (run_clipboard_hook (some settings) v.clipboard now monitored)
          (either e.event_backend look s
            (scan_with_events w e.pending_event_paths e.volumes_event_pending s)
            (scan_with_polling w e.pending_event_paths s)
            (scan_with_events-Surveyed e.pending_event_paths e.volumes_event_pending s refl)
            (scan_with_polling-Surveyed e.pending_event_paths s refl))
          (run_clipboard_hook-Settled (some settings) v.clipboard now monitored))

-- A scan with a policy looks at the volumes if there is no event stream, none were listed yet, an
-- event on the volumes root is pending, or the last look is sixty seconds past. If it looks and they
-- can be listed, those of the listing are the known ones after it; it counts those that were not known
-- and that the policy does not allow, but none in a first listing. Otherwise what is known stays as
-- it is and it counts none.
pub perform_scan-known_mounts :
    (w : Surroundings) (settings : Settings) (e : FilesystemEnforcer)
    → w.config ≡ some settings
    → let l = w.file_system.list_directories e.volumes_root in
      let current = collect_mounts [] l.directories in
      let listed = looks e (w.file_system.now 0) && l.listed in
      let t = perform_scan w e in
      (t.known_mounts ≡ (if listed then current else e.known_mounts))
      × (t.known_mounts_initialized ≡ (listed || e.known_mounts_initialized))
      × (t.stats.new_mounts_detected ≡ (
          if listed && e.known_mounts_initialized
          then length (keep (is_intruder w.file_system (some settings) e.known_mounts) current)
          else 0))
perform_scan-known_mounts w settings e h =
    subst
      (λ config.
        Surveyed w settings (looks e (w.file_system.now 0)) (begin_scan w e)
          (perform_scan (record w { config = config }) e))
      (sym h) (scanned-Surveyed w settings e)
