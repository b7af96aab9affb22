-- ===== src/Filesystem/Whole.antt =====
-- What a whole scan, perform_scan of src/filesystem/filesystem_enforcer.cpp, counts and logs of the
-- path changes.
use silicon.Prelude.{
  ℕ, ◌+◌, ◌≤◌, ◌≡◌, refl, sym, ap, subst, ◌∙◌, Bool, true, false, not, ◌||◌, Option, some, List, [],
  ◌∷◌, arith, if◌then◌else◌, if_cases, is_empty, length, keep,
}
use silicon.Text.{Str}
use silicon.Config.Dedupe.{first_occurrences}
use silicon.Config.State.{Settings}
use silicon.Config.Queries.{get_system_paths_to_ignore}
use silicon.Filesystem.Types.{FilesystemEnforcer, Scan, Snapshot}
use silicon.Filesystem.Policy.{load_monitored_paths}
use silicon.Filesystem.Volumes.{monitor_volumes}
use silicon.Filesystem.Events.{drain_pending_events, monitor_paths_from_events}
use silicon.Filesystem.Polling.{diff, monitor_paths_polling}
use silicon.Filesystem.Clipboard.{run_clipboard_hook}
use silicon.Filesystem.Scan.{
  Surroundings, should_scan_volumes, scan_with_events, scan_with_polling, scan_drained, scan_under,
  begin_scan, publish_scan_stats, perform_scan,
}
use silicon.Filesystem.Counting.{counts, monitor_paths_from_events-count}
use silicon.Filesystem.Lines.{change_lines, monitor_paths_from_events-lines}
use silicon.Filesystem.Quiet.{Essence, Quiet, monitor_volumes-Quiet, run_clipboard_hook-Quiet}
use silicon.Filesystem.Polled.{snapshot_roots, monitor_paths_polling_lem}

-- The events of a queue that a scan reports.
abbrev pub relevant_events : Settings → Str → List Str → ℕ
relevant_events settings root pending = length (
    keep (counts root (get_system_paths_to_ignore settings) (load_monitored_paths (some settings)))
      (first_occurrences pending))

-- Path changes counted, and the lines about them at most 32 more.
abbrev Counted : ℕ → Scan → Scan → Type 0
Counted n s t =
    (t.stats.path_events_detected ≡ s.stats.path_events_detected + n)
    × (change_lines t.log ≤ change_lines s.log + 32)

-- A quiet part before or behind.
Quiet-before : (n : ℕ) (s t u : Scan) → Quiet s t → Counted n t u → Counted n s u
Quiet-before n s t u q (a, b) = (
  omega (arith, ap (λ (e : Essence). e.path_events) q, a),
  omega (arith, ap (λ (e : Essence). e.change_lines) q, b),
)

Quiet-behind : (n : ℕ) (s t u : Scan) → Counted n s t → Quiet t u → Counted n s u
Quiet-behind n s t u (a, b) q = (
  omega (arith, ap (λ (e : Essence). e.path_events) q, a),
  omega (arith, ap (λ (e : Essence). e.change_lines) q, b),
)

-- Whichever of two parts runs.
either :
    (b c : Bool) (n m : ℕ) (s t u : Scan)
    → Counted n s t
    → Counted (if c then n else m) s u
    → Counted (if b || c then n else m) s (if b then t else u)
either true c n m s t u p q = p
either false c n m s t u p q = q

module _ (v : Surroundings) (settings : Settings) where
  abbrev w : Surroundings
  w = record v { config = some settings }

  abbrev config : Option Settings
  config = some settings

  -- The path events, behind a quiet part.
  events-Counted :
      (s t : Scan) (pending : List Str)
      → Quiet s t
      → Counted
          (relevant_events settings s.volumes_root pending)
          s
          (monitor_paths_from_events v.file_system config pending t)
  events-Counted s t pending q =
      let u = monitor_paths_from_events v.file_system config pending t in
      Quiet-before (relevant_events settings s.volumes_root pending) s t u q (
        monitor_paths_from_events-count v.file_system settings pending t
            ∙ ap
                (λ (e : Essence).
                  t.stats.path_events_detected + relevant_events settings e.root pending)
                q,
        monitor_paths_from_events-lines v.file_system config pending t,
      )

  scan_with_events-Counted :
      (pending : List Str) (volume_event_pending : Bool) (s : Scan)
      → Counted
          (relevant_events settings s.volumes_root pending)
          s
          (scan_with_events w pending volume_event_pending s)
  unfolding scan_with_events
  scan_with_events-Counted pending volume_event_pending s = events-Counted s _ pending (
      if_cases (Quiet s) (should_scan_volumes s.enforcer s.stats.timestamp volume_event_pending)
        (monitor_volumes-Quiet v.file_system config s)
        (if_cases (Quiet s) s.has_last_volume_resync refl refl))

  -- What polling finds, with the snapshot before.
  abbrev polled_changes : Bool → Snapshot → ℕ
  polled_changes initialized snapshot =
      if initialized
      then length
          (diff snapshot (snapshot_roots v.file_system v.stop 0 (load_monitored_paths config) []))
      else 0

  polling-Counted :
      (s t : Scan)
      → Quiet s t
      → Counted
          (polled_changes s.known_path_snapshot_initialized s.known_path_snapshot)
          s
          (monitor_paths_polling v.file_system config v.stop t)
  polling-Counted s t q =
      let (a, b) = monitor_paths_polling_lem v.file_system config v.stop t in
      Quiet-before (polled_changes s.known_path_snapshot_initialized s.known_path_snapshot) s t
        (monitor_paths_polling v.file_system config v.stop t) q
        (
          a
              ∙ ap
                  (λ (e : Essence).
                    t.stats.path_events_detected + polled_changes e.initialized e.snapshot)
                  q,
          b,
        )

  abbrev changes_without_stream : List Str → Scan → ℕ
  changes_without_stream pending s =
      if not (is_empty pending)
      then relevant_events settings s.volumes_root pending
      else polled_changes s.known_path_snapshot_initialized s.known_path_snapshot

  scan_with_polling-Counted :
      (pending : List Str) (s : Scan)
      → Counted (changes_without_stream pending s) s (scan_with_polling w pending s)
  unfolding scan_with_polling
  scan_with_polling-Counted [] s =
      polling-Counted s (monitor_volumes v.file_system config s)
        (monitor_volumes-Quiet v.file_system config s)
  scan_with_polling-Counted (path ∷ pending) s =
      events-Counted s (monitor_volumes v.file_system config s) (path ∷ pending)
        (monitor_volumes-Quiet v.file_system config s)

  -- The path changes that a scan has to count.
  abbrev pub path_changes : FilesystemEnforcer → ℕ
  path_changes e =
      if e.event_backend || not (is_empty e.pending_event_paths)
      then relevant_events settings e.volumes_root e.pending_event_paths
      else polled_changes e.known_path_snapshot_initialized e.known_path_snapshot

  scan_drained-Counted :
      (e : FilesystemEnforcer)
      → Counted
          (path_changes e)
          (begin_scan w e)
          (scan_drained w (drain_pending_events e) (begin_scan w e))
  unfolding scan_drained drain_pending_events publish_scan_stats
  scan_drained-Counted e =
      let drained = record (begin_scan w e) {
        enforcer = record e {
          pending_event_paths = [];
          volumes_event_pending = false;
          has_pending_events = false;
        };
      } in
      let monitored =
        if e.event_backend
        then scan_with_events w e.pending_event_paths e.volumes_event_pending drained
        else scan_with_polling w e.pending_event_paths drained in
      Quiet-behind (path_changes e) drained monitored
        (run_clipboard_hook config v.clipboard drained.stats.timestamp monitored)
        (either e.event_backend (not (is_empty e.pending_event_paths)) _ _ drained _ _
          (scan_with_events-Counted e.pending_event_paths e.volumes_event_pending drained)
          (scan_with_polling-Counted e.pending_event_paths drained))
        (run_clipboard_hook-Quiet config v.clipboard drained.stats.timestamp monitored)

  scanned-Counted :
      (e : FilesystemEnforcer)
      → ((perform_scan w e).stats.path_events_detected ≡ path_changes e)
        × (change_lines (perform_scan w e).log ≤ 32)
  unfolding perform_scan scan_under
  scanned-Counted e = let (a, b) = scan_drained-Counted e in (omega (arith, a), omega (arith, b))

-- A scan with a policy counts as path changes, with an event stream or when events are pending, the
-- distinct pending events that are not empty, not on the volumes root, not ignored and under a
-- monitored root; else, from the second snapshot on, the differences between the snapshot before and
-- that of the monitored roots now. It logs at most 32 of them.
pub perform_scan-path_changes :
    (w : Surroundings) (settings : Settings) (e : FilesystemEnforcer)
    → w.config ≡ some settings
    → ((perform_scan w e).stats.path_events_detected ≡ path_changes w settings e)
      × (change_lines (perform_scan w e).log ≤ 32)
perform_scan-path_changes w settings e h =
    subst
      (λ config.
        ((perform_scan (record w { config = config }) e).stats.path_events_detected
          ≡ path_changes w settings e)
        × (change_lines (perform_scan (record w { config = config }) e).log ≤ 32))
      (sym h) (scanned-Counted w settings e)
