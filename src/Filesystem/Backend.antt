-- ===== src/Filesystem/Backend.antt =====
-- perform_scan of src/filesystem/filesystem_enforcer.cpp leaves event_backend_ alone.
use silicon.Prelude.{
  ◌≡◌, refl, ap, ◌∙◌, Bool, not, Option, none, some, List, if◌then◌else◌, if_cases, is_empty,
}
use silicon.Text.{Str}
use silicon.Config.State.{Settings}
use silicon.Filesystem.Types.{FilesystemEnforcer, Scan}
use silicon.Filesystem.Volumes.{monitor_volumes}
use silicon.Filesystem.Events.{drain_pending_events}
use silicon.Filesystem.Scan.{
  Surroundings, should_scan_volumes, scan_with_events, scan_with_polling, scan_drained, scan_under,
  begin_scan, publish_scan_stats, perform_scan,
}
use silicon.Filesystem.Quiet.{Essence, Quiet, monitor_volumes-Quiet}
use silicon.Filesystem.Settled.{
  Kept, monitor_paths_from_events-Settled, monitor_paths_polling-Settled,
  run_clipboard_hook-Settled,
}

-- The same backend.
abbrev Steady : Scan → Scan → Type 0
Steady s t = t.event_backend ≡ s.event_backend

Quiet-Steady : (s t : Scan) → Quiet s t → Steady s t
Quiet-Steady s t q = ap (λ (e : Essence). e.backend) q

abbrev backend_of : Kept → Bool
backend_of k = k.backend

module _ (w : Surroundings) where
  scan_with_events-Steady :
      (pending : List Str) (volume_event_pending : Bool) (s : Scan)
      → Steady s (scan_with_events w pending volume_event_pending s)
  unfolding scan_with_events
  scan_with_events-Steady pending volume_event_pending s =
      ap backend_of (monitor_paths_from_events-Settled w.file_system w.config pending _)
      ∙ if_cases (Steady s) (should_scan_volumes s.enforcer s.stats.timestamp volume_event_pending)
          (Quiet-Steady s (monitor_volumes w.file_system w.config s)
            (monitor_volumes-Quiet w.file_system w.config s))
          (if_cases (Steady s) s.has_last_volume_resync refl refl)

  scan_with_polling-Steady :
      (pending : List Str) (s : Scan) → Steady s (scan_with_polling w pending s)
  unfolding scan_with_polling
  scan_with_polling-Steady pending s =
      let t = monitor_volumes w.file_system w.config s in
      let q = Quiet-Steady s t (monitor_volumes-Quiet w.file_system w.config s) in
      if_cases (Steady s) (not (is_empty pending))
        (ap backend_of (monitor_paths_from_events-Settled w.file_system w.config pending t) ∙ q)
        (ap backend_of (monitor_paths_polling-Settled w.file_system w.config w.stop t) ∙ q)

  scan_drained-Steady :
      (drained : FilesystemEnforcer × List Str × Bool) (s : Scan)
      → (scan_drained w drained s).event_backend ≡ drained.0.event_backend
  unfolding scan_drained publish_scan_stats
  scan_drained-Steady (e, pending, volume_event_pending) s =
      let t = record s { enforcer = e } in
      let u =
        if e.event_backend
        then scan_with_events w pending volume_event_pending t
        else scan_with_polling w pending t in
      ap backend_of (run_clipboard_hook-Settled w.config w.clipboard s.stats.timestamp u)
      ∙ if_cases (Steady t) e.event_backend (scan_with_events-Steady pending volume_event_pending t)
          (scan_with_polling-Steady pending t)

  scan_under-Steady : (config : Option Settings) (s : Scan) → Steady s (scan_under w config s)
  unfolding scan_under publish_scan_stats drain_pending_events
  scan_under-Steady none s = refl
  scan_under-Steady (some settings) s = scan_drained-Steady (drain_pending_events s.enforcer) s

  -- A scan neither starts nor stops the event stream.
  pub perform_scan-backend :
      (e : FilesystemEnforcer) → (perform_scan w e).event_backend ≡ e.event_backend
  unfolding perform_scan
  perform_scan-backend e = scan_under-Steady w.config (begin_scan w e)
