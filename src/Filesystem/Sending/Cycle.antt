-- ===== src/Filesystem/Sending/Cycle.antt =====
-- What a whole scan of src/filesystem/filesystem_enforcer.cpp sends and leaves queued.
use silicon.Prelude.{
  ◌≡◌, refl, Bool, true, false, Option, none, some, List, [], ◌∷◌, arith, ltb, Bool-cases, ltb, inl,
  inr,
}
use silicon.Text.{Str}
use silicon.Config.State.{Settings}
use silicon.Config.Queries.{is_debug_mode, should_clear_clipboard}
use silicon.Filesystem.Types.{Time, FilesystemEnforcer, Scan}
use silicon.Filesystem.Events.{drain_pending_events}
use silicon.Filesystem.Clipboard.{after_clear, clear_now, run_clipboard_hook}
use silicon.Filesystem.Scan.{
  Surroundings, begin_scan, perform_scan, scan_under, scan_drained, scan_with_events,
  scan_with_polling, publish_scan_stats, should_scan_volumes,
}
use silicon.Filesystem.Sending.{
  queue, IsAccounted, add_line-IsAccounted, monitor_volumes-IsAccounted,
}
use silicon.Filesystem.Sending.Paths.{polling-IsAccounted, events-IsAccounted}

module _ {q : List Str × Bool × Bool} where
  after_clear-IsAccounted :
      (r : Bool × Str) (s : Scan) → IsAccounted q s → IsAccounted q (after_clear r s)
  unfolding after_clear
  after_clear-IsAccounted (true, message) s h = add_line-IsAccounted _ s h
  after_clear-IsAccounted (false, message) s h = elim (Bool-cases s.clipboard_disable_logged) [
    | inl e ↦ rw e (record { facts = h.facts })
    | inr e ↦ rw e (add_line-IsAccounted _ _ (record { facts = h.facts }))
  ]

  clear_now-IsAccounted :
      (config : Settings) (r : Bool × Str) (s : Scan)
      → IsAccounted q s
      → IsAccounted q (clear_now config r s)
  unfolding clear_now
  clear_now-IsAccounted config r s h = elim (Bool-cases s.clipboard_hook_disabled) [
    | inl e ↦ rw e (record { facts = h.facts })
    | inr e ↦ rw e (elim (Bool-cases (is_debug_mode config)) [
      | inl k ↦ rw k (add_line-IsAccounted _ _ (record { facts = h.facts }))
      | inr k ↦ rw k (after_clear-IsAccounted r _ (record { facts = h.facts }))
    ])
  ]

  hook-IsAccounted :
      (config : Option Settings) (r : Bool × Str) (now : Time) (s : Scan)
      → IsAccounted q s
      → IsAccounted q (run_clipboard_hook config r now s)
  unfolding run_clipboard_hook
  hook-IsAccounted none r now s h = h
  hook-IsAccounted (some config) r now s h = elim (Bool-cases (should_clear_clipboard config)) [
    | inr e ↦ rw e (record { facts = h.facts })
    | inl e ↦ rw e (elim (Bool-cases s.has_next_clipboard_deadline) [
      | inr k ↦ rw k (record { facts = h.facts })
      | inl k ↦ rw k (elim (Bool-cases (ltb now s.next_clipboard_deadline)) [
        | inl early ↦ rw early (record { facts = h.facts })
        | inr due ↦ rw due (clear_now-IsAccounted config r _ (record { facts = h.facts }))
      ])
    ])
  ]

  publish-IsAccounted : (s : Scan) → IsAccounted q s → IsAccounted q (publish_scan_stats s)
  unfolding publish_scan_stats
  publish-IsAccounted s h = record { facts = h.facts }

  module _ (w : Surroundings) where
    scan_with_events-IsAccounted :
        (paths : List Str) (volume : Bool) (s : Scan)
        → IsAccounted q s
        → IsAccounted q (scan_with_events w paths volume s)
    unfolding scan_with_events
    scan_with_events-IsAccounted paths volume s h =
        events-IsAccounted w.file_system w.config paths _
          (elim (Bool-cases (should_scan_volumes s.enforcer s.stats.timestamp volume)) [
            | inl e ↦
                rw e (record {
                  facts = (monitor_volumes-IsAccounted w.file_system w.config s h).facts;
                })
            | inr e ↦ rw e (elim (Bool-cases s.has_last_volume_resync) [
              | inl k ↦ rw k (record { facts = h.facts })
              | inr k ↦ rw k (record { facts = h.facts })
            ])
          ])

    scan_with_polling-IsAccounted :
        (paths : List Str) (s : Scan)
        → IsAccounted q s
        → IsAccounted q (scan_with_polling w paths s)
    unfolding scan_with_polling
    scan_with_polling-IsAccounted [] s h =
        polling-IsAccounted w.file_system w.config w.stop _
          (monitor_volumes-IsAccounted w.file_system w.config s h)
    scan_with_polling-IsAccounted (path ∷ paths) s h =
        events-IsAccounted w.file_system w.config (path ∷ paths) _
          (monitor_volumes-IsAccounted w.file_system w.config s h)

-- The queue after a scan: emptied by a scan with a policy, left alone by one without.
abbrev pub queue_after : Option Settings → FilesystemEnforcer → List Str × Bool × Bool
queue_after none e = queue e
queue_after (some settings) e = ([], false, false)

module _ (w : Surroundings) where
  scan_drained-IsAccounted :
      (q q' : List Str × Bool × Bool) (drained : FilesystemEnforcer × List Str × Bool) (s : Scan)
      → queue drained.0 ≡ q'
      → IsAccounted q s
      → IsAccounted q' (scan_drained w drained s)
  unfolding scan_drained
  scan_drained-IsAccounted q q' (e, paths, volume) s empty h =
      let (a, b, c, d) = h.facts in
      publish-IsAccounted _ (
        hook-IsAccounted w.config w.clipboard _ _ (elim (Bool-cases e.event_backend) [
          | inl k ↦
              rw k (
                scan_with_events-IsAccounted w paths volume _ (record { facts = (a, b, c, empty) }))
          | inr k ↦
              rw k (scan_with_polling-IsAccounted w paths _ (record { facts = (a, b, c, empty) }))
        ]))

  scan_under-IsAccounted :
      (config : Option Settings) (s : Scan)
      → IsAccounted (queue s.enforcer) s
      → IsAccounted (queue_after config s.enforcer) (scan_under w config s)
  unfolding scan_under drain_pending_events
  scan_under-IsAccounted none s h = publish-IsAccounted s h
  scan_under-IsAccounted (some settings) s h =
      scan_drained-IsAccounted (queue s.enforcer) ([], false, false) _ s refl h

  -- After any scan the counter of notifications is the number of notifications sent, that number is
  -- at most the number of new volumes and path changes detected, each notification is printable
  -- ASCII, and the event queue is empty with its flags reset if there is a policy, and as before
  -- otherwise.
  pub perform_scan-IsAccounted :
      (e : FilesystemEnforcer) → IsAccounted (queue_after w.config e) (perform_scan w e)
  unfolding perform_scan
  perform_scan-IsAccounted e =
      scan_under-IsAccounted w.config (begin_scan w e)
        (record { facts = (refl, omega arith, tt, refl) })
