-- ===== src/Filesystem/Sending.antt =====
-- What a scan of src/filesystem/filesystem_enforcer.cpp sends, against what it counts.
pub mod Paths
pub mod Cycle
use silicon.Prelude.{
  ℕ, suc, ◌+◌, ◌-◌, ◌≤◌, ◌≡◌, refl, Bool, true, false, Option, none, some, List, [], ◌∷◌, ◌++◌, All,
  All-append, arith, length, length-append, ltb, Bool-cases, if_cases, ltb, is_empty, if_cases, inl,
  inr, ◌||◌, ◌∙◌,
}
use silicon.Text.{Str}
use silicon.Config.State.{Settings}
use silicon.Config.Queries.{is_debug_mode, should_clear_clipboard}
use silicon.Filesystem.Types.{
  Time, FileSystem, FilesystemEnforcer, Scan, Listing, Line, Snapshot, mount_allowed, path_change,
  suppressed,
}
use silicon.Filesystem.Helpers.{sanitize_for_log, is_permission_error}
use silicon.Filesystem.Printable.{IsPrintable, sanitize_for_log-IsPrintable}
use silicon.Filesystem.Policy.{load_monitored_paths, resolve_notification_rate_limit}
use silicon.Filesystem.Notify.{deliver, emit_notification_if_allowed, should_emit_notification}
use silicon.Filesystem.Volumes.{
  report_volume, check_mount, check_mounts, handle_listing, monitor_volumes, add_line,
  collect_mounts,
}
use silicon.Filesystem.Events.{
  max_path_events_logged_per_scan, log_change, count_change, report_change, handle_events,
  note_matched, note_suppressed, monitor_with, monitor_paths_from_events,
  max_path_events_logged_per_scan,
}
use silicon.Filesystem.Polling.{
  scan_root, scan_roots, report_events, handle_snapshot, monitor_paths_polling, PathEvent, diff,
  apply_diff,
}
use silicon.Filesystem.Clipboard.{after_clear, clear_now, run_clipboard_hook}
use silicon.Filesystem.Scan.{
  Surroundings, begin_scan, perform_scan, scan_under, scan_drained, scan_with_events,
  scan_with_polling, publish_scan_stats, should_scan_volumes,
}

-- The event queue: the paths, and whether there is a volume event and whether there are any.
abbrev pub queue : FilesystemEnforcer → List Str × Bool × Bool
queue e = (e.pending_event_paths, e.volumes_event_pending, e.has_pending_events)

-- The counter of notifications is the number sent, none is without its detection, each is printable,
-- and the queue is the given one.
abbrev pub Account : List Str × Bool × Bool → Scan → Type 0
Account q s =
    (s.stats.notifications_emitted ≡ length s.sent)
    × (length s.sent ≤ s.stats.new_mounts_detected + s.stats.path_events_detected)
    × All IsPrintable s.sent
    × (queue s.enforcer ≡ q)

pub record IsAccounted (q : List Str × Bool × Bool) (s : Scan) : Type 0 where
  pub facts : Account q s

-- The same with one detection to spare, as between a detection and its notification.
abbrev pub Spare : List Str × Bool × Bool → Scan → Type 0
Spare q s =
    (s.stats.notifications_emitted ≡ length s.sent)
    × (suc (length s.sent) ≤ s.stats.new_mounts_detected + s.stats.path_events_detected)
    × All IsPrintable s.sent
    × (queue s.enforcer ≡ q)

pub record HasSpare (q : List Str × Bool × Bool) (s : Scan) : Type 0 where
  pub facts : Spare q s

verdict_queue :
    (e : FilesystemEnforcer) (now : Time) (interval : ℕ)
    → queue (should_emit_notification e now interval).0 ≡ queue e
unfolding should_emit_notification
verdict_queue e now interval = ground arith

module _ {q : List Str × Bool × Bool} where
  spend : {s : Scan} → HasSpare q s → IsAccounted q s
  spend h = record { facts = (h.facts.0, omega arith, h.facts.2, h.facts.3) }

  deliver-IsAccounted :
      (message : Str) (s : Scan) (r : FilesystemEnforcer × Bool)
      → queue r.0 ≡ queue s.enforcer
      → HasSpare q s
      → IsAccounted q (deliver message s r)
  unfolding deliver
  deliver-IsAccounted message s (e, false) k h =
      let (a, b, c, d) = (spend h).facts in record { facts = (a, b, c, k ∙ d) }
  deliver-IsAccounted message s (e, true) k h = record {
    facts = (
      omega (arith, length-append {0} s.sent (sanitize_for_log message ∷ []), h.facts.0),
      omega (arith, length-append {0} s.sent (sanitize_for_log message ∷ []), h.facts.1),
      All-append IsPrintable s.sent _ h.facts.2 (sanitize_for_log-IsPrintable message, tt),
      k ∙ h.facts.3,
    );
  }

  module _ (fs : FileSystem) where
    pub emit-IsAccounted :
        (config : Option Settings) (message : Str) (s : Scan)
        → HasSpare q s
        → IsAccounted q (emit_notification_if_allowed fs config message s)
    unfolding emit_notification_if_allowed
    emit-IsAccounted none message s h = spend h
    emit-IsAccounted (some c) message s h =
        let verdict : FilesystemEnforcer × Bool =
          should_emit_notification s.enforcer (fs.now s.clock_calls)
            (resolve_notification_rate_limit (some c)) in
        ground (arith, spend h, deliver-IsAccounted message s verdict (verdict_queue _ _ _) h)

  pub add_line-IsAccounted :
      (line : Line) (s : Scan) → IsAccounted q s → IsAccounted q (add_line line s)
  unfolding add_line
  add_line-IsAccounted line s h = record { facts = h.facts }

  add_line-HasSpare : (line : Line) (s : Scan) → HasSpare q s → HasSpare q (add_line line s)
  unfolding add_line
  add_line-HasSpare line s h = record { facts = h.facts }

  pub count_change-HasSpare : (s : Scan) → IsAccounted q s → HasSpare q (count_change s)
  unfolding count_change
  count_change-HasSpare s h = record { facts = (h.facts.0, omega arith, h.facts.2, h.facts.3) }

  pub log_change-HasSpare :
      (action path : Str) (logged : ℕ) (s : Scan)
      → HasSpare q s
      → HasSpare q (log_change action path logged s)
  unfolding log_change
  log_change-HasSpare action path logged s h = ground (
    arith,
    h.facts,
    (add_line-HasSpare (path_change (sanitize_for_log action) (sanitize_for_log path)) s h).facts,
  )

  pub note_suppressed-IsAccounted :
      (n : ℕ) (s : Scan) → IsAccounted q s → IsAccounted q (note_suppressed n s)
  unfolding note_suppressed
  note_suppressed-IsAccounted n s h = ground (
    arith,
    h.facts,
    (add_line-IsAccounted (suppressed (n - max_path_events_logged_per_scan)) s h).facts,
  )

  module _ (fs : FileSystem) (config : Option Settings) where
    report_volume-IsAccounted :
        (mount : Str) (s : Scan) → IsAccounted q s → IsAccounted q (report_volume fs config mount s)
    unfolding report_volume
    report_volume-IsAccounted mount s h =
        emit-IsAccounted fs config _ _ (
          add_line-HasSpare _ _ (record { facts = (h.facts.0, omega arith, h.facts.2, h.facts.3) }))

    check_mount-IsAccounted :
        (known : List Str) (mount : Str) (s : Scan)
        → IsAccounted q s
        → IsAccounted q (check_mount fs config known mount s)
    unfolding check_mount
    check_mount-IsAccounted known mount s h = ground (
      arith,
      h.facts,
      (report_volume-IsAccounted mount s h).facts,
      (add_line-IsAccounted (mount_allowed (sanitize_for_log mount)) s h).facts,
    )

    check_mounts-IsAccounted :
        (known mounts : List Str) (s : Scan)
        → IsAccounted q s
        → IsAccounted q (check_mounts fs config known mounts s)
    unfolding check_mounts
    check_mounts-IsAccounted known [] s h = h
    check_mounts-IsAccounted known (mount ∷ mounts) s h =
        check_mounts-IsAccounted known mounts _ (check_mount-IsAccounted known mount s h)

    handle_listing-IsAccounted :
        (l : Listing) (s : Scan) → IsAccounted q s → IsAccounted q (handle_listing fs config l s)
    unfolding handle_listing
    handle_listing-IsAccounted l s h = elim (Bool-cases l.listed) [
      | inr e ↦ rw e (add_line-IsAccounted _ _ (record { facts = h.facts }))
      | inl e ↦ rw e (elim (Bool-cases s.known_mounts_initialized) [
        | inr k ↦ rw k (record { facts = h.facts })
        | inl k ↦ rw k (record {
          facts =
              (check_mounts-IsAccounted s.known_mounts (collect_mounts [] l.directories) _
                (record { facts = h.facts })).facts;
        })
      ])
    ]

    pub monitor_volumes-IsAccounted :
        (s : Scan) → IsAccounted q s → IsAccounted q (monitor_volumes fs config s)
    unfolding monitor_volumes
    monitor_volumes-IsAccounted s h = handle_listing-IsAccounted _ s h
