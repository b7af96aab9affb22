-- ===== src/Filesystem/Sending/Paths.antt =====
-- What the monitors of the paths in src/filesystem/filesystem_enforcer.cpp send and leave queued.
use silicon.Prelude.{
  ℕ, suc, Bool, Option, none, some, List, [], ◌∷◌, arith, length, Bool-cases, if_cases, is_empty,
  if_cases, inl, inr, ◌||◌,
}
use silicon.Text.{Str}
use silicon.Config.State.{Settings}
use silicon.Filesystem.Types.{FileSystem, Scan, Snapshot}
use silicon.Filesystem.Helpers.{is_permission_error}
use silicon.Filesystem.Policy.{load_monitored_paths}
use silicon.Filesystem.Events.{
  report_change, handle_events, note_matched, monitor_with, monitor_paths_from_events,
}
use silicon.Filesystem.Polling.{
  scan_root, scan_roots, report_events, handle_snapshot, monitor_paths_polling, PathEvent, diff,
  apply_diff,
}
use silicon.Filesystem.Sending.{
  IsAccounted, emit-IsAccounted, add_line-IsAccounted, count_change-HasSpare, log_change-HasSpare,
  note_suppressed-IsAccounted,
}

module _ {q : List Str × Bool × Bool} where
  module _ (fs : FileSystem) (config : Option Settings) where
    report_change-IsAccounted :
        (action path : Str) (logged : ℕ) (s : Scan)
        → IsAccounted q s
        → IsAccounted q (report_change fs config action path logged s)
    unfolding report_change
    report_change-IsAccounted action path logged s h =
        emit-IsAccounted fs config _ _
          (log_change-HasSpare action path logged _ (count_change-HasSpare s h))

    handle_events-IsAccounted :
        (ignores roots paths unique : List Str) (logged matched : ℕ) (s : Scan)
        → IsAccounted q s
        → IsAccounted q (handle_events fs config ignores roots paths unique logged matched s).1
    unfolding handle_events
    handle_events-IsAccounted ignores roots [] unique logged matched s h = h
    handle_events-IsAccounted ignores roots (path ∷ paths) unique logged matched s h =
        handle_events-IsAccounted ignores roots paths _ _ _ _
          (if_cases (IsAccounted q) _ (report_change-IsAccounted _ path logged s h) h)

    note_matched-IsAccounted :
        (r : ℕ × Scan) → IsAccounted q r.1 → IsAccounted q (note_matched fs config r)
    unfolding note_matched
    note_matched-IsAccounted (n, s) h = note_suppressed-IsAccounted n s h

    monitor_with-IsAccounted :
        (settings : Settings) (paths : List Str) (s : Scan)
        → IsAccounted q s
        → IsAccounted q (monitor_with fs config settings paths s)
    unfolding monitor_with
    monitor_with-IsAccounted settings paths s h =
        if_cases (IsAccounted q) (is_empty (load_monitored_paths (some settings)) || is_empty paths)
          h (note_matched-IsAccounted _ (handle_events-IsAccounted _ _ paths [] 0 0 s h))

    scan_root-IsAccounted :
        (root : Str) (acc : Snapshot × Scan)
        → IsAccounted q acc.1
        → IsAccounted q (scan_root fs config root acc).1
    unfolding scan_root
    scan_root-IsAccounted root (current, s) h = elim (Bool-cases (fs.snapshot_tree root).ok) [
      | inl e ↦ rw e (record { facts = h.facts })
      | inr e ↦ rw e (elim (Bool-cases (is_permission_error (fs.snapshot_tree root).error_code)) [
        | inl k ↦ rw k (add_line-IsAccounted _ _ (record { facts = h.facts }))
        | inr k ↦ rw k (add_line-IsAccounted _ _ (record { facts = h.facts }))
      ])
    ]

    scan_roots-IsAccounted :
        (stop : ℕ → Bool) (n : ℕ) (roots : List Str) (acc : Snapshot × Scan)
        → IsAccounted q acc.1
        → IsAccounted q (scan_roots fs config stop n roots acc).1
    unfolding scan_roots
    scan_roots-IsAccounted stop n [] acc h = h
    scan_roots-IsAccounted stop n (root ∷ roots) acc h = elim (Bool-cases (stop n)) [
      | inl e ↦ rw e h
      | inr e ↦
          rw e (scan_roots-IsAccounted stop (suc n) roots _ (scan_root-IsAccounted root acc h))
    ]

    report_events-IsAccounted :
        (events : List PathEvent) (logged : ℕ) (s : Scan)
        → IsAccounted q s
        → IsAccounted q (report_events fs config events logged s)
    unfolding report_events
    report_events-IsAccounted [] logged s h = h
    report_events-IsAccounted (event ∷ events) logged s h =
        report_events-IsAccounted events _ _ (report_change-IsAccounted _ event.path logged s h)

    apply_diff-IsAccounted :
        (current : Snapshot) (s : Scan)
        → IsAccounted q s
        → IsAccounted q (apply_diff fs config current s)
    unfolding apply_diff
    apply_diff-IsAccounted current s h = record {
      facts =
          (note_suppressed-IsAccounted (length (diff s.known_path_snapshot current)) _
            (report_events-IsAccounted (diff s.known_path_snapshot current) 0 s h)).facts;
    }

    handle_snapshot-IsAccounted :
        (acc : Snapshot × Scan)
        → IsAccounted q acc.1
        → IsAccounted q (handle_snapshot fs config acc)
    unfolding handle_snapshot
    handle_snapshot-IsAccounted (current, s) h =
        ground (arith, h.facts, (apply_diff-IsAccounted current s h).facts)

    pub polling-IsAccounted :
        (stop : ℕ → Bool) (s : Scan)
        → IsAccounted q s
        → IsAccounted q (monitor_paths_polling fs config stop s)
    unfolding monitor_paths_polling
    polling-IsAccounted stop s h =
        handle_snapshot-IsAccounted _
          (scan_roots-IsAccounted stop 0 (load_monitored_paths config) ([], s) h)

  pub events-IsAccounted :
      (fs : FileSystem) (config : Option Settings) (paths : List Str) (s : Scan)
      → IsAccounted q s
      → IsAccounted q (monitor_paths_from_events fs config paths s)
  unfolding monitor_paths_from_events
  events-IsAccounted fs none paths s h = h
  events-IsAccounted fs (some settings) paths s h =
      monitor_with-IsAccounted fs (some settings) settings paths s h
