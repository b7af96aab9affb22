-- ===== src/Filesystem/Polled.antt =====
-- How many changes monitor_paths_polling of src/filesystem/filesystem_enforcer.cpp counts and logs.
use silicon.Prelude.{
  ℕ, suc, ◌+◌, ◌-◌, ◌≤◌, ◌≡◌, refl, ap, ap₂, ◌∙◌, Bool, Option, List, [], ◌∷◌, arith, if◌then◌else◌,
  if_cases, length, ltb, Bool-cases, inl, inr,
}
use silicon.Text.{Str}
use silicon.Config.State.{Settings}
use silicon.Filesystem.Types.{FileSystem, Scan, Snapshot}
use silicon.Filesystem.Helpers.{is_permission_error}
use silicon.Filesystem.Policy.{load_monitored_paths}
use silicon.Filesystem.Events.{
  report_change, next_logged, note_suppressed, max_path_events_logged_per_scan,
}
use silicon.Filesystem.Lines.{change_lines, report_change-lines}
use silicon.Filesystem.Counting.{report_change-path_events}
use silicon.Filesystem.Quiet.{Essence, Quiet, line-Quiet}
use silicon.Filesystem.Polling.{
  PathEvent, action_text, insert_range, diff, scan_root, scan_roots, report_events, apply_diff,
  handle_snapshot, monitor_paths_polling,
}

pub note_suppressed-Quiet : (n : ℕ) (s : Scan) → Quiet s (note_suppressed n s)
unfolding note_suppressed
note_suppressed-Quiet n s =
    if_cases (Quiet s) (ltb max_path_events_logged_per_scan n) (line-Quiet _ s refl) refl

module _ (fs : FileSystem) where
  -- What the roots that are reached and can be read hold together.
  abbrev pub snapshot_roots : (ℕ → Bool) → ℕ → List Str → Snapshot → Snapshot
  snapshot_roots stop n [] current = current
  snapshot_roots stop n (root_path ∷ roots) current =
      let tree = fs.snapshot_tree root_path in
      let rest =
        snapshot_roots stop (suc n) roots
          (if tree.ok then insert_range current tree.snapshot else current) in
      if stop n then current else rest

  module _ (config : Option Settings) where
    scan_root_lem :
        (root_path : Str) (current : Snapshot) (s : Scan)
        → let tree = fs.snapshot_tree root_path in
          ((scan_root fs config root_path (current, s)).0
            ≡ (if tree.ok then insert_range current tree.snapshot else current))
          × Quiet s (scan_root fs config root_path (current, s)).1
    unfolding scan_root
    scan_root_lem root_path current s =
        let tree = fs.snapshot_tree root_path in
        (
          ground arith,
          if_cases (λ (r : Snapshot × Scan). Quiet s r.1) tree.ok refl
              (if_cases (λ (r : Snapshot × Scan). Quiet s r.1) (is_permission_error tree.error_code)
                (line-Quiet _ _ refl) (line-Quiet _ _ refl)),
        )

    pub scan_roots_lem :
        (stop : ℕ → Bool) (n : ℕ) (roots : List Str) (current : Snapshot) (s : Scan)
        → ((scan_roots fs config stop n roots (current, s)).0 ≡ snapshot_roots stop n roots current)
          × Quiet s (scan_roots fs config stop n roots (current, s)).1
    unfolding scan_roots
    scan_roots_lem stop n [] current s = (refl, refl)
    scan_roots_lem stop n (root_path ∷ roots) current s =
        let acc : Snapshot × Scan = scan_root fs config root_path (current, s) in
        let (a, q) = scan_root_lem root_path current s in
        let (b, r) = scan_roots_lem stop (suc n) roots acc.0 acc.1 in
        elim (Bool-cases (stop n)) [
          | inl e ↦ rw e (refl, refl)
          | inr e ↦ rw e (b ∙ ap (snapshot_roots stop (suc n) roots) a, r ∙ q)
        ]

    report_events-path_events :
        (events : List PathEvent) (logged : ℕ) (s : Scan)
        → (report_events fs config events logged s).stats.path_events_detected
          ≡ s.stats.path_events_detected + length events
    unfolding report_events
    report_events-path_events [] logged s = omega arith
    report_events-path_events (event ∷ events) logged s =
        let action = action_text event.action in
        omega (
          arith,
          report_events-path_events events (next_logged logged)
              (report_change fs config action event.path logged s),
          report_change-path_events fs config action event.path logged s,
        )

    report_events-lines :
        (events : List PathEvent) (logged : ℕ) (s : Scan)
        → logged ≤ max_path_events_logged_per_scan
        → change_lines (report_events fs config events logged s).log
          ≤ change_lines s.log + (max_path_events_logged_per_scan - logged)
    unfolding report_events
    report_events-lines [] logged s l = omega arith
    report_events-lines (event ∷ events) logged s l =
        let action = action_text event.action in
        ground (
          arith,
          report_events-lines events (next_logged logged)
              (report_change fs config action event.path logged s) (ground (arith, l)),
          report_change-lines fs config action event.path logged s,
          l,
        )

    apply_diff_lem :
        (current : Snapshot) (s : Scan)
        → ((apply_diff fs config current s).stats.path_events_detected
            ≡ s.stats.path_events_detected + length (diff s.known_path_snapshot current))
          × (change_lines (apply_diff fs config current s).log
              ≤ change_lines s.log + max_path_events_logged_per_scan)
    unfolding apply_diff
    apply_diff_lem current s =
        let events = diff s.known_path_snapshot current in
        let reported = report_events fs config events 0 s in
        let q : Quiet reported (note_suppressed (length events) reported) =
          note_suppressed-Quiet (length events) reported in
        (
          omega
              (arith, ap (λ (e : Essence). e.path_events) q, report_events-path_events events 0 s),
          omega (
            arith,
            ap (λ (e : Essence). e.change_lines) q,
            report_events-lines events 0 s (omega arith),
          ),
        )

    handle_snapshot_lem :
        (acc : Snapshot × Scan)
        → ((handle_snapshot fs config acc).stats.path_events_detected
            ≡ acc.1.stats.path_events_detected
              + (if acc.1.known_path_snapshot_initialized
                  then length (diff acc.1.known_path_snapshot acc.0)
                  else 0))
          × (change_lines (handle_snapshot fs config acc).log
              ≤ change_lines acc.1.log + max_path_events_logged_per_scan)
    unfolding handle_snapshot
    handle_snapshot_lem (current, s) =
        let (a, b) = apply_diff_lem current s in (ground (arith, a), ground (arith, b))

    -- The changes between the snapshot before and that of the roots are counted, each once, and at
    -- most 32 are logged; a first scan counts none.
    pub monitor_paths_polling_lem :
        (stop : ℕ → Bool) (s : Scan)
        → ((monitor_paths_polling fs config stop s).stats.path_events_detected
            ≡ s.stats.path_events_detected
              + (if s.known_path_snapshot_initialized
                  then length (
                      diff s.known_path_snapshot
                        (snapshot_roots stop 0 (load_monitored_paths config) []))
                  else 0))
          × (change_lines (monitor_paths_polling fs config stop s).log
              ≤ change_lines s.log + max_path_events_logged_per_scan)
    unfolding monitor_paths_polling
    monitor_paths_polling_lem stop s =
        let roots = load_monitored_paths config in
        let acc : Snapshot × Scan = scan_roots fs config stop 0 roots ([], s) in
        let (a, q) = scan_roots_lem stop 0 roots [] s in
        let (b, c) = handle_snapshot_lem acc in
        (
          b
              ∙ ap₂
                  (λ (e : Essence) (current : Snapshot).
                    e.path_events + (if e.initialized then length (diff e.snapshot current) else 0))
                  q a,
          omega (arith, c, ap (λ (e : Essence). e.change_lines) q),
        )
