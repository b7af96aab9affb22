-- ===== src/Filesystem/Lines.antt =====
-- How many path changes monitor_paths_from_events of src/filesystem/filesystem_enforcer.cpp logs.
use silicon.Prelude.{
  ℕ, ◌+◌, ◌-◌, ◌≤◌, ◌≡◌, ap, ◌∙◌, Bool, true, false, not, ◌&&◌, ◌||◌, Option, none, some, List, [],
  ◌∷◌, ◌++◌, if◌then◌else◌, ltb, is_empty, arith,
}
use silicon.Text.{Str, codes, mem, set_insert}
use silicon.Config.State.{Settings}
use silicon.Config.Queries.{get_system_paths_to_ignore}
use silicon.Filesystem.Types.{FileSystem, Scan, Line, path_change, suppressed}
use silicon.Filesystem.Helpers.{sanitize_for_log}
use silicon.Filesystem.Policy.{load_monitored_paths}
use silicon.Filesystem.Frame.{emit-SameBut}
use silicon.Filesystem.Volumes.{add_line}
use silicon.Filesystem.Events.{
  is_relevant, report_change, log_change, count_change, activity_message, next_logged,
  handle_events, note_matched, note_suppressed, monitor_with, monitor_paths_from_events,
  max_path_events_logged_per_scan,
}

-- The lines that tell of a path change.
abbrev pub is_change : Line → ℕ
is_change (path_change action path) = 1
is_change _ = 0

abbrev pub change_lines : List Line → ℕ
change_lines [] = 0
change_lines (line ∷ log) = is_change line + change_lines log

pub change_lines-append :
    (log : List Line) (line : Line)
    → change_lines (log ++ line ∷ []) ≡ change_lines log + is_change line
change_lines-append [] line = omega arith
change_lines-append (first ∷ log) line = omega (arith, change_lines-append log line)

log_change-lines :
    (action path : Str) (logged : ℕ) (s : Scan)
    → change_lines (log_change action path logged s).log
      ≡ change_lines s.log + (if ltb logged max_path_events_logged_per_scan then 1 else 0)
unfolding log_change add_line
log_change-lines action path logged s = ground (
  arith,
  change_lines-append s.log (path_change (sanitize_for_log action) (sanitize_for_log path)),
)

note_suppressed-lines :
    (n : ℕ) (s : Scan) → change_lines (note_suppressed n s).log ≡ change_lines s.log
unfolding note_suppressed add_line
note_suppressed-lines n s =
    ground (arith, change_lines-append s.log (suppressed (n - max_path_events_logged_per_scan)))

module _ (fs : FileSystem) (config : Option Settings) where
  pub report_change-lines :
      (action path : Str) (logged : ℕ) (s : Scan)
      → change_lines (report_change fs config action path logged s).log
        ≡ change_lines s.log + (if ltb logged max_path_events_logged_per_scan then 1 else 0)
  unfolding report_change count_change
  report_change-lines action path logged s =
      ap change_lines (emit-SameBut fs config (activity_message path) _).lines
      ∙ log_change-lines action path logged (count_change s)

  -- The scan and `logged_events` after an event.
  abbrev after : Bool → Str → ℕ → Scan → Scan
  after hit path logged s =
      if hit then report_change fs config (codes "fsevent") path logged s else s

  abbrev logged_after : Bool → ℕ → ℕ
  logged_after hit logged = if hit then next_logged logged else logged

  after-lines :
      (hit : Bool) (path : Str) (logged : ℕ) (s : Scan)
      → logged ≤ max_path_events_logged_per_scan
      → (logged_after hit logged ≤ max_path_events_logged_per_scan)
        × (change_lines (after hit path logged s).log
              + (max_path_events_logged_per_scan - logged_after hit logged)
            ≤ change_lines s.log + (max_path_events_logged_per_scan - logged))
  after-lines false path logged s l = (l, omega arith)
  after-lines true path logged s l =
      let r = report_change-lines (codes "fsevent") path logged s in
      (ground (arith, l), ground (arith, l, r))

  handle_events-lines :
      (ignores roots paths unique : List Str) (logged matched : ℕ) (s : Scan)
      → logged ≤ max_path_events_logged_per_scan
      → change_lines (handle_events fs config ignores roots paths unique logged matched s).1.log
        ≤ change_lines s.log + (max_path_events_logged_per_scan - logged)
  unfolding handle_events
  handle_events-lines ignores roots [] unique logged matched s l = omega arith
  handle_events-lines ignores roots (x ∷ paths) unique logged matched s l =
      let hit : Bool =
        not (is_empty x || mem x unique) && is_relevant s.volumes_root ignores roots x in
      let (l', step) = after-lines hit x logged s l in
      omega (
        arith,
        step,
        handle_events-lines ignores roots paths (if is_empty x then unique else set_insert x unique)
            (logged_after hit logged) (if hit then matched + 1 else matched) (after hit x logged s)
            l',
      )

  note_matched-lines :
      (r : ℕ × Scan) → change_lines (note_matched fs config r).log ≡ change_lines r.1.log
  unfolding note_matched
  note_matched-lines (matched, s) = note_suppressed-lines matched s

  monitor_with-lines :
      (settings : Settings) (paths : List Str) (s : Scan)
      → change_lines (monitor_with fs config settings paths s).log
        ≤ change_lines s.log + max_path_events_logged_per_scan
  unfolding monitor_with
  monitor_with-lines settings paths s =
      let ignores = get_system_paths_to_ignore settings in
      let roots = load_monitored_paths (some settings) in
      let r = handle_events fs config ignores roots paths [] 0 0 s in
      ground (
        arith,
        note_matched-lines r,
        handle_events-lines ignores roots paths [] 0 0 s (omega arith),
      )

-- However many events there are, monitor_paths_from_events logs at most 32 path changes.
pub monitor_paths_from_events-lines :
    (fs : FileSystem) (config : Option Settings) (paths : List Str) (s : Scan)
    → change_lines (monitor_paths_from_events fs config paths s).log ≤ change_lines s.log + 32
unfolding monitor_paths_from_events
monitor_paths_from_events-lines fs none paths s = omega arith
monitor_paths_from_events-lines fs (some settings) paths s =
    monitor_with-lines fs (some settings) settings paths s
