-- ===== src/Filesystem/Settled.antt =====
-- The parts of perform_scan in src/filesystem/filesystem_enforcer.cpp that leave the known volumes and
-- the event stream alone: the paths and the clipboard.
use silicon.Prelude.{
  ℕ, ◌+◌, ◌≡◌, refl, ◌∙◌, Bool, true, false, not, ◌&&◌, ◌||◌, Option, none, some, List, [], ◌∷◌,
  arith, if◌then◌else◌, if_cases, is_empty, length, ltb, suc,
}
use silicon.Text.{Str, codes, mem, set_insert}
use silicon.Config.State.{Settings}
use silicon.Config.Queries.{get_system_paths_to_ignore, should_clear_clipboard, is_debug_mode}
use silicon.Filesystem.Types.{Time, FileSystem, Scan, Snapshot}
use silicon.Filesystem.Helpers.{is_permission_error}
use silicon.Filesystem.Policy.{load_monitored_paths}
use silicon.Filesystem.Frame.{SameBut, emit-SameBut}
use silicon.Filesystem.Volumes.{add_line}
use silicon.Filesystem.Events.{
  is_relevant, report_change, log_change, count_change, activity_message, next_logged, note_matched,
  handle_events, monitor_with, monitor_paths_from_events, note_suppressed,
  max_path_events_logged_per_scan,
}
use silicon.Filesystem.Polling.{
  PathEvent, action_text, diff, scan_root, scan_roots, report_events, apply_diff, handle_snapshot,
  monitor_paths_polling,
}
use silicon.Filesystem.Clipboard.{after_clear, clear_now, set_deadline, run_clipboard_hook}

-- What such a part leaves as it is.
pub record Kept : Type 0 where
  pub backend : Bool
  pub mounts : List Str
  pub ready : Bool
  pub new_mounts : ℕ

abbrev pub kept : Scan → Kept
kept s = record {
  backend = s.event_backend;
  mounts = s.known_mounts;
  ready = s.known_mounts_initialized;
  new_mounts = s.stats.new_mounts_detected;
}

abbrev pub Settled : Scan → Scan → Type 0
Settled s t = kept t ≡ kept s

emit-Settled : (s t : Scan) → SameBut s t → Settled s t
emit-Settled s t b = ground (arith, b.backend, b.mounts, b.ready, b.new_mounts)

note_suppressed-Settled : (n : ℕ) (s : Scan) → Settled s (note_suppressed n s)
unfolding note_suppressed add_line
note_suppressed-Settled n s = if_cases (Settled s) (ltb max_path_events_logged_per_scan n) refl refl

module _ (fs : FileSystem) (config : Option Settings) where
  report_change-Settled :
      (action path : Str) (logged : ℕ) (s : Scan)
      → Settled s (report_change fs config action path logged s)
  unfolding report_change log_change count_change add_line
  report_change-Settled action path logged s =
      emit-Settled (log_change action path logged (count_change s)) _ (
        emit-SameBut fs config (activity_message path)
          (log_change action path logged (count_change s)))
      ∙ if_cases (Settled s) (ltb logged max_path_events_logged_per_scan) refl refl

  handle_events-Settled :
      (ignores roots paths unique : List Str) (logged matched : ℕ) (s : Scan)
      → Settled s (handle_events fs config ignores roots paths unique logged matched s).1
  unfolding handle_events
  handle_events-Settled ignores roots [] unique logged matched s = refl
  handle_events-Settled ignores roots (x ∷ paths) unique logged matched s =
      let hit : Bool =
        not (is_empty x || mem x unique) && is_relevant s.volumes_root ignores roots x in
      let t : Scan = if hit then report_change fs config (codes "fsevent") x logged s else s in
      handle_events-Settled ignores roots paths (if is_empty x then unique else set_insert x unique)
        (if hit then next_logged logged else logged) (if hit then matched + 1 else matched) t
      ∙ if_cases (Settled s) hit (report_change-Settled (codes "fsevent") x logged s) refl

  note_matched-Settled : (r : ℕ × Scan) → Settled r.1 (note_matched fs config r)
  unfolding note_matched
  note_matched-Settled (n, s) = note_suppressed-Settled n s

  monitor_with-Settled :
      (settings : Settings) (paths : List Str) (s : Scan)
      → Settled s (monitor_with fs config settings paths s)
  unfolding monitor_with
  monitor_with-Settled settings paths s =
      let ignores = get_system_paths_to_ignore settings in
      let roots = load_monitored_paths (some settings) in
      let r = handle_events fs config ignores roots paths [] 0 0 s in
      if_cases (Settled s) (is_empty roots || is_empty paths) refl
        (note_matched-Settled r ∙ handle_events-Settled ignores roots paths [] 0 0 s)

  report_events-Settled :
      (events : List PathEvent) (logged : ℕ) (s : Scan)
      → Settled s (report_events fs config events logged s)
  unfolding report_events
  report_events-Settled [] logged s = refl
  report_events-Settled (event ∷ events) logged s =
      let action = action_text event.action in
      report_events-Settled events (next_logged logged)
        (report_change fs config action event.path logged s)
      ∙ report_change-Settled action event.path logged s

  handle_snapshot-Settled : (acc : Snapshot × Scan) → Settled acc.1 (handle_snapshot fs config acc)
  unfolding handle_snapshot apply_diff
  handle_snapshot-Settled (current, s) =
      let events = diff s.known_path_snapshot current in
      let reported = report_events fs config events 0 s in
      if_cases (Settled s) (not s.known_path_snapshot_initialized) refl
        (note_suppressed-Settled (length events) reported ∙ report_events-Settled events 0 s)

  scan_root-Settled :
      (root_path : Str) (acc : Snapshot × Scan)
      → Settled acc.1 (scan_root fs config root_path acc).1
  unfolding scan_root add_line
  scan_root-Settled root_path (current, s) =
      let tree = fs.snapshot_tree root_path in
      let here : Snapshot × Scan → Type 0 = λ r. Settled s r.1 in
      if_cases here tree.ok refl (if_cases here (is_permission_error tree.error_code) refl refl)

  scan_roots-Settled :
      (stop : ℕ → Bool) (n : ℕ) (roots : List Str) (acc : Snapshot × Scan)
      → Settled acc.1 (scan_roots fs config stop n roots acc).1
  unfolding scan_roots
  scan_roots-Settled stop n [] acc = refl
  scan_roots-Settled stop n (root_path ∷ roots) acc =
      if_cases (λ (r : Snapshot × Scan). Settled acc.1 r.1) (stop n) refl
        (scan_roots-Settled stop (suc n) roots (scan_root fs config root_path acc)
          ∙ scan_root-Settled root_path acc)

  pub monitor_paths_polling-Settled :
      (stop : ℕ → Bool) (s : Scan) → Settled s (monitor_paths_polling fs config stop s)
  unfolding monitor_paths_polling
  monitor_paths_polling-Settled stop s =
      let roots = load_monitored_paths config in
      handle_snapshot-Settled (scan_roots fs config stop 0 roots ([], s))
      ∙ scan_roots-Settled stop 0 roots ([], s)

pub monitor_paths_from_events-Settled :
    (fs : FileSystem) (config : Option Settings) (paths : List Str) (s : Scan)
    → Settled s (monitor_paths_from_events fs config paths s)
unfolding monitor_paths_from_events
monitor_paths_from_events-Settled fs none paths s = refl
monitor_paths_from_events-Settled fs (some settings) paths s =
    monitor_with-Settled fs (some settings) settings paths s

after_clear-Settled : (result : Bool × Str) (s : Scan) → Settled s (after_clear result s)
unfolding after_clear add_line
after_clear-Settled (true, message) s = refl
after_clear-Settled (false, message) s = if_cases (Settled s) s.clipboard_disable_logged refl refl

clear_now-Settled :
    (c : Settings) (result : Bool × Str) (s : Scan) → Settled s (clear_now c result s)
unfolding clear_now add_line
clear_now-Settled c result s =
    if_cases (Settled s) s.clipboard_hook_disabled refl
      (if_cases (Settled s) (is_debug_mode c) refl (after_clear-Settled result _))

pub run_clipboard_hook-Settled :
    (config : Option Settings) (result : Bool × Str) (now : Time) (s : Scan)
    → Settled s (run_clipboard_hook config result now s)
unfolding run_clipboard_hook
run_clipboard_hook-Settled none result now s = refl
run_clipboard_hook-Settled (some c) result now s =
    if_cases (Settled s) (not (should_clear_clipboard c)) refl (
      if_cases (Settled s) (not s.has_next_clipboard_deadline) refl (
        if_cases (Settled s) (ltb now s.next_clipboard_deadline) refl
          (clear_now-Settled c result (set_deadline (some c) now s))))
