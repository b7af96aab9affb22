-- ===== src/Filesystem/Quiet.antt =====
-- The parts of perform_scan in src/filesystem/filesystem_enforcer.cpp that count and log no change of
-- a path: the volumes and the clipboard.
use silicon.Prelude.{
  ℕ, ◌+◌, ◌≡◌, refl, ap, ◌∙◌, Bool, true, false, not, Option, none, some, List, [], ◌∷◌, arith,
  if_cases, length, ltb,
}
use silicon.Text.{Str, mem}
use silicon.Config.State.{Settings}
use silicon.Config.Queries.{should_clear_clipboard, is_debug_mode}
use silicon.Filesystem.Types.{Time, FileSystem, Listing, Scan, Snapshot, Line}
use silicon.Filesystem.Policy.{is_mount_allowed}
use silicon.Filesystem.Frame.{SameBut, emit-SameBut}
use silicon.Filesystem.Lines.{is_change, change_lines, change_lines-append}
use silicon.Filesystem.Volumes.{
  collect_mounts, check_mount, check_mounts, report_volume, handle_listing, monitor_volumes,
  add_line, volume_message,
}
use silicon.Filesystem.Clipboard.{after_clear, clear_now, set_deadline, run_clipboard_hook}

-- What such a part leaves as it is.
pub record Essence : Type 0 where
  pub root : Str
  pub backend : Bool
  pub snapshot : Snapshot
  pub initialized : Bool
  pub path_events : ℕ
  pub change_lines : ℕ

abbrev pub essence : Scan → Essence
essence s = record {
  root = s.volumes_root;
  backend = s.event_backend;
  snapshot = s.known_path_snapshot;
  initialized = s.known_path_snapshot_initialized;
  path_events = s.stats.path_events_detected;
  change_lines = change_lines s.log;
}

abbrev pub Quiet : Scan → Scan → Type 0
Quiet s t = essence t ≡ essence s

emit-Quiet : (s t : Scan) → SameBut s t → Quiet s t
emit-Quiet s t b =
    ground
      (arith, b.root, b.backend, b.snapshot, b.initialized, b.path_events, ap change_lines b.lines)

-- A line that is none of a path change.
pub line-Quiet : (line : Line) (s : Scan) → is_change line ≡ 0 → Quiet s (add_line line s)
unfolding add_line
line-Quiet line s h = ground (arith, change_lines-append s.log line, h)

module _ (fs : FileSystem) (config : Option Settings) where
  report_volume-Quiet : (mount : Str) (s : Scan) → Quiet s (report_volume fs config mount s)
  unfolding report_volume
  report_volume-Quiet mount s =
      emit-Quiet _ _ (emit-SameBut fs config (volume_message mount) _) ∙ line-Quiet _ _ refl

  check_mount-Quiet :
      (known : List Str) (mount : Str) (s : Scan) → Quiet s (check_mount fs config known mount s)
  unfolding check_mount
  check_mount-Quiet known mount s = if_cases (Quiet s) (mem mount known) refl (
      if_cases (Quiet s) (is_mount_allowed config mount) (line-Quiet _ s refl)
        (report_volume-Quiet mount s))

  check_mounts-Quiet :
      (known mounts : List Str) (s : Scan) → Quiet s (check_mounts fs config known mounts s)
  unfolding check_mounts
  check_mounts-Quiet known [] s = refl
  check_mounts-Quiet known (mount ∷ mounts) s =
      check_mounts-Quiet known mounts (check_mount fs config known mount s)
      ∙ check_mount-Quiet known mount s

  handle_listing-Quiet : (l : Listing) (s : Scan) → Quiet s (handle_listing fs config l s)
  unfolding handle_listing
  handle_listing-Quiet l s =
      let denied = record (s.stats) {
        permission_errors = s.stats.permission_errors + l.permission_errors;
      } in
      let current = collect_mounts [] l.directories in
      let seen = record s { stats = record denied { mounts_seen = length current } } in
      if_cases (Quiet s) (not l.listed) (line-Quiet _ _ refl) (
        if_cases (Quiet s) (not s.known_mounts_initialized) refl
          (check_mounts-Quiet s.known_mounts current seen))

  pub monitor_volumes-Quiet : (s : Scan) → Quiet s (monitor_volumes fs config s)
  unfolding monitor_volumes
  monitor_volumes-Quiet s = handle_listing-Quiet (fs.list_directories s.volumes_root) s

after_clear-Quiet : (result : Bool × Str) (s : Scan) → Quiet s (after_clear result s)
unfolding after_clear
after_clear-Quiet (true, message) s = line-Quiet _ s refl
after_clear-Quiet (false, message) s =
    if_cases (Quiet s) s.clipboard_disable_logged refl (line-Quiet _ _ refl)

clear_now-Quiet : (c : Settings) (result : Bool × Str) (s : Scan) → Quiet s (clear_now c result s)
unfolding clear_now
clear_now-Quiet c result s =
    if_cases (Quiet s) s.clipboard_hook_disabled refl
      (if_cases (Quiet s) (is_debug_mode c) (line-Quiet _ s refl) (after_clear-Quiet result _))

pub run_clipboard_hook-Quiet :
    (config : Option Settings) (result : Bool × Str) (now : Time) (s : Scan)
    → Quiet s (run_clipboard_hook config result now s)
unfolding run_clipboard_hook
run_clipboard_hook-Quiet none result now s = refl
run_clipboard_hook-Quiet (some c) result now s =
    if_cases (Quiet s) (not (should_clear_clipboard c)) refl (
      if_cases (Quiet s) (not s.has_next_clipboard_deadline) refl (
        if_cases (Quiet s) (ltb now s.next_clipboard_deadline) refl
          (clear_now-Quiet c result (set_deadline (some c) now s))))
