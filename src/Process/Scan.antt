-- ===== src/Process/Scan.antt =====
-- perform_scan of src/process/process_enforcer.cpp.
use silicon.Prelude.{
  ℕ, ◌+◌, Bool, true, false, not, ◌&&◌, Option, none, some, List, [], ◌∷◌, ◌++◌, ◌==◌,
  if◌then◌else◌, is_empty,
}
use silicon.Text.{Str, codes, char_at, digits}
use silicon.FsPath.{slash}
use silicon.Config.State.{Settings}
use silicon.Config.Queries.{get_system_paths_to_ignore, is_process_allowed}
use silicon.Filesystem.Helpers.{is_permission_error}
use silicon.Process.Helpers.{sanitize_for_log}
use silicon.Process.Types.{
  Kernel, ProcessSnapshot, new_stats, Line, scan_failed, inspection_denied, violation, notification,
  scan_completed, Scan, Surroundings,
}
use silicon.Process.Pids.{enumerate_all_pids}
use silicon.Process.Inspect.{
  read_process_snapshot, should_ignore_process, should_show_notifications,
}

unfoldable pub add_line : Line → Scan → Scan
add_line line s = record s { log = s.log ++ line ∷ [] }

unfoldable pub violation_message : Str → ℕ → Str
violation_message safe_path pid =
    codes "ProcessEnforcer: Blocked process detected: "
    ++ safe_path
    ++ codes " (PID: "
    ++ digits pid
    ++ codes ")"

-- An absolute path that no pattern of the policy ignores.
unfoldable pub is_checked : Settings → ProcessSnapshot → Bool
is_checked config snapshot =
    not (is_empty snapshot.executable_path)
    && char_at snapshot.executable_path 0 == slash
    && not (
        should_ignore_process snapshot.executable_path snapshot.executable_name
          (get_system_paths_to_ignore config))

-- The branch of a process that the policy forbids.
unfoldable pub report_violation : Settings → ProcessSnapshot → Scan → Scan
report_violation config snapshot s =
    let safe_path = sanitize_for_log snapshot.executable_path in
    let warned = add_line (violation safe_path snapshot.pid) (record s {
      stats = record (s.stats) { violations_detected = s.stats.violations_detected + 1 };
    }) in
    if should_show_notifications (some config)
    then add_line (notification (sanitize_for_log (violation_message safe_path snapshot.pid)))
        warned
    else warned

-- From the snapshot of a process on.
unfoldable pub check_snapshot : Settings → ProcessSnapshot → Scan → Scan
check_snapshot config snapshot s =
    let counted = record s {
      stats = record (s.stats) { total_processes_checked = s.stats.total_processes_checked + 1 };
    } in
    if not (is_checked config snapshot)
    then s
    else if is_process_allowed config snapshot.executable_path
    then counted
    else report_violation config snapshot counted

unfoldable pub note_denied : ℕ → Bool → Scan → Scan
note_denied pid false s = s
note_denied pid true s =
    add_line (inspection_denied pid)
      (record s { stats = record (s.stats) { permission_errors = s.stats.permission_errors + 1 } })

unfoldable pub check_process : Settings → ℕ → Option ProcessSnapshot × Bool → Scan → Scan
check_process config pid (none, permission_denied) s = note_denied pid permission_denied s
check_process config pid (some snapshot, permission_denied) s = check_snapshot config snapshot s

-- The IDs that the loop reaches: those before the first at which a stop is requested.
unfoldable pub reached : (ℕ → Bool) → ℕ → List ℕ → List ℕ
reached stop i [] = []
reached stop i (pid ∷ pids) =
    let rest = reached stop (i + 1) pids in if stop i then [] else pid ∷ rest

unfoldable pub check_processes : Kernel → Settings → List ℕ → Scan → Scan
check_processes kernel config [] s = s
check_processes kernel config (pid ∷ pids) s =
    check_processes kernel config pids
      (check_process config pid (read_process_snapshot kernel pid) s)

unfoldable pub complete : Scan → Scan
complete s = add_line (scan_completed s.stats) s

module _ (w : Surroundings) where
  open w use {config, now, kernel, stop}

  abbrev pub begin_scan : Scan
  begin_scan = record { stats = new_stats now; log = [] }

  -- From the enumeration on.
  unfoldable pub scan_pids : Settings → List ℕ × ℕ → Scan
  scan_pids settings (pids, enumerate_error) =
      if is_empty pids && not (enumerate_error == 0)
      then add_line (scan_failed enumerate_error) (
          if is_permission_error enumerate_error
          then record begin_scan { stats = record (new_stats now) { permission_errors = 1 } }
          else begin_scan)
      else complete (check_processes kernel settings (reached stop 0 pids) begin_scan)

  unfoldable pub scan_under : Option Settings → Scan
  scan_under none = begin_scan
  scan_under (some settings) = scan_pids settings (enumerate_all_pids kernel)

  -- The stats of the result are what publish_scan_stats stores in last_scan_stats_.
  unfoldable pub perform_scan : Scan
  perform_scan = scan_under config
