-- ===== src/Process/Offence.antt =====
-- What one process adds to the lines and counters of perform_scan in src/process/process_enforcer.cpp.
use silicon.Prelude.{
  append_nil, ℕ, ◌+◌, ◌≡◌, refl, sym, ap, ◌∙◌, Bool, true, false, not, ◌&&◌, Option, none, some,
  List, [], ◌∷◌, ◌++◌, if◌then◌else◌, arith, length,
}
use silicon.Text.{Str}
use silicon.Config.State.{Settings}
use silicon.Config.Queries.{is_process_allowed}
use silicon.Process.Helpers.{sanitize_for_log}
use silicon.Process.Types.{
  ProcessSnapshot, Line, scan_failed, inspection_denied, violation, notification, scan_completed,
  Scan,
}
use silicon.Process.Scan.{
  add_line, is_checked, report_violation, check_snapshot, note_denied, check_process,
  violation_message,
}

-- The violations among the lines of a log.
abbrev pub violations_of : List Line → List (Str × ℕ)
violations_of [] = []
violations_of (violation path pid ∷ log) = (path, pid) ∷ violations_of log
violations_of (scan_failed code ∷ log) = violations_of log
violations_of (inspection_denied pid ∷ log) = violations_of log
violations_of (notification message ∷ log) = violations_of log
violations_of (scan_completed stats ∷ log) = violations_of log

pub violations_of-append :
    (log log' : List Line) → violations_of (log ++ log') ≡ violations_of log ++ violations_of log'
violations_of-append [] log' = refl
violations_of-append (violation path pid ∷ log) log' =
    ap (λ vs. (path, pid) ∷ vs) (violations_of-append log log')
violations_of-append (scan_failed code ∷ log) log' = violations_of-append log log'
violations_of-append (inspection_denied pid ∷ log) log' = violations_of-append log log'
violations_of-append (notification message ∷ log) log' = violations_of-append log log'
violations_of-append (scan_completed stats ∷ log) log' = violations_of-append log log'

module _ (config : Settings) where
  -- What a process is to be reported with: a checked process that the policy does not allow.
  abbrev pub offence : Option ProcessSnapshot × Bool → List (Str × ℕ)
  offence (none, denied) = []
  offence (some snapshot, denied) =
      if is_checked config snapshot && not (is_process_allowed config snapshot.executable_path)
      then (sanitize_for_log snapshot.executable_path, snapshot.pid) ∷ []
      else []

  abbrev pub checks : Option ProcessSnapshot × Bool → ℕ
  checks (none, denied) = 0
  checks (some snapshot, denied) = if is_checked config snapshot then 1 else 0

  abbrev pub denials : Option ProcessSnapshot × Bool → ℕ
  denials (none, denied) = if denied then 1 else 0
  denials (some snapshot, denied) = 0

  report_violation-violations :
      (snapshot : ProcessSnapshot) (s : Scan)
      → violations_of (report_violation config snapshot s).log
        ≡ violations_of s.log ++ (sanitize_for_log snapshot.executable_path, snapshot.pid) ∷ []
  unfolding report_violation add_line
  report_violation-violations snapshot s =
      let path : Str = sanitize_for_log snapshot.executable_path in
      let message : Str = sanitize_for_log (violation_message path snapshot.pid) in
      let warned : List Line = s.log ++ violation path snapshot.pid ∷ [] in
      ground (
        arith,
        violations_of-append s.log (violation path snapshot.pid ∷ []),
        violations_of-append warned (notification message ∷ []),
        append_nil (violations_of warned),
      )

  report_violation-stats :
      (snapshot : ProcessSnapshot) (s : Scan)
      → (report_violation config snapshot s).stats
        ≡ record (s.stats) { violations_detected = s.stats.violations_detected + 1 }
  unfolding report_violation add_line
  report_violation-stats snapshot s = ground arith

  check_snapshot-violations :
      (snapshot : ProcessSnapshot) (denied : Bool) (s : Scan)
      → violations_of (check_snapshot config snapshot s).log
        ≡ violations_of s.log ++ offence (some snapshot, denied)
  unfolding check_snapshot
  check_snapshot-violations snapshot denied s =
      let counted : Scan = record s {
        stats = record (s.stats) { total_processes_checked = s.stats.total_processes_checked + 1 };
      } in
      ground (arith, report_violation-violations snapshot counted, append_nil (violations_of s.log))

  note_denied-violations :
      (pid : ℕ) (denied : Bool) (s : Scan)
      → violations_of (note_denied pid denied s).log ≡ violations_of s.log
  unfolding note_denied add_line
  note_denied-violations pid false s = refl
  note_denied-violations pid true s =
      violations_of-append s.log (inspection_denied pid ∷ []) ∙ append_nil (violations_of s.log)

  pub check_process-violations :
      (pid : ℕ) (r : Option ProcessSnapshot × Bool) (s : Scan)
      → violations_of (check_process config pid r s).log ≡ violations_of s.log ++ offence r
  unfolding check_process
  check_process-violations pid (none, denied) s =
      note_denied-violations pid denied s ∙ sym (append_nil (violations_of s.log))
  check_process-violations pid (some snapshot, denied) s =
      check_snapshot-violations snapshot denied s

  -- The counters after one process.
  pub check_process-counts :
      (pid : ℕ) (r : Option ProcessSnapshot × Bool) (s : Scan)
      → ((check_process config pid r s).stats.total_processes_checked
          ≡ s.stats.total_processes_checked + checks r)
        × ((check_process config pid r s).stats.violations_detected
            ≡ s.stats.violations_detected + length (offence r))
        × ((check_process config pid r s).stats.permission_errors
            ≡ s.stats.permission_errors + denials r)
  unfolding check_process check_snapshot note_denied add_line
  check_process-counts pid (none, false) s = (omega arith, omega arith, omega arith)
  check_process-counts pid (none, true) s = (omega arith, omega arith, omega arith)
  check_process-counts pid (some snapshot, denied) s =
      let counted : Scan = record s {
        stats = record (s.stats) { total_processes_checked = s.stats.total_processes_checked + 1 };
      } in
      let h = report_violation-stats snapshot counted in
      (ground (arith, h), ground (arith, h), ground (arith, h))
