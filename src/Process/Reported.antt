-- ===== src/Process/Reported.antt =====
-- Which processes perform_scan of src/process/process_enforcer.cpp counts and reports.
use silicon.Prelude.{
  append_nil, append_assoc, ℕ, ◌+◌, ◌≡◌, refl, sym, ap, ◌∙◌, false, not, ◌&&◌, some, List, [], ◌∷◌,
  ◌++◌, ◌==◌, arith, length, length-append, is_empty,
}
use silicon.Text.{Str}
use silicon.Config.State.{Settings}
use silicon.Process.Types.{Kernel, scan_completed, Scan, Surroundings}
use silicon.Process.Inspect.{read_process_snapshot}
use silicon.Process.Pids.{enumerate_all_pids}
use silicon.Process.Scan.{
  add_line, check_process, check_processes, complete, reached, begin_scan, scan_pids, scan_under,
  perform_scan,
}
use silicon.Process.Offence.{
  violations_of, violations_of-append, offence, checks, denials, check_process-violations,
  check_process-counts,
}

module _ (kernel : Kernel) (config : Settings) where
  -- The offences of some processes in their order, the number of checked ones and of denied ones.
  abbrev pub offences : List ℕ → List (Str × ℕ)
  offences [] = []
  offences (pid ∷ pids) = offence config (read_process_snapshot kernel pid) ++ offences pids

  abbrev pub count_checks : List ℕ → ℕ
  count_checks [] = 0
  count_checks (pid ∷ pids) = checks config (read_process_snapshot kernel pid) + count_checks pids

  abbrev pub count_denials : List ℕ → ℕ
  count_denials [] = 0
  count_denials (pid ∷ pids) =
      denials config (read_process_snapshot kernel pid) + count_denials pids

  check_processes-violations :
      (pids : List ℕ) (s : Scan)
      → violations_of (check_processes kernel config pids s).log
        ≡ violations_of s.log ++ offences pids
  unfolding check_processes
  check_processes-violations [] s = sym (append_nil (violations_of s.log))
  check_processes-violations (pid ∷ pids) s =
      let r = read_process_snapshot kernel pid in
      check_processes-violations pids (check_process config pid r s)
      ∙ ap (λ vs. vs ++ offences pids) (check_process-violations config pid r s)
      ∙ append_assoc (violations_of s.log) (offence config r) (offences pids)

  check_processes-counts :
      (pids : List ℕ) (s : Scan)
      → ((check_processes kernel config pids s).stats.total_processes_checked
          ≡ s.stats.total_processes_checked + count_checks pids)
        × ((check_processes kernel config pids s).stats.violations_detected
            ≡ s.stats.violations_detected + length (offences pids))
        × ((check_processes kernel config pids s).stats.permission_errors
            ≡ s.stats.permission_errors + count_denials pids)
  unfolding check_processes
  check_processes-counts [] s = (omega arith, omega arith, omega arith)
  check_processes-counts (pid ∷ pids) s =
      let r = read_process_snapshot kernel pid in
      let (a, b, c) = check_process-counts config pid r s in
      let (d, e, f) = check_processes-counts pids (check_process config pid r s) in
      let l = length-append (offence config r) (offences pids) in
      (omega (arith, a, d), omega (arith, b, e, l), omega (arith, c, f))

complete_lem :
    (s : Scan)
    → (violations_of (complete s).log ≡ violations_of s.log) × ((complete s).stats ≡ s.stats)
unfolding complete add_line
complete_lem s = (
  violations_of-append s.log (scan_completed s.stats ∷ []) ∙ append_nil (violations_of s.log),
  refl,
)

scan_pids-complete :
    (w : Surroundings) (config : Settings) (r : List ℕ × ℕ)
    → (is_empty r.0 && not (r.1 == 0)) ≡ false
    → scan_pids w config r
      ≡ complete (check_processes w.kernel config (reached w.stop 0 r.0) (begin_scan w))
unfolding scan_pids
scan_pids-complete w config (pids, code) e = rw e refl

perform_scan-some :
    (w : Surroundings) (config : Settings)
    → w.config ≡ some config
    → perform_scan w ≡ scan_pids w config (enumerate_all_pids w.kernel)
unfolding perform_scan scan_under
perform_scan-some w config h = rw h refl

-- A scan that can enumerate the processes logs a violation for exactly those that it reaches before
-- a stop, can read, has no reason to skip and must not allow, in their order; and its published
-- counters are the numbers of the checked processes, of the violations logged and of the processes
-- that could not be read for want of permission.
pub perform_scan-violations :
    (w : Surroundings) (config : Settings)
    → w.config ≡ some config
    → (is_empty (enumerate_all_pids w.kernel).0 && not ((enumerate_all_pids w.kernel).1 == 0))
      ≡ false
    → let pids = reached w.stop 0 (enumerate_all_pids w.kernel).0 in
      let s = perform_scan w in
      (violations_of s.log ≡ offences w.kernel config pids)
      × (s.stats.violations_detected ≡ length (violations_of s.log))
      × (s.stats.total_processes_checked ≡ count_checks w.kernel config pids)
      × (s.stats.permission_errors ≡ count_denials w.kernel config pids)
perform_scan-violations w config h e =
    let r = enumerate_all_pids w.kernel in
    let pids = reached w.stop 0 r.0 in
    let checked = check_processes w.kernel config pids (begin_scan w) in
    let (a, b) = complete_lem checked in
    let v = check_processes-violations w.kernel config pids (begin_scan w) in
    let (c, d, f) = check_processes-counts w.kernel config pids (begin_scan w) in
    rw (perform_scan-some w config h ∙ scan_pids-complete w config r e)
      (a ∙ v, ground (arith, b, d, a, v), ground (arith, b, c), ground (arith, b, f))
