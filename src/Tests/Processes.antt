-- ===== src/Tests/Processes.antt =====
-- The theorems on ProcessEnforcer (src/process) at a concrete kernel.
use silicon.Prelude.{
  ◌≡◌, ◌≢◌, refl, true, ◌↔◌, false, not, ◌&&◌, ◌==◌, if◌then◌else◌, some, [], ◌∷◌, arith, length,
  is_empty, ltb,
}
use silicon.Prelude.Int.{pos}
use silicon.Text.{Str, codes, mem}
use silicon.Process.Inspect.{should_ignore_process}
use silicon.Process.Exempt.{Exempts, should_ignore_process_iff}
use silicon.Platform.{done, failed}
use silicon.Tests.{exam}
use silicon.Process.Types.{Kernel, Surroundings}
use silicon.Process.Pids.{
  collect_pids, errno_or_eperm, enumerate_with_libproc, fall_back, after_read, after_size, conclude,
  attempts, enumerate_all_pids,
}
use silicon.Process.Scan.{reached, perform_scan}
use silicon.Process.Ascending.{
  Above, elem, is_reported, elem-collect_pids, enumerate_all_pids-Above,
}
use silicon.Process.Offence.{violations_of}
use silicon.Process.Reported.{offences, count_checks, count_denials, perform_scan-violations}

-- Two processes, one of which the policy blocks.
abbrev kernel : Kernel
kernel = record {
  kinfo_proc_size = 4;
  sysctl_size = λ attempt. done 12;
  sysctl_entries = λ attempt capacity. done (pos 9 ∷ pos 3 ∷ pos 9 ∷ [], 12);
  listallpids_hint = (pos 0, 1);
  listallpids = λ size. ([], pos 0, 1);
  pidpath =
      λ pid. if pid == 3 then (codes "/bin/Cheat", pos 10, 0) else (codes "/bin/ls", pos 7, 0);
  name = λ pid. ([], pos 0, 0);
}

-- A kernel that refuses every call, and one that gives a size that makes no sense.
abbrev refusing : Kernel
refusing = record kernel { sysctl_size = λ attempt. failed 1 }

abbrev senseless : Kernel
senseless = record kernel { sysctl_size = λ attempt. done 7 }

abbrev surroundings : Surroundings
surroundings = record { config = some exam; now = 5; kernel = kernel; stop = λ i. false }

found : (is_empty (enumerate_all_pids kernel).0 && not ((enumerate_all_pids kernel).1 == 0)) ≡ false
unfolding enumerate_all_pids attempts conclude after_size after_read
found = ground arith

perform_scan-violations_example :
    let pids = reached surroundings.stop 0 (enumerate_all_pids surroundings.kernel).0 in
    let s = perform_scan surroundings in
    (violations_of s.log ≡ offences surroundings.kernel exam pids)
    × (s.stats.violations_detected ≡ length (violations_of s.log))
    × (s.stats.total_processes_checked ≡ count_checks surroundings.kernel exam pids)
    × (s.stats.permission_errors ≡ count_denials surroundings.kernel exam pids)
perform_scan-violations_example = perform_scan-violations surroundings exam refl found

enumerate_all_pids-Above_example : Above 0 (enumerate_all_pids kernel).0
enumerate_all_pids-Above_example = enumerate_all_pids-Above kernel

elem-collect_pids_example :
    elem 9 (collect_pids 3 (pos 9 ∷ pos 3 ∷ pos 9 ∷ []))
    ≡ (ltb 0 9 && is_reported 9 3 (pos 9 ∷ pos 3 ∷ pos 9 ∷ []))
elem-collect_pids_example = elem-collect_pids 9 3 (pos 9 ∷ pos 3 ∷ pos 9 ∷ [])

refused : (enumerate_all_pids refusing).1 ≢ 0
unfolding enumerate_all_pids attempts conclude after_size fall_back enumerate_with_libproc
    errno_or_eperm
refused = ground arith

should_ignore_process_iff_example :
    (should_ignore_process (codes "/System/Library/x") [] (codes "/system/" ∷ codes "sh" ∷ [])
      ≡ true)
    ↔ ((pattern : Str) × Exempts (codes "/System/Library/x") [] pattern
        × (mem pattern (codes "/system/" ∷ codes "sh" ∷ []) ≡ true))
should_ignore_process_iff_example =
    should_ignore_process_iff (codes "/System/Library/x") [] (codes "/system/" ∷ codes "sh" ∷ [])
