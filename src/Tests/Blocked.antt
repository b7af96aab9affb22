-- ===== src/Tests/Blocked.antt =====
-- A policy file that blocks a program, a kernel that runs it, and what the scan reports.
use silicon.Prelude.{
  ◌≡◌, refl, true, false, not, ◌&&◌, ◌==◌, some, [], ◌∷◌, arith, is_empty, inl, Option,
  if◌then◌else◌, ◌++◌,
}
use silicon.Prelude.Int.{pos}
use silicon.Text.{Str, codes, str_eq, tolower, char_at}
use silicon.Platform.{done}
use silicon.Tests.{Small, OneFile, Value, policy, text}
use silicon.Config.Helpers.{to_lower_copy}
use silicon.Config.State.{ConfigManager, Settings}
use silicon.Config.Load.{initial, load, read_policy}
use silicon.Config.Queries.{get_system_paths_to_ignore}
use silicon.Config.Parse.{read_string_array}
use silicon.Config.Paths.{normalize_paths}
use silicon.Config.Outcomes.{IsPolicy}
use silicon.Process.Helpers.{
  sanitize_for_log, basename_from_path, lower_ascii_copy, has_directory_prefix,
}
use silicon.Process.Types.{Kernel, ProcessSnapshot, Surroundings}
use silicon.Process.Pids.{
  enumerate_all_pids, attempts, conclude, after_size, after_read, collect_pids, unique, sort,
  positive_pids, insert_sorted, unique_after,
}
use silicon.Process.Inspect.{
  read_process_snapshot, snapshot_of, executable_name_of, should_ignore_process, ignores,
}
use silicon.Process.Scan.{is_checked, reached, perform_scan}
use silicon.Process.Offence.{violations_of}
use silicon.Process.Reported.{offences}
use silicon.Process.Denied.{blocked_entry_reported}

abbrev file : Option Str
file = some (codes "/opt/Cheat")

abbrev manager : ConfigManager Small
manager = initial Small OneFile (codes "/policy.json")

abbrev blocking : Value
blocking = policy (codes "/opt/Cheat" ∷ [])

abbrev config : Settings
config = (load Small OneFile file manager).0.settings

-- The shell and the program, whose names differ from their paths.
abbrev kernel : Kernel
kernel = record {
  kinfo_proc_size = 4;
  sysctl_size = λ attempt. done 8;
  sysctl_entries = λ attempt capacity. done (pos 7 ∷ pos 3 ∷ [], 8);
  listallpids_hint = (pos 0, 1);
  listallpids = λ size. ([], pos 0, 1);
  pidpath =
      λ pid. if pid == 3 then (codes "/bin/sh", pos 7, 0) else (codes "/opt/cheat", pos 10, 0);
  name = λ pid. ([], pos 0, 0);
}

abbrev running : Surroundings
running = record { config = some config; now = 5; kernel = kernel; stop = λ i. false }

abbrev snapshot : ProcessSnapshot
snapshot = record { pid = 7; executable_path = codes "/opt/cheat"; executable_name = codes "cheat" }

blocking-IsPolicy : IsPolicy Small OneFile file manager.config_path blocking
unfolding initial read_policy
blocking-IsPolicy = (codes "/opt/Cheat", refl, refl, refl)

found : (is_empty (enumerate_all_pids kernel).0 && not ((enumerate_all_pids kernel).1 == 0)) ≡ false
unfolding enumerate_all_pids attempts conclude after_size after_read
found = ground arith

both_reached : reached running.stop 0 (enumerate_all_pids kernel).0 ≡ 3 ∷ 7 ∷ []
unfolding enumerate_all_pids attempts conclude after_size after_read reached collect_pids unique
    sort positive_pids insert_sorted unique_after
both_reached = refl

cheat_read : read_process_snapshot kernel 7 ≡ (some snapshot, false)
unfolding read_process_snapshot snapshot_of executable_name_of basename_from_path
cheat_read = refl

cheat_checked : is_checked config snapshot ≡ true
unfolding is_checked char_at should_ignore_process get_system_paths_to_ignore load read_string_array
    normalize_paths ignores lower_ascii_copy has_directory_prefix
cheat_checked = refl

blocked_entry_reported_example :
    violations_of (perform_scan running).log
    ≡ offences kernel config (3 ∷ [])
      ++ (sanitize_for_log (codes "/opt/cheat"), 7) ∷ offences kernel config []
unfolding to_lower_copy tolower str_eq
blocked_entry_reported_example =
    blocked_entry_reported Small OneFile file manager blocking [] [] (text (codes "/opt/Cheat"))
      running (3 ∷ []) [] 7 snapshot false blocking-IsPolicy refl refl refl refl (inl refl) refl
      found both_reached cheat_read cheat_checked
