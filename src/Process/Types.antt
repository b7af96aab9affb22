-- ===== src/Process/Types.antt =====
-- The state of src/process/process_enforcer.hpp and what a scan is given from outside.
use silicon.Prelude.{ℕ, Bool, List, Option}
use silicon.Prelude.Int.{ℤ}
use silicon.Text.{Str}
use silicon.Platform.{Outcome}
use silicon.Config.State.{Settings}

-- What the kernel's process calls return during one scan, by attempt or by process ID. The number
-- after the int of proc_listallpids, proc_pidpath and proc_name is the errno after the call.
pub record Kernel : Type 0 where
  pub kinfo_proc_size : ℕ  -- sizeof(kinfo_proc)
  pub sysctl_size : ℕ → Outcome ℕ  -- required_bytes
  pub sysctl_entries : ℕ → ℕ → Outcome (List ℤ × ℕ)  -- the p_pid of each entry, actual_bytes
  pub listallpids_hint : ℤ × ℕ
  pub listallpids : ℕ → List ℤ × ℤ × ℕ  -- from the size of the buffer: the buffer, filled
  pub pidpath : ℕ → Str × ℤ × ℕ  -- the C string in the buffer, path_length
  pub name : ℕ → Str × ℤ × ℕ

pub record ProcessSnapshot : Type 0 where
  pub pid : ℕ
  pub executable_path : Str
  pub executable_name : Str

pub record ScanStats : Type 0 where
  pub timestamp : ℕ
  pub total_processes_checked : ℕ
  pub violations_detected : ℕ
  pub permission_errors : ℕ

abbrev pub new_stats : ℕ → ScanStats
new_stats timestamp = record {
  timestamp = timestamp;
  total_processes_checked = 0;
  violations_detected = 0;
  permission_errors = 0;
}

-- The lines that a scan logs, with the arguments of their format strings.
pub data Line : Type 0 where
  scan_failed : ℕ → Line
  inspection_denied : ℕ → Line
  violation : Str → ℕ → Line
  notification : Str → Line
  scan_completed : ScanStats → Line

-- A scan under way: the local ScanStats and the lines so far, the oldest first.
pub record Scan : Type 0 where
  pub stats : ScanStats
  pub log : List Line

-- What one scan meets: the policy, the clock, the kernel and the value of stop_requested_ at each
-- process.
pub record Surroundings : Type 0 where
  pub config : Option Settings
  pub now : ℕ
  pub kernel : Kernel
  pub stop : ℕ → Bool
