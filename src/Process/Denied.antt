-- ===== src/Process/Denied.antt =====
-- From the policy file to the report: perform_scan of src/process/process_enforcer.cpp under a policy
-- that load of src/config/config_manager.cpp has read.
use silicon.Prelude.{
  ℕ, ◌≡◌, refl, sym, ap, ◌∙◌, Bool, true, false, not, ◌&&◌, some, List, [], ◌∷◌, ◌++◌, ◌==◌,
  is_empty, append_assoc,
}
use silicon.Text.{codes}
use silicon.Platform.{JsonLib, Os}
use silicon.Config.Helpers.{to_lower_copy}
use silicon.Config.State.{ConfigManager, Settings}
use silicon.Config.Load.{load}
use silicon.Config.Queries.{is_process_allowed}
use silicon.Config.Names.{Denotes}
use silicon.Config.Outcomes.{IsPolicy}
use silicon.Config.Enforced.{blocked_entry_denied}
use silicon.Process.Helpers.{sanitize_for_log}
use silicon.Process.Types.{Kernel, ProcessSnapshot, Surroundings}
use silicon.Process.Inspect.{read_process_snapshot}
use silicon.Process.Pids.{enumerate_all_pids}
use silicon.Process.Scan.{is_checked, reached, perform_scan}
use silicon.Process.Offence.{violations_of, offence}
use silicon.Process.Reported.{offences, perform_scan-violations}

module _ (kernel : Kernel) (config : Settings) where
  offences-append :
      (xs ys : List ℕ)
      → offences kernel config (xs ++ ys) ≡ offences kernel config xs ++ offences kernel config ys
  offences-append [] ys = refl
  offences-append (pid ∷ xs) ys =
      let r = offence config (read_process_snapshot kernel pid) in
      ap (λ vs. r ++ vs) (offences-append xs ys)
      ∙ sym (append_assoc r (offences kernel config xs) (offences kernel config ys))

  offence-denied :
      (snapshot : ProcessSnapshot) (denied : Bool)
      → is_checked config snapshot ≡ true
      → is_process_allowed config snapshot.executable_path ≡ false
      → offence config (some snapshot, denied)
        ≡ (sanitize_for_log snapshot.executable_path, snapshot.pid) ∷ []
  offence-denied snapshot denied h k = rw (h, k) refl

  offences-denied :
      (before after : List ℕ) (pid : ℕ) (snapshot : ProcessSnapshot) (denied : Bool)
      → read_process_snapshot kernel pid ≡ (some snapshot, denied)
      → is_checked config snapshot ≡ true
      → is_process_allowed config snapshot.executable_path ≡ false
      → offences kernel config (before ++ pid ∷ after)
        ≡ offences kernel config before
          ++ (sanitize_for_log snapshot.executable_path, snapshot.pid)
            ∷ offences kernel config after
  offences-denied before after pid snapshot denied r h k =
      offences-append before (pid ∷ after)
      ∙ ap (λ vs. offences kernel config before ++ (vs ++ offences kernel config after))
          (ap (offence config) r ∙ offence-denied snapshot denied h k)

-- After a load of a policy whose "blocked_processes" array holds a string, a scan with that policy
-- that can enumerate the processes and reaches one whose path or last path component is the string up
-- to the case of letters, and which can be read and is not exempt, logs a violation with its
-- sanitized path and ID, between those of the processes before it and behind it.
pub blocked_entry_reported :
    (J : JsonLib) (O : Os) (d : O.Disk) (c : ConfigManager J) (json : J.Json)
    (entries entries' : List J.Json) (e : J.Json) (w : Surroundings) (before after : List ℕ)
    (pid : ℕ) (snapshot : ProcessSnapshot) (denied : Bool)
    → IsPolicy J O d c.config_path json
    → J.contains json (codes "blocked_processes") ≡ true
    → J.is_array (J.at json (codes "blocked_processes")) ≡ true
    → J.elements (J.at json (codes "blocked_processes")) ≡ entries ++ e ∷ entries'
    → J.is_string e ≡ true
    → Denotes snapshot.executable_path (to_lower_copy (J.get_string e))
    → w.config ≡ some (load J O d c).0.settings
    → (is_empty (enumerate_all_pids w.kernel).0 && not ((enumerate_all_pids w.kernel).1 == 0))
      ≡ false
    → reached w.stop 0 (enumerate_all_pids w.kernel).0 ≡ before ++ pid ∷ after
    → read_process_snapshot w.kernel pid ≡ (some snapshot, denied)
    → is_checked (load J O d c).0.settings snapshot ≡ true
    → violations_of (perform_scan w).log
      ≡ offences w.kernel (load J O d c).0.settings before
        ++ (sanitize_for_log snapshot.executable_path, snapshot.pid)
          ∷ offences w.kernel (load J O d c).0.settings after
blocked_entry_reported J O d c json es es' e w before after pid snapshot denied policy has arr split
      str denotes same found reach read checked =
    let config = (load J O d c).0.settings in
    (perform_scan-violations w config same found).0
    ∙ ap (offences w.kernel config) reach
    ∙ offences-denied w.kernel config before after pid snapshot denied read checked (
        blocked_entry_denied J O d c json es es' e snapshot.executable_path policy has arr split str
          denotes)
