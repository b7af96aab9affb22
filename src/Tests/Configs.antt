-- ===== src/Tests/Configs.antt =====
-- The theorems on ConfigManager (src/config) at concrete policies.
use silicon.Prelude.{◌≡◌, refl, ◌↔◌, ◌⊎◌, true, false, Option, none, some, [], ◌∷◌, ◌++◌, take}
use silicon.Text.{Str, codes, mem}
use silicon.Tests.{Value, policy, Small, OneFile, exam}
use silicon.Config.State.{ConfigManager, apply_defaults}
use silicon.Config.Helpers.{join_strings}
use silicon.Config.Queries.{is_process_allowed, is_domain_allowed}
use silicon.Config.Load.{initial, load, construct, read_policy, after_read, accept_json, reset}
use silicon.Config.Samples.{separated, dots, shown, join_strings-separated}
use silicon.Config.Domain.{IsMatched, is_domain_allowed_iff}
use silicon.Config.Names.{IsListed, is_process_allowed_iff}
use silicon.Config.Valid.{IsValid, load-IsValid, construct-IsValid}
use silicon.Config.Outcomes.{IsPolicy, load-refused}
use silicon.Config.Entries.{names, load-names}

-- The file, the manager before it is loaded, and the policy that it holds.
abbrev file : Option Str
file = some (codes "Cheat")

abbrev manager : ConfigManager Small
manager = initial Small OneFile (codes "/policy.json")

abbrev cheat : Value
cheat = policy (codes "Cheat" ∷ [])

manager_IsPolicy : IsPolicy Small OneFile file manager.config_path cheat
unfolding initial read_policy
manager_IsPolicy = (codes "Cheat", refl, refl, refl)

is_process_allowed_iff_example : (is_process_allowed exam (codes "/bin/Cheat") ≡ true) ↔ (
    (¬ IsListed (codes "/bin/Cheat") exam.blocked_processes)
    × ((exam.allowed_processes ≡ []) ⊎ IsListed (codes "/bin/Cheat") exam.allowed_processes))
is_process_allowed_iff_example = is_process_allowed_iff exam (codes "/bin/Cheat")

is_domain_allowed_iff_example : (is_domain_allowed exam (codes "a.chat.com") ≡ true) ↔ (
    (¬ IsMatched (codes "a.chat.com") exam.blocked_domains)
    × ((exam.allowed_domains ≡ []) ⊎ IsMatched (codes "a.chat.com") exam.allowed_domains))
is_domain_allowed_iff_example = is_domain_allowed_iff exam (codes "a.chat.com")

load-IsValid_example : IsValid (load Small OneFile file manager).0.settings
load-IsValid_example = load-IsValid Small OneFile file manager

construct-IsValid_example :
    IsValid (construct Small OneFile none (codes "~/policy.json")).1.settings
construct-IsValid_example = construct-IsValid Small OneFile none (codes "~/policy.json")

load-names_example :
    let r = load Small OneFile file manager in
    (r.1 ≡ true)
    × (mem (codes "cheat") r.0.settings.allowed_processes
        ≡ names Small cheat (codes "allowed_processes") (codes "cheat"))
    × (mem (codes "cheat") r.0.settings.blocked_processes
        ≡ names Small cheat (codes "blocked_processes") (codes "cheat"))
    × (mem (codes "cheat") r.0.settings.allowed_domains
        ≡ names Small cheat (codes "allowed_domains") (codes "cheat"))
    × (mem (codes "cheat") r.0.settings.blocked_domains
        ≡ names Small cheat (codes "blocked_domains") (codes "cheat"))
load-names_example = load-names Small OneFile file manager cheat (codes "cheat") manager_IsPolicy

accepted_file : (load Small OneFile file manager).1 ≡ true
unfolding load initial reset read_policy after_read accept_json
accepted_file = refl

missing_file : (load Small OneFile none manager).1 ≡ false
unfolding load initial reset read_policy after_read
missing_file = refl

load-refused_example :
    (load Small OneFile none manager).0
    ≡ record manager { settings = apply_defaults OneFile none; config_snapshot = some (policy []) }
load-refused_example = load-refused Small OneFile none manager missing_file

join_strings-separated_example :
    join_strings (codes "a" ∷ codes "b" ∷ codes "c" ∷ []) 2
    ≡ separated (take (shown 2) (codes "a" ∷ codes "b" ∷ codes "c" ∷ []))
      ++ dots 2 (codes "a" ∷ codes "b" ∷ codes "c" ∷ [])
join_strings-separated_example = join_strings-separated (codes "a" ∷ codes "b" ∷ codes "c" ∷ []) 2
