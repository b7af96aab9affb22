-- ===== src/Config/Entries.antt =====
-- What the lists of names in a policy file become: load and parse_json_locked of
-- src/config/config_manager.cpp.
use silicon.Prelude.{
  ◌≡◌, ap, ◌∙◌, Bool, true, ◌&&◌, ◌||◌, List, [], ◌∷◌, ◌++◌, arith, exists_in, if◌then◌else◌,
}
use silicon.Text.{Str, codes, mem, str_eq, set_insert}
use silicon.Text.Laws.{mem-set_insert}
use silicon.Platform.{JsonLib, Os}
use silicon.Config.Helpers.{to_lower_copy}
use silicon.Config.State.{ConfigManager, Settings}
use silicon.Config.Parse.{insert_lower, read_entries, read_string_array, parse_json_locked}
use silicon.Config.Load.{load}
use silicon.Config.Outcomes.{IsPolicy, load-policy}

-- A name in lower case.
abbrev spells : Str → Str → Bool
spells s name = str_eq (to_lower_copy name) s

mem-insert_lower :
    (s : Str) (items set : List Str)
    → mem s (insert_lower set items) ≡ (mem s set || exists_in (spells s) items)
unfolding insert_lower exists_in
mem-insert_lower s [] set = ground arith
mem-insert_lower s (item ∷ items) set = ground (
  arith,
  mem-insert_lower s items (set_insert (to_lower_copy item) set),
  mem-set_insert s (to_lower_copy item) set,
)

exists_in-append :
    (p : Str → Bool) (xs : List Str) (y : Str)
    → exists_in p (xs ++ y ∷ []) ≡ (exists_in p xs || p y)
unfolding exists_in
exists_in-append p [] y = ground arith
exists_in-append p (x ∷ xs) y = ground (arith, exists_in-append p xs y)

module _ (J : JsonLib) where
  -- A JSON value that is the name, up to the case of letters.
  abbrev is_name : Str → J.Json → Bool
  is_name s json = J.is_string json && spells s (J.get_string json)

  read_entries-exists :
      (s : Str) (entries : List J.Json) (out : List Str) (ok : Bool)
      → exists_in (spells s) (read_entries J entries out ok).0
        ≡ (exists_in (spells s) out || exists_in (is_name s) entries)
  unfolding read_entries exists_in
  read_entries-exists s [] out ok = ground arith
  read_entries-exists s (e ∷ es) out ok = ground (
    arith,
    read_entries-exists s es (if J.is_string e then out ++ J.get_string e ∷ [] else out)
        (ok && J.is_string e),
    exists_in-append (spells s) out (J.get_string e),
  )

  -- The key is there with an array, and one of its elements is the name.
  abbrev pub names : J.Json → Str → Str → Bool
  names json key s =
      J.contains json key
      && (J.is_array (J.at json key) && exists_in (is_name s) (J.elements (J.at json key)))

  mem-strings :
      (json : J.Json) (key s : Str)
      → mem s (insert_lower [] (read_string_array J json key []).0) ≡ names json key s
  unfolding read_string_array exists_in mem
  mem-strings json key s = ground (
    arith,
    mem-insert_lower s (read_string_array J json key []).0 [],
    read_entries-exists s (J.elements (J.at json key)) [] true,
  )

-- A load of a file that passes the checks and holds an object returns true, and the four lists of
-- names that decide about processes and domains then hold exactly the strings of the arrays under
-- their own keys, in lower case: none where the key is missing or holds no array, and none of what
-- the lists held before.
pub load-names :
    (J : JsonLib) (O : Os) (d : O.Disk) (c : ConfigManager J) (json : J.Json) (s : Str)
    → IsPolicy J O d c.config_path json
    → let r = load J O d c in
      (r.1 ≡ true)
      × (mem s r.0.settings.allowed_processes ≡ names J json (codes "allowed_processes") s)
      × (mem s r.0.settings.blocked_processes ≡ names J json (codes "blocked_processes") s)
      × (mem s r.0.settings.allowed_domains ≡ names J json (codes "allowed_domains") s)
      × (mem s r.0.settings.blocked_domains ≡ names J json (codes "blocked_domains") s)
unfolding parse_json_locked
load-names J O d c json s policy =
    let e = load-policy J O d c json policy in
    let of : (Settings → List Str) → ConfigManager J × Bool → Bool =
      λ field r. mem s (field r.0.settings) in
    (
      ap (λ (r : ConfigManager J × Bool). r.1) e,
      ap (of (λ t. t.allowed_processes)) e ∙ mem-strings J json (codes "allowed_processes") s,
      ap (of (λ t. t.blocked_processes)) e ∙ mem-strings J json (codes "blocked_processes") s,
      ap (of (λ t. t.allowed_domains)) e ∙ mem-strings J json (codes "allowed_domains") s,
      ap (of (λ t. t.blocked_domains)) e ∙ mem-strings J json (codes "blocked_domains") s,
    )
