-- ===== src/Config/Enforced.antt =====
-- From the policy file to the decision: an entry of "blocked_processes" is denied after a load.
use silicon.Prelude.{
  ◌≡◌, ap, ◌∙◌, Bool, true, false, List, [], ◌∷◌, ◌++◌, arith, Bool-cases, inl, inr,
}
use silicon.Text.{Str, codes, mem, str_eq, set_insert}
use silicon.Text.Laws.{str_eq_iff, str_eq→eq, mem-append, mem-set_insert}
use silicon.Platform.{JsonLib, Os}
use silicon.Config.Helpers.{to_lower_copy}
use silicon.Config.State.{ConfigManager, Settings}
use silicon.Config.Parse.{insert_lower, read_entries, read_string_array, parse_json_locked}
use silicon.Config.Load.{load}
use silicon.Config.Queries.{is_process_allowed}
use silicon.Config.Names.{Denotes, is_process_allowed_iff}
use silicon.Config.Outcomes.{IsPolicy, loaded, load-policy}

-- What is in the set stays, and each item goes in in lower case.
insert_lower-keeps :
    (s : Str) (items set : List Str) → mem s set ≡ true → mem s (insert_lower set items) ≡ true
unfolding insert_lower
insert_lower-keeps s [] set m = m
insert_lower-keeps s (item ∷ items) set m =
    insert_lower-keeps s items _ (ground (arith, mem-set_insert s (to_lower_copy item) set))

insert_lower-adds :
    (s : Str) (items set : List Str)
    → mem s items ≡ true
    → mem (to_lower_copy s) (insert_lower set items) ≡ true
unfolding insert_lower mem
insert_lower-adds s [] set m = absurd (ground arith)
insert_lower-adds s (item ∷ items) set m = elim (Bool-cases (str_eq item s)) [
  | inl e ↦ insert_lower-keeps (to_lower_copy s) items (set_insert (to_lower_copy item) set) (
      ground (
        arith,
        mem-set_insert (to_lower_copy s) (to_lower_copy item) set,
        str_eq_iff (to_lower_copy item) (to_lower_copy s),
        ap to_lower_copy (str_eq→eq item s e),
      ))
  | inr other ↦ insert_lower-adds s items (set_insert (to_lower_copy item) set) (ground arith)
]

module _ (J : JsonLib) where
  read_entries-keeps :
      (s : Str) (entries : List J.Json) (out : List Str) (ok : Bool)
      → mem s out ≡ true
      → mem s (read_entries J entries out ok).0 ≡ true
  unfolding read_entries
  read_entries-keeps s [] out ok m = m
  read_entries-keeps s (e ∷ es) out ok m =
      read_entries-keeps s es _ _ (ground (arith, mem-append s out (J.get_string e ∷ [])))

  read_entries-mem :
      (before after : List J.Json) (e : J.Json) (out : List Str) (ok : Bool)
      → J.is_string e ≡ true
      → mem (J.get_string e) (read_entries J (before ++ e ∷ after) out ok).0 ≡ true
  unfolding read_entries mem
  read_entries-mem [] after e out ok h = read_entries-keeps (J.get_string e) after _ _ (
      ground (
        arith,
        mem-append (J.get_string e) out (J.get_string e ∷ []),
        str_eq_iff (J.get_string e) (J.get_string e),
      ))
  read_entries-mem (x ∷ before) after e out ok h = read_entries-mem before after e _ _ h

  read_string_array-mem :
      (json : J.Json) (key : Str) (before after : List J.Json) (e : J.Json)
      → J.contains json key ≡ true
      → J.is_array (J.at json key) ≡ true
      → J.elements (J.at json key) ≡ before ++ e ∷ after
      → J.is_string e ≡ true
      → mem (J.get_string e) (read_string_array J json key []).0 ≡ true
  unfolding read_string_array
  read_string_array-mem json key before after e has arr split str =
      rw (has, arr, split) (read_entries-mem before after e [] true str)

  not_allowed :
      (s : Settings) (name entry : Str)
      → mem entry s.blocked_processes ≡ true
      → Denotes name entry
      → is_process_allowed s name ≡ false
  not_allowed s name entry m n = elim (Bool-cases (is_process_allowed s name)) [
    | inl ok ↦ absurd (((is_process_allowed_iff s name).0 ok).0 (entry, n, m))
    | inr out ↦ out
  ]

  -- After a load of a policy whose "blocked_processes" array holds a string, every process whose
  -- name or last path component is that string up to the case of letters is denied, whatever the
  -- rest of the file holds.
  pub blocked_entry_denied :
      (O : Os) (d : O.Disk) (c : ConfigManager J) (json : J.Json) (before after : List J.Json)
      (e : J.Json) (name : Str)
      → IsPolicy J O d c.config_path json
      → J.contains json (codes "blocked_processes") ≡ true
      → J.is_array (J.at json (codes "blocked_processes")) ≡ true
      → J.elements (J.at json (codes "blocked_processes")) ≡ before ++ e ∷ after
      → J.is_string e ≡ true
      → Denotes name (to_lower_copy (J.get_string e))
      → is_process_allowed (load J O d c).0.settings name ≡ false
  blocked_entry_denied O d c json before after e name policy has arr split str denotes =
      ap (λ (r : ConfigManager J × Bool). is_process_allowed r.0.settings name)
        (load-policy J O d c json policy)
      ∙ not_allowed (loaded J O d c json).settings name (to_lower_copy (J.get_string e))
          (unfold parse_json_locked in
            insert_lower-adds (J.get_string e) _ [] (
              read_string_array-mem json (codes "blocked_processes") before after e has arr split
                str))
          denotes
