-- ===== src/Config/Names.antt =====
-- Which entries of a process list isProcessAllowed of src/config/config_manager.cpp looks for.
use silicon.Prelude.{
  ℕ, ◌≡◌, refl, ap, ◌∙◌, sym, ◌≢◌, ◌↔◌, ◌⊎◌, inl, inr, true, List, [], ◌∷◌, ◌++◌, arith, subst,
  if◌then◌else◌, length, length-append, drop, Bool-cases, is_empty, All, none, some, Option-cases,
}
use native.Mathlib.Numerals.{add-one}
use silicon.Text.{Str, find_last_of, mem}
use silicon.Text.Laws.{find_last_of-some, drop-suc-append}
use silicon.FsPath.{slash}
use silicon.Config.Helpers.{to_lower_copy}
use silicon.Config.State.{Settings}
use silicon.Config.Decide.{deny_first}
use silicon.Config.Queries.{process_basename, is_listed, is_process_allowed}

-- The last component of a path, where it is not empty.
pub record FinalName (path name : Str) : Type 0 where
  pub no_slash : All (λ x. x ≢ slash) name
  pub not_empty : name ≢ []
  pub ends : (path ≡ name) ⊎ ((dir : Str) × (path ≡ dir ++ slash ∷ name))

find_last_of-absent : (c : ℕ) (s : Str) → All (λ x. x ≢ c) s → find_last_of c s ≡ none
unfolding find_last_of
find_last_of-absent c [] h = refl
find_last_of-absent c (x ∷ xs) h = ground (arith, find_last_of-absent c xs h.1)

pub find_last_of-split :
    (c : ℕ) (a b : Str) → All (λ x. x ≢ c) b → find_last_of c (a ++ c ∷ b) ≡ some (length a)
unfolding find_last_of
find_last_of-split c [] b h = ground (arith, find_last_of-absent c b h)
find_last_of-split c (x ∷ xs) b h = ground (arith, find_last_of-split c xs b h)

-- Behind the last slash stands the basename, if anything does.
process_basename-split :
    (a b : Str)
    → All (λ x. x ≢ slash) b
    → process_basename (a ++ slash ∷ b) ≡ (if is_empty b then a ++ slash ∷ b else b)
process_basename-split a [] h =
    unfold process_basename in
    rw (find_last_of-split slash a [] h, process_basename)
      (ground (arith, length-append a (slash ∷ [])))
process_basename-split a (c ∷ cs) h =
    unfold process_basename in
    rw (find_last_of-split slash a (c ∷ cs) h, process_basename)
      (ground (
        arith,
        length-append a (slash ∷ c ∷ cs),
        ap (λ (n : ℕ). drop n (a ++ slash ∷ c ∷ cs)) (add-one (length a)),
        drop-suc-append a slash (c ∷ cs),
      ))

process_basename-plain : (s : Str) → find_last_of slash s ≡ none → process_basename s ≡ s
unfolding process_basename
process_basename-plain s h = ground (arith, h)

process_basename_complete : (path name : Str) → FinalName path name → process_basename path ≡ name
process_basename_complete path [] f = absurd (f.not_empty refl)
process_basename_complete path (c ∷ cs) f = elim f.ends [
  | inl e ↦ rw e (process_basename-plain _ (find_last_of-absent slash (c ∷ cs) f.no_slash))
  | inr (dir, e) ↦ rw e (process_basename-split dir (c ∷ cs) f.no_slash)
]

split_basename :
    (path a b : Str)
    → path ≡ a ++ slash ∷ b
    → All (λ x. x ≢ slash) b
    → (process_basename path ≡ path) ⊎ FinalName path (process_basename path)
split_basename path a [] e h = inl (ap process_basename e ∙ process_basename-split a [] h ∙ sym e)
split_basename path a (c ∷ cs) e h = inr (
    subst (FinalName path) (sym (ap process_basename e ∙ process_basename-split a (c ∷ cs) h))
      (record { no_slash = h; not_empty = λ k. cc; ends = inr (a, e) }))

process_basename_sound :
    (path : Str) → (process_basename path ≡ path) ⊎ FinalName path (process_basename path)
process_basename_sound path = elim (Option-cases (find_last_of slash path)) [
  | inl e ↦ inl (process_basename-plain path e)
  | inr (i, e) ↦
      let (a, b, split, size, rest) = find_last_of-some slash path i e in
      split_basename path a b split rest
]

-- An entry by which a process can be listed: its whole name in lower case, or the last component.
abbrev pub Denotes : Str → Str → Type 0
Denotes name entry = (entry ≡ to_lower_copy name) ⊎ FinalName (to_lower_copy name) entry

abbrev pub IsListed : Str → List Str → Type 0
IsListed name set = (entry : Str) × Denotes name entry × (mem entry set ≡ true)

sound_listing :
    (name : Str) (set : List Str)
    → is_listed (to_lower_copy name) (process_basename (to_lower_copy name)) set ≡ true
    → IsListed name set
unfolding is_listed
sound_listing name set h = elim (Bool-cases (mem (to_lower_copy name) set)) [
  | inl m ↦ (to_lower_copy name, inl refl, m)
  | inr other ↦ elim (process_basename_sound (to_lower_copy name)) [
    | inl e ↦ absurd (ground (arith, ap (λ (t : Str). mem t set) e))
    | inr f ↦ (process_basename (to_lower_copy name), inr f, ground arith)
  ]
]

complete_listing :
    (name : Str) (set : List Str)
    → IsListed name set
    → is_listed (to_lower_copy name) (process_basename (to_lower_copy name)) set ≡ true
unfolding is_listed
complete_listing name set (entry, inl e, m) = ground (arith, ap (λ (t : Str). mem t set) e)
complete_listing name set ([], inr f, m) = absurd (f.not_empty refl)
complete_listing name set (c ∷ cs, inr f, m) =
    ground (arith, process_basename_complete (to_lower_copy name) (c ∷ cs) f)

pub is_listed_iff :
    (name : Str) (set : List Str)
    → (is_listed (to_lower_copy name) (process_basename (to_lower_copy name)) set ≡ true)
      ↔ IsListed name set
is_listed_iff name set = (sound_listing name set, complete_listing name set)

-- A process is allowed exactly when no entry of the blocked list names it and the allowed list is
-- empty or an entry of it names it.
pub is_process_allowed_iff :
    (s : Settings) (name : Str)
    → (is_process_allowed s name ≡ true) ↔ (
        (¬ IsListed name s.blocked_processes)
        × ((s.allowed_processes ≡ []) ⊎ IsListed name s.allowed_processes))
is_process_allowed_iff s name =
    unfold is_process_allowed in
    deny_first (is_listed_iff name s.blocked_processes) s.allowed_processes
      (is_listed_iff name s.allowed_processes)
