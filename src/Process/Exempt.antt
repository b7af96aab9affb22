-- ===== src/Process/Exempt.antt =====
-- Which processes should_ignore_process of src/process/process_enforcer.cpp leaves alone.
use silicon.Prelude.{
  ◌≡◌, refl, ap, ◌∙◌, ◌≢◌, ◌↔◌, ◌⊎◌, inl, inr, Bool, true, false, List, [], ◌∷◌, ◌==◌, arith, ltb,
  length, length-append, is_empty, exists_in, if◌then◌else◌, Bool-cases,
}
use silicon.Text.{Str, starts_with, char_at, str_eq, mem}
use silicon.Text.Laws.{starts_with→eq, str_eq_iff, str_eq→eq}
use silicon.FsPath.{slash}
use silicon.Config.Helpers.{has_prefix_path}
use silicon.Config.Prefix.{IsUnder, has_prefix_path_iff}
use silicon.Process.Helpers.{has_directory_prefix, lower_ascii_copy, basename_from_path}
use silicon.Process.Inspect.{ignores, should_ignore_process}

longer :
    (path prefix : Str) → ltb (length path) (length prefix) ≡ true → starts_with path prefix ≡ false
longer path prefix l = elim (Bool-cases (starts_with path prefix)) [
  | inl h ↦
      let (rest, e) = starts_with→eq path prefix h in
      absurd (ground (arith, ap length e, length-append prefix rest, l))
  | inr h ↦ h
]

-- The two classes decide alike, though only one compares the lengths first.
has_directory_prefix-has_prefix_path :
    (path prefix : Str) → has_directory_prefix path prefix ≡ has_prefix_path path prefix
unfolding has_directory_prefix has_prefix_path
has_directory_prefix-has_prefix_path path prefix =
    elim (Bool-cases (ltb (length path) (length prefix))) [
      | inl l ↦ ground (arith, l, longer path prefix l)
      | inr l ↦ ground (arith, l)
    ]

-- A name without letters in upper case, or that of the path where there is none.
abbrev pub name_of : Str → Str → Str
name_of path name =
    let lowered = lower_ascii_copy name in
    if is_empty lowered then lower_ascii_copy (basename_from_path path) else lowered

-- A pattern with a slash in front exempts what lies under that directory, any other the processes
-- of that name, both up to the case of letters.
pub record Exempts (path name pattern : Str) : Type 0 where
  pub not_empty : pattern ≢ []
  pub fits :
      ((char_at (lower_ascii_copy pattern) 0 ≡ slash)
        × IsUnder (lower_ascii_copy path) (lower_ascii_copy pattern))
      ⊎ ((char_at (lower_ascii_copy pattern) 0 ≢ slash)
          × (name_of path name ≡ lower_ascii_copy pattern))

exists_in-mem :
    (p : Str → Bool) (xs : List Str)
    → exists_in p xs ≡ true
    → (x : Str) × (p x ≡ true) × (mem x xs ≡ true)
unfolding exists_in mem
exists_in-mem p [] h = absurd (ground (arith, h))
exists_in-mem p (x ∷ xs) h = elim (Bool-cases (p x)) [
  | inl e ↦ (x, e, ground (arith, str_eq_iff x x))
  | inr out ↦
      let (y, e, m) = exists_in-mem p xs (ground (arith, h, out)) in (y, e, ground (arith, m))
]

mem-exists_in :
    (p : Str → Bool) (x : Str) (xs : List Str)
    → p x ≡ true
    → mem x xs ≡ true
    → exists_in p xs ≡ true
unfolding exists_in mem
mem-exists_in p x [] h m = absurd (ground (arith, m))
mem-exists_in p x (y ∷ ys) h m = elim (Bool-cases (str_eq y x)) [
  | inl e ↦ ground (arith, ap p (str_eq→eq y x e), h)
  | inr e ↦ ground (arith, mem-exists_in p x ys h (ground (arith, m, e)))
]

filled : (s : Str) → s ≢ [] → is_empty s ≡ false
filled [] h = absurd (h refl)
filled (c ∷ s) h = refl

lower_empty : (s : Str) → is_empty (lower_ascii_copy s) ≡ is_empty s
unfolding lower_ascii_copy
lower_empty [] = refl
lower_empty (c ∷ s) = refl

module _ (path name pattern : Str) where
  abbrev lowered : Str
  lowered = lower_ascii_copy pattern

  ignores_sound :
      ignores (lower_ascii_copy path) (name_of path name) pattern ≡ true → Exempts path name pattern
  unfolding ignores
  ignores_sound h = record {
    not_empty = λ e. ground (arith, h, ap is_empty e);
    fits = elim (Bool-cases (char_at lowered 0 == slash)) [
      | inl s ↦ inl (
        ground (arith, s),
        (has_prefix_path_iff (lower_ascii_copy path) lowered).0 (
            ground
              (arith, h, s, has_directory_prefix-has_prefix_path (lower_ascii_copy path) lowered)),
      )
      | inr s ↦
          inr (ground (arith, s), str_eq→eq (name_of path name) lowered (ground (arith, h, s)))
    ];
  }

  ignores_complete :
      Exempts path name pattern → ignores (lower_ascii_copy path) (name_of path name) pattern ≡ true
  unfolding ignores
  ignores_complete x =
      let raw : is_empty pattern ≡ false = filled pattern x.not_empty in
      let low : is_empty lowered ≡ false = lower_empty pattern ∙ raw in
      elim x.fits [
        | inl (s, u) ↦ ground (
          arith,
          raw,
          low,
          s,
          has_directory_prefix-has_prefix_path (lower_ascii_copy path) lowered,
          (has_prefix_path_iff (lower_ascii_copy path) lowered).1 u,
        )
        | inr (s, e) ↦
            ground (arith, raw, low, s, ap is_empty e, (str_eq_iff (name_of path name) lowered).1 e)
      ]

-- should_ignore_process holds exactly when some pattern exempts the process.
pub should_ignore_process_iff :
    (path name : Str) (patterns : List Str)
    → (should_ignore_process path name patterns ≡ true)
      ↔ ((pattern : Str) × Exempts path name pattern × (mem pattern patterns ≡ true))
unfolding should_ignore_process
should_ignore_process_iff path name patterns =
    let test = ignores (lower_ascii_copy path) (name_of path name) in
    (
      λ h. let (p, e, m) = exists_in-mem test patterns h in (p, ignores_sound path name p e, m),
      λ r. mem-exists_in test r.0 patterns (ignores_complete path name r.0 r.1) r.2,
    )
