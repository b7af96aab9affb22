-- ===== src/Config/Prefix.antt =====
-- What has_prefix_path of src/config/config_manager.cpp decides.
use silicon.Prelude.{
  ◌≡◌, refl, ap, ◌≢◌, ◌↔◌, ◌⊎◌, inl, inr, true, [], ◌∷◌, ◌++◌, arith, ◌==◌, length, length-append,
  Bool-cases,
}
use silicon.Text.{Str, starts_with, back, char_at}
use silicon.Text.Laws.{starts_with→eq, starts_with-append, char_at-append}
use silicon.FsPath.{slash}
use silicon.Config.Helpers.{has_prefix_path}

-- The path is the directory, or the directory ends in a slash, or a slash follows it in the path.
abbrev pub AtBoundary : Str → Str → Type 0
AtBoundary prefix rest =
    (rest ≡ []) ⊎ ((back prefix ≡ slash) ⊎ ((below : Str) × (rest ≡ slash ∷ below)))

-- The path lies in the directory tree of the prefix.
abbrev pub IsUnder : Str → Str → Type 0
IsUnder path prefix =
    (prefix ≢ []) × ((rest : Str) × (path ≡ prefix ++ rest) × AtBoundary prefix rest)

module _ (path prefix : Str) where
  boundary_sound :
      (rest : Str)
      → path ≡ prefix ++ rest
      → has_prefix_path path prefix ≡ true
      → AtBoundary prefix rest
  unfolding has_prefix_path char_at
  boundary_sound [] e h = inl refl
  boundary_sound (x ∷ below) e h = elim (Bool-cases (back prefix == slash)) [
    | inl ends ↦ inr (inl (ground arith))
    | inr open' ↦ inr (
        inr (
          below,
          ground (
            arith,
            ap length e,
            length-append prefix (x ∷ below),
            ap (λ (t : Str). char_at t (length prefix)) e,
            char_at-append prefix (x ∷ below),
          ),
        ))
  ]

  boundary_complete :
      (rest : Str)
      → prefix ≢ []
      → path ≡ prefix ++ rest
      → AtBoundary prefix rest
      → has_prefix_path path prefix ≡ true
  unfolding has_prefix_path char_at
  boundary_complete rest h e b = ground (
    arith,
    ap length e,
    length-append prefix rest,
    ap (λ (t : Str). starts_with t prefix) e,
    starts_with-append prefix rest,
    ap (λ (t : Str). char_at t (length prefix)) e,
    char_at-append prefix rest,
  )

has_prefix_path-IsUnder :
    (path prefix : Str) → has_prefix_path path prefix ≡ true → IsUnder path prefix
unfolding has_prefix_path
has_prefix_path-IsUnder path [] h = absurd (ground arith)
has_prefix_path-IsUnder path (p ∷ ps) h =
    let (rest, e) = starts_with→eq path (p ∷ ps) (ground arith) in
    (λ k. cc, (rest, e, boundary_sound path (p ∷ ps) rest e h))

-- has_prefix_path holds exactly when the prefix is not empty and the path is the prefix, or goes on
-- behind it, the prefix ending in a slash or the rest starting with one.
pub has_prefix_path_iff :
    (path prefix : Str) → (has_prefix_path path prefix ≡ true) ↔ IsUnder path prefix
has_prefix_path_iff path prefix =
    (has_prefix_path-IsUnder path prefix, λ u. boundary_complete path prefix u.1.0 u.0 u.1.1 u.1.2)
