-- ===== src/Config/Domain.antt =====
-- What match_domain_pattern of src/config/config_manager.cpp decides.
use silicon.Prelude.{
  ℕ, zero, suc, ◌+◌, ◌≡◌, refl, ap, ◌∙◌, sym, ◌≢◌, ◌↔◌, ◌⊎◌, inl, inr, true, false, List, [], ◌∷◌,
  ◌++◌, arith, ◌-◌, ◌<◌, drop, not, leb, ap₂, ◌==◌, if◌then◌else◌, length, length-append,
  Bool-cases, exists_in,
}
use silicon.Text.{Str, mem, str_eq, codes, ends_with, char_at}
use silicon.Text.Laws.{char_at-append, drop-suc-append, str_eq_iff, str_eq→eq, str_eq_refl}
use silicon.Config.Decide.{deny_first, exists_in_iff}
use silicon.Config.State.{Settings}
use silicon.Config.Queries.{is_domain_allowed}
use silicon.Config.Helpers.{to_lower_copy, is_wildcard, match_domain_pattern}

-- A text is what stands before a position, the byte there, and the rest.
split_at :
    (s : Str) (k : ℕ)
    → k < length s
    → (a : Str) × (s ≡ a ++ char_at s k ∷ drop (suc k) s) × (length a ≡ k)
unfolding char_at
split_at [] k h = absurd (omega arith)
split_at (x ∷ xs) zero h = ([], refl, refl)
split_at (x ∷ xs) (suc k) h =
    let (a, e, l) = split_at xs k (omega arith) in (x ∷ a, ap (λ (t : Str). x ∷ t) e, omega arith)

abbrev Wildcard : Str → Str
Wildcard suffix = b'*' ∷ b'.' ∷ suffix

-- `*` fits every domain, `*.suffix` a domain with something before `.suffix`'s dot or not, any
-- other pattern itself alone.
pub data Matches (domain pattern : Str) : Type 0 where
  any : pattern ≡ codes "*" → Matches domain pattern
  below :
      (suffix sub : Str)
      → suffix ≢ []
      → pattern ≡ Wildcard suffix
      → domain ≡ sub ++ b'.' ∷ suffix
      → Matches domain pattern
  exact :
      ((suffix : Str) → pattern ≡ Wildcard suffix → suffix ≡ [])
      → domain ≡ pattern
      → Matches domain pattern

module _ (domain : Str) (c : ℕ) (cs : Str) where
  wildcard_shape : match_domain_pattern domain (Wildcard (c ∷ cs)) ≡ (
      if leb (length domain) (suc (length cs))
      then false
      else if not (ends_with domain (c ∷ cs))
      then false
      else char_at domain (length domain - suc (length cs) - 1) == b'.')
  unfolding match_domain_pattern
  wildcard_shape = ground arith

  wildcard_facts :
      match_domain_pattern domain (Wildcard (c ∷ cs)) ≡ true
      → (k : ℕ) × (length domain ≡ suc k + suc (length cs))
        × (drop (suc k) domain ≡ c ∷ cs)
        × (char_at domain k ≡ b'.')
  unfolding ends_with
  wildcard_facts m =
      let k : ℕ = length domain - suc (length cs) - 1 in
      let longer : length domain ≡ suc k + suc (length cs) = ground (arith, wildcard_shape) in
      let e : length domain - suc (length cs) ≡ suc k = omega arith in
      (
        k,
        longer,
        rw (← e) (
            str_eq→eq (drop (length domain - suc (length cs)) domain) (c ∷ cs)
              (ground (arith, wildcard_shape))),
        ground (arith, wildcard_shape),
      )

  wildcard_sound :
      match_domain_pattern domain (Wildcard (c ∷ cs)) ≡ true
      → (sub : Str) × (domain ≡ sub ++ b'.' ∷ c ∷ cs)
  wildcard_sound m =
      let (k, longer, tail, dot) = wildcard_facts m in
      let (a, e, l) = split_at domain k (omega arith) in
      (a, e ∙ ap₂ (λ (x : ℕ) (t : Str). a ++ x ∷ t) dot tail)

head_byte : (c : ℕ) (s : Str) → char_at (c ∷ s) 0 ≡ c
unfolding char_at
head_byte c s = refl

wildcard_complete :
    (sub : Str) (c : ℕ) (cs : Str)
    → match_domain_pattern (sub ++ b'.' ∷ c ∷ cs) (Wildcard (c ∷ cs)) ≡ true
unfolding ends_with
wildcard_complete sub c cs =
    let domain : Str = sub ++ b'.' ∷ c ∷ cs in
    let size : length domain ≡ length sub + suc (suc (length cs)) = length-append sub _ in
    let e : length domain - suc (length cs) ≡ suc (length sub) = omega arith in
    let e' : length domain - suc (length cs) - 1 ≡ length sub = omega arith in
    ground (
      arith,
      wildcard_shape domain c cs,
      size,
      ap (λ (n : ℕ). drop n domain) e,
      drop-suc-append sub b'.' (c ∷ cs),
      str_eq_refl (c ∷ cs),
      ap (char_at domain) e',
      char_at-append sub (b'.' ∷ c ∷ cs),
      head_byte b'.' (c ∷ cs),
    )

not_wildcard :
    (p : Str) → is_wildcard p ≡ false → (suffix : Str) → p ≡ Wildcard suffix → suffix ≡ []
unfolding is_wildcard
not_wildcard p h [] e = refl
not_wildcard p h (c ∷ cs) e = absurd (ground (arith, ap is_wildcard e))

is_wildcard-shape :
    (p : Str) → is_wildcard p ≡ true → (c : ℕ) × (cs : Str) × (p ≡ Wildcard (c ∷ cs))
unfolding is_wildcard char_at
is_wildcard-shape [] h = absurd (ground arith)
is_wildcard-shape (a ∷ []) h = absurd (ground arith)
is_wildcard-shape (a ∷ b ∷ []) h = absurd (ground arith)
is_wildcard-shape (a ∷ b ∷ c ∷ cs) h = (c, cs, ground arith)

match_domain_pattern-Matches :
    (domain pattern : Str) → match_domain_pattern domain pattern ≡ true → Matches domain pattern
match_domain_pattern-Matches domain pattern h = elim (Bool-cases (str_eq pattern (codes "*"))) [
  | inl star ↦ any (str_eq→eq _ _ star)
  | inr other ↦ elim (Bool-cases (is_wildcard pattern)) [
    | inl wild ↦
        let (c, cs, e) = is_wildcard-shape pattern wild in
        let (sub, split) =
          wildcard_sound domain c cs (ap (match_domain_pattern domain) (sym e) ∙ h) in
        below (c ∷ cs) sub (λ k. cc) e split
    | inr plain ↦
        exact (not_wildcard pattern plain)
          (str_eq→eq _ _ (unfold match_domain_pattern in ground arith))
  ]
]

star_matches : (domain : Str) → match_domain_pattern domain (codes "*") ≡ true
unfolding match_domain_pattern
star_matches domain = refl

plain_matches :
    (domain pattern : Str)
    → is_wildcard pattern ≡ false
    → domain ≡ pattern
    → match_domain_pattern domain pattern ≡ true
plain_matches domain pattern plain e =
    unfold match_domain_pattern in ground (arith, str_eq_iff domain pattern)

Matches-match_domain_pattern :
    (domain pattern : Str) → Matches domain pattern → match_domain_pattern domain pattern ≡ true
Matches-match_domain_pattern domain pattern (any e) =
    ap (match_domain_pattern domain) e ∙ star_matches domain
Matches-match_domain_pattern domain pattern (below [] sub h e split) = absurd (h refl)
Matches-match_domain_pattern domain pattern (below (c ∷ cs) sub h e split) =
    rw (e, split) (wildcard_complete sub c cs)
Matches-match_domain_pattern domain pattern (exact h e) = elim (Bool-cases (is_wildcard pattern)) [
  | inl wild ↦ absurd (let (c, cs, w) = is_wildcard-shape pattern wild in cc (h (c ∷ cs) w))
  | inr plain ↦ plain_matches domain pattern plain e
]

-- match_domain_pattern holds exactly for the pairs of `Matches`.
pub match_domain_pattern_iff :
    (domain pattern : Str) → (match_domain_pattern domain pattern ≡ true) ↔ Matches domain pattern
match_domain_pattern_iff domain pattern =
    (match_domain_pattern-Matches domain pattern, Matches-match_domain_pattern domain pattern)

-- A pattern of the set fits the domain in lower case.
abbrev pub IsMatched : Str → List Str → Type 0
IsMatched domain set =
    (pattern : Str) × (mem pattern set ≡ true) × Matches (to_lower_copy domain) pattern

IsMatched-iff :
    (domain : Str) (set : List Str)
    → (exists_in (match_domain_pattern (to_lower_copy domain)) set ≡ true) ↔ IsMatched domain set
IsMatched-iff domain set = (
  λ h. let (p, m, t) = (exists_in_iff _ set).0 h in (p, m, match_domain_pattern-Matches _ p t),
  λ w. (exists_in_iff _ set).1 (w.0, w.1, Matches-match_domain_pattern _ w.0 w.2),
)

-- A domain is allowed exactly when no blocked pattern fits it and the allowed list is empty or an
-- allowed pattern fits it.
pub is_domain_allowed_iff :
    (s : Settings) (domain : Str)
    → (is_domain_allowed s domain ≡ true) ↔ (
        (¬ IsMatched domain s.blocked_domains)
        × ((s.allowed_domains ≡ []) ⊎ IsMatched domain s.allowed_domains))
is_domain_allowed_iff s domain =
    unfold is_domain_allowed in
    deny_first (IsMatched-iff domain s.blocked_domains) s.allowed_domains
      (IsMatched-iff domain s.allowed_domains)
