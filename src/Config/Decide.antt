-- ===== src/Config/Decide.antt =====
-- The order of the tests in isProcessAllowed and isDomainAllowed of src/config/config_manager.cpp:
-- a blocked match denies, an empty allowed list permits, an allowed match permits.
use silicon.Prelude.{
  ◌≡◌, ◌↔◌, ◌⊎◌, inl, inr, Bool, true, false, List, [], ◌∷◌, arith, if◌then◌else◌, is_empty,
  exists_in, Bool-cases, ap,
}
use silicon.Text.{Str, mem}
use silicon.Text.Laws.{str_eq_iff}

module _ {P Q : Type 0} {b a : Bool} (blocked : (b ≡ true) ↔ P) (set : List Str)
    (allowed : (a ≡ true) ↔ Q) where
  abbrev verdict : Bool
  verdict = if b then false else if is_empty set then true else a

  denies : verdict ≡ true → ¬ P
  denies h p = ground (arith, blocked.1 p)

  permits : verdict ≡ true → (set ≡ []) ⊎ Q
  permits h = elim (Bool-cases (is_empty set)) [
    | inl e ↦ inl (ground arith)
    | inr e ↦ inr (allowed.0 (ground arith))
  ]

  decided : (¬ P) × ((set ≡ []) ⊎ Q) → verdict ≡ true
  decided (out, ok) = elim (Bool-cases b) [
    | inl hit ↦ absurd (out (blocked.0 hit))
    | inr miss ↦ elim ok [ inl e ↦ ground arith | inr q ↦ ground (arith, allowed.1 q) ]
  ]

  pub deny_first : (verdict ≡ true) ↔ ((¬ P) × ((set ≡ []) ⊎ Q))
  deny_first = (λ h. (denies h, permits h), decided)

module _ (p : Str → Bool) where
  found : (xs : List Str) → exists_in p xs ≡ true → (x : Str) × (mem x xs ≡ true) × (p x ≡ true)
  unfolding exists_in mem
  found [] h = absurd (ground arith)
  found (x ∷ xs) h = elim (Bool-cases (p x)) [
    | inl hit ↦ (x, ground (arith, str_eq_iff x x), hit)
    | inr miss ↦ let (y, m, t) = found xs (ground arith) in (y, ground arith, t)
  ]

  finds : (xs : List Str) (x : Str) → mem x xs ≡ true → p x ≡ true → exists_in p xs ≡ true
  unfolding exists_in mem
  finds [] x m t = absurd (ground arith)
  finds (y ∷ ys) x m t = ground (arith, str_eq_iff y x, ap p, finds ys x)

  -- Some element passes the test.
  pub exists_in_iff :
      (xs : List Str) → (exists_in p xs ≡ true) ↔ ((x : Str) × (mem x xs ≡ true) × (p x ≡ true))
  exists_in_iff xs = (found xs, λ w. finds xs w.0 w.1 w.2)

  pub exists_in-none :
      (xs : List Str) (x : Str) → exists_in p xs ≡ false → mem x xs ≡ true → p x ≡ false
  exists_in-none xs x h m = elim (Bool-cases (p x)) [
    | inl hit ↦ absurd (ground (arith, finds xs x m hit))
    | inr miss ↦ miss
  ]
