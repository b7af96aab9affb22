-- ===== src/Config/Dedupe.antt =====
-- What dedupe_preserve_order of src/config/config_manager.cpp computes.
use silicon.Prelude.{
  ◌≡◌, refl, ap, ◌∙◌, sym, Bool, true, false, not, List, [], ◌∷◌, ◌++◌, arith, ◌&&◌, inl, inr,
  Bool-cases, if◌then◌else◌, keep,
}
use mathlib.Core.List.{append_assoc, append-nil}
use silicon.Text.{Str, mem, str_eq, set_insert}
use silicon.Text.Laws.{mem-set_insert, str_eq_iff}
use silicon.Config.Helpers.{dedupe_preserve_order, dedupe_from}

-- The first occurrence of each item, in the order of the input.
unfoldable pub first_occurrences : List Str → List Str
first_occurrences [] = []
first_occurrences (x ∷ xs) = x ∷ keep (λ y. not (str_eq x y)) (first_occurrences xs)

-- No item twice.
abbrev pub NoRepeats : List Str → Type 0
NoRepeats [] = Unit
NoRepeats (x ∷ xs) = (mem x xs ≡ false) × NoRepeats xs

-- The items that are not in `seen`.
abbrev fresh : List Str → List Str → List Str
fresh seen = keep (λ y. not (mem y seen))

pub mem-keep : (s : Str) (p : Str → Bool) (xs : List Str) → mem s (keep p xs) ≡ (mem s xs && p s)
unfolding mem keep
mem-keep s p [] = refl
mem-keep s p (x ∷ xs) = ground (arith, mem-keep s p xs, str_eq_iff x s, ap p)

pub keep-keep : (p q : Str → Bool) (xs : List Str) → keep p (keep q xs) ≡ keep (λ x. q x && p x) xs
unfolding keep
keep-keep p q [] = refl
keep-keep p q (x ∷ xs) = ground (arith, keep-keep p q xs)

pub keep-ext : (p q : Str → Bool) (xs : List Str) → ((x : Str) → p x ≡ q x) → keep p xs ≡ keep q xs
unfolding keep
keep-ext p q [] h = refl
keep-ext p q (x ∷ xs) h = ground (arith, keep-ext p q xs h, h x)

place :
    (b : Bool) (out rest : List Str) (x : Str)
    → (if b then out else out ++ x ∷ []) ++ rest ≡ out ++ (if not b then x ∷ rest else rest)
place true out rest x = refl
place false out rest x = append_assoc out (x ∷ []) rest

-- One more item in `seen` drops it from what is fresh.
fresh-insert :
    (x : Str) (seen xs : List Str)
    → fresh (set_insert x seen) xs ≡ fresh seen (keep (λ y. not (str_eq x y)) xs)
fresh-insert x seen xs =
    keep-ext _ _ xs (λ y. ground (arith, mem-set_insert y x seen))
    ∙ sym (keep-keep (λ y. not (mem y seen)) (λ y. not (str_eq x y)) xs)

dedupe_from-fresh :
    (xs seen output : List Str)
    → dedupe_from xs seen output ≡ output ++ fresh seen (first_occurrences xs)
unfolding dedupe_from first_occurrences keep
dedupe_from-fresh [] seen output = sym (append-nil output)
dedupe_from-fresh (x ∷ xs) seen output =
    dedupe_from-fresh xs (set_insert x seen) (if mem x seen then output else output ++ x ∷ [])
    ∙ ap (◌++◌ (if mem x seen then output else output ++ x ∷ []))
        (fresh-insert x seen (first_occurrences xs))
    ∙ place (mem x seen) output (fresh seen (keep (λ y. not (str_eq x y)) (first_occurrences xs))) x

pub keep_all : (p : Str → Bool) (xs : List Str) → ((x : Str) → p x ≡ true) → keep p xs ≡ xs
unfolding keep
keep_all p [] h = refl
keep_all p (x ∷ xs) h = ground (arith, h x, keep_all p xs h)

-- The loop over a set of the items seen returns the first occurrence of each item, in order.
pub dedupe_preserve_order-first_occurrences :
    (xs : List Str) → dedupe_preserve_order xs ≡ first_occurrences xs
unfolding dedupe_preserve_order
dedupe_preserve_order-first_occurrences xs = dedupe_from-fresh xs [] [] ∙ keep_all _ _ (λ y. refl)

mem-first_occurrences : (s : Str) (xs : List Str) → mem s (first_occurrences xs) ≡ mem s xs
unfolding first_occurrences mem
mem-first_occurrences s [] = refl
mem-first_occurrences s (x ∷ xs) =
    ground
      (arith, mem-keep s (λ y. not (str_eq x y)) (first_occurrences xs), mem-first_occurrences s xs)

keep-NoRepeats : (p : Str → Bool) (xs : List Str) → NoRepeats xs → NoRepeats (keep p xs)
unfolding keep
keep-NoRepeats p [] h = tt
keep-NoRepeats p (x ∷ xs) h = elim (Bool-cases (p x)) [
  | inl e ↦ rw e (rw (mem-keep x p xs, h.0) refl, keep-NoRepeats p xs h.1)
  | inr e ↦ rw e (keep-NoRepeats p xs h.1)
]

first_occurrences-NoRepeats : (xs : List Str) → NoRepeats (first_occurrences xs)
unfolding first_occurrences
first_occurrences-NoRepeats [] = tt
first_occurrences-NoRepeats (x ∷ xs) = (
  ground (arith, mem-keep x (λ y. not (str_eq x y)) (first_occurrences xs), str_eq_iff x x),
  keep-NoRepeats _ _ (first_occurrences-NoRepeats xs),
)

pub mem-dedupe_preserve_order :
    (s : Str) (xs : List Str) → mem s (dedupe_preserve_order xs) ≡ mem s xs
mem-dedupe_preserve_order s xs =
    rw (dedupe_preserve_order-first_occurrences xs) (mem-first_occurrences s xs)

pub dedupe_preserve_order-NoRepeats : (xs : List Str) → NoRepeats (dedupe_preserve_order xs)
dedupe_preserve_order-NoRepeats xs =
    rw (dedupe_preserve_order-first_occurrences xs) (first_occurrences-NoRepeats xs)
