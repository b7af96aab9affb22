-- ===== src/Filesystem/Diff.antt =====
-- What the snapshot comparison of src/filesystem/filesystem_enforcer.cpp reports.
use silicon.Prelude.{
  ◌≡◌, refl, ap, Bool, true, false, Option, none, some, List, [], ◌∷◌, ◌++◌, arith, Option-cases,
  inl, inr, if◌then◌else◌, not, ◌&&◌,
}
use silicon.Text.{Str, str_eq}
use silicon.Text.Laws.{str_eq_iff}
use silicon.Filesystem.Types.{PathFingerprint, Snapshot}
use silicon.Filesystem.Helpers.{fingerprints_equal}
use silicon.Filesystem.Polling.{
  find, contains, emplace, insert_range, Action, created, modified, deleted, PathEvent, changes,
  deletions, diff, compare_with,
}

abbrev same_action : Action → Action → Bool
same_action created created = true
same_action modified modified = true
same_action deleted deleted = true
same_action _ _ = false

-- Whether the event is among those.
pub occurs : Action → Str → List PathEvent → Bool
occurs action path [] = false
occurs action path (event ∷ events) =
    let rest = occurs action path events in
    if same_action event.action action && str_eq event.path path then true else rest

occurs-append :
    (a : Action) (p : Str) (xs ys : List PathEvent)
    → occurs a p (xs ++ ys) ≡ (if occurs a p xs then true else occurs a p ys)
unfolding occurs
occurs-append a p [] ys = refl
occurs-append a p (x ∷ xs) ys = ground (arith, occurs-append a p xs ys)

-- Both are there, and differ.
abbrev pub has_changed : Option PathFingerprint → Option PathFingerprint → Bool
has_changed (some previous) (some fingerprint) = not (fingerprints_equal previous fingerprint)
has_changed (some previous) none = false
has_changed none fingerprint = false

-- No key twice.
abbrev pub Unique : Snapshot → Type 0
Unique [] = Unit {0}
Unique ((path, fingerprint) ∷ snapshot) = (find path snapshot ≡ none) × Unique snapshot

occurs-created :
    (p : Str) (known current : Snapshot)
    → occurs created p (changes known current) ≡ (contains p current && not (contains p known))
unfolding occurs changes contains compare_with find
occurs-created p known [] = refl
occurs-created p known ((q, f) ∷ current) =
    ground (arith, str_eq_iff q p, ap (λ (t : Str). find t known), occurs-created p known current)

occurs-modified :
    (p : Str) (known current : Snapshot)
    → Unique current
    → occurs modified p (changes known current) ≡ has_changed (find p known) (find p current)
unfolding occurs changes compare_with find
occurs-modified p known [] u = ground arith
occurs-modified p known ((q, f) ∷ current) u = ground (
  arith,
  str_eq_iff q p,
  ap (λ (t : Str). find t known),
  ap (λ (t : Str). find t current),
  u.0,
  occurs-modified p known current u.1,
)

not_deleted :
    (p : Str) (known current : Snapshot) → occurs deleted p (changes known current) ≡ false
unfolding occurs changes compare_with
not_deleted p known [] = refl
not_deleted p known ((q, f) ∷ current) = ground (arith, not_deleted p known current)

only_deleted :
    (p : Str) (current known : Snapshot)
    → (occurs created p (deletions current known) ≡ false)
      × (occurs modified p (deletions current known) ≡ false)
unfolding occurs deletions
only_deleted p current [] = (refl, refl)
only_deleted p current ((q, f) ∷ known) = ground (arith, only_deleted p current known)

occurs-deleted :
    (p : Str) (current known : Snapshot)
    → occurs deleted p (deletions current known) ≡ (contains p known && not (contains p current))
unfolding occurs deletions contains find
occurs-deleted p current [] = refl
occurs-deleted p current ((q, f) ∷ known) =
    ground (arith, str_eq_iff q p, ap (λ (t : Str). find t current), occurs-deleted p current known)

-- Two snapshots, the current one with no key twice: a path is reported created exactly if only the
-- current one has it, modified exactly if both have it with different fingerprints, and deleted
-- exactly if only the known one has it.
pub diff_events :
    (p : Str) (known current : Snapshot)
    → Unique current
    → (occurs created p (diff known current) ≡ (contains p current && not (contains p known)))
      × (occurs modified p (diff known current) ≡ has_changed (find p known) (find p current))
      × (occurs deleted p (diff known current) ≡ (contains p known && not (contains p current)))
unfolding diff
diff_events p known current u = (
  ground (
    arith,
    occurs-append created p (changes known current) (deletions current known),
    occurs-created p known current,
    only_deleted p current known,
  ),
  ground (
    arith,
    occurs-append modified p (changes known current) (deletions current known),
    occurs-modified p known current u,
    only_deleted p current known,
  ),
  ground (
    arith,
    occurs-append deleted p (changes known current) (deletions current known),
    not_deleted p known current,
    occurs-deleted p current known,
  ),
)

find-append :
    (p : Str) (xs ys : Snapshot)
    → find p (xs ++ ys) ≡ elim (find p xs) [ some f ↦ some f | none ↦ find p ys ]
unfolding find
find-append p [] ys = refl
find-append p ((q, f) ∷ xs) ys = ground (arith, find-append p xs ys)

append-Unique :
    (s : Snapshot) (p : Str) (f : PathFingerprint)
    → find p s ≡ none
    → Unique s
    → Unique (s ++ (p, f) ∷ [])
unfolding find
append-Unique [] p f h u = (refl, tt)
append-Unique ((q, g) ∷ s) p f h u = (
  ground (arith, find-append q s ((p, f) ∷ []), u.0, str_eq_iff q p, str_eq_iff p q),
  append-Unique s p f (ground arith) u.1,
)

pub emplace-Unique :
    (p : Str) (f : PathFingerprint) (s : Snapshot) → Unique s → Unique (emplace p f s)
unfolding emplace contains
emplace-Unique p f s u = elim (Option-cases (find p s)) [
  | inl e ↦ rw e (append-Unique s p f e u)
  | inr (g, e) ↦ rw e u
]

-- The snapshot that monitor_paths_polling builds root by root has no key twice.
pub insert_range-Unique : (s added : Snapshot) → Unique s → Unique (insert_range s added)
unfolding insert_range
insert_range-Unique s [] u = u
insert_range-Unique s ((p, f) ∷ added) u =
    insert_range-Unique (emplace p f s) added (emplace-Unique p f s u)
