-- ===== src/Filesystem/Snapshots.antt =====
-- What LocalFileSystem of src/filesystem/filesystem_enforcer.cpp finds.
use silicon.Prelude.{
  ℕ, ◌≡◌, refl, ◌∙◌, Bool, true, false, ap, sym, ◌++◌, ◌&&◌, ◌||◌, inl, inr, List, [], ◌∷◌, arith,
  Bool-cases,
}
use silicon.Text.{Str, str_eq, mem}
use silicon.Text.Laws.{str_eq_iff}
use silicon.Platform.{Outcome, done, failed}
use silicon.Filesystem.Types.{PathFingerprint, Snapshot}
use silicon.Filesystem.Polling.{find, contains, emplace}
use silicon.Filesystem.Local.{
  Disk, insert_sorted, sort, unique_after, unique, directories_of, listing_of, list_directories,
  note_path, visit, finish, walk_root, with_root, with_exists, snapshot_tree, fill_fingerprint,
}

mem-insert_sorted :
    (p s : Str) (ts : List Str) → mem p (insert_sorted s ts) ≡ (str_eq s p || mem p ts)
unfolding insert_sorted mem
mem-insert_sorted p s [] = ground arith
mem-insert_sorted p s (t ∷ ts) = ground (arith, mem-insert_sorted p s ts)

mem-sort : (p : Str) (ts : List Str) → mem p (sort ts) ≡ mem p ts
unfolding sort mem
mem-sort p [] = refl
mem-sort p (t ∷ ts) = ground (arith, mem-sort p ts, mem-insert_sorted p t (sort ts))

mem-unique_after :
    (p last : Str) (ts : List Str)
    → (str_eq last p || mem p (unique_after last ts)) ≡ (str_eq last p || mem p ts)
unfolding unique_after mem
mem-unique_after p last [] = ground arith
mem-unique_after p last (t ∷ ts) = ground (arith, mem-unique_after p t ts, str_eq_iff last t)

mem-unique : (p : Str) (ts : List Str) → mem p (unique ts) ≡ mem p ts
unfolding unique mem
mem-unique p [] = refl
mem-unique p (t ∷ ts) = ground (arith, mem-unique_after p t ts)

-- Whether an iteration that could begin came to the path and found it a directory.
abbrev pub is_listed : Str → Outcome (List (Str × Outcome Bool)) → Bool
is_listed path (failed code) = false
is_listed path (done []) = false
is_listed path (done ((entry, done is_dir) ∷ entries)) =
    str_eq entry path && is_dir || is_listed path (done entries)
is_listed path (done ((entry, failed code) ∷ entries)) = is_listed path (done entries)

abbrev pub begins : Outcome (List (Str × Outcome Bool)) → Bool
begins (failed code) = false
begins (done entries) = true

mem-directories_of :
    (path : Str) (entries : List (Str × Outcome Bool))
    → mem path (directories_of entries) ≡ is_listed path (done entries)
unfolding directories_of mem
mem-directories_of path [] = refl
mem-directories_of path ((entry, done true) ∷ entries) =
    ground (arith, mem-directories_of path entries)
mem-directories_of path ((entry, done false) ∷ entries) =
    ground (arith, mem-directories_of path entries)
mem-directories_of path ((entry, failed code) ∷ entries) = mem-directories_of path entries

listing_of_lem :
    (path : Str) (o : Outcome (List (Str × Outcome Bool)))
    → ((listing_of o).listed ≡ begins o) × (mem path (listing_of o).directories ≡ is_listed path o)
unfolding listing_of mem
listing_of_lem path (failed code) = (refl, refl)
listing_of_lem path (done entries) = (
  refl,
  mem-unique path (sort (directories_of entries))
      ∙ mem-sort path (directories_of entries)
      ∙ mem-directories_of path entries,
)

-- A listing holds exactly the paths at which the iteration found a directory, whatever sorting and
-- dropping repeats do to their order: no file, no entry that could not be looked at, and nothing at
-- all where the iteration could not begin; and it succeeds exactly where the iteration could begin.
pub mem-list_directories :
    (d : Disk) (root path : Str)
    → ((list_directories d root).listed ≡ begins (d.entries root))
      × (mem path (list_directories d root).directories ≡ is_listed path (d.entries root))
unfolding list_directories
mem-list_directories d root path = listing_of_lem path (d.entries root)

contains_nil : (p : Str) → contains p [] ≡ false
unfolding contains find
contains_nil p = refl

contains-append :
    (p q : Str) (f : PathFingerprint) (s : Snapshot)
    → contains p (s ++ (q, f) ∷ []) ≡ (str_eq q p || contains p s)
unfolding contains find
contains-append p q f [] = ground arith
contains-append p q f ((k, g) ∷ s) = ground (arith, contains-append p q f s)

contains-same : (p q : Str) (s : Snapshot) → str_eq q p ≡ true → contains p s ≡ contains q s
contains-same p q s e = ap (λ (t : Str). contains t s) (sym ((str_eq_iff q p).0 e))

contains-emplace :
    (p q : Str) (f : PathFingerprint) (s : Snapshot)
    → contains p (emplace q f s) ≡ (str_eq q p || contains p s)
unfolding emplace
contains-emplace p q f s = elim (Bool-cases (str_eq q p)) [
  | inl e ↦ ground (arith, contains-append p q f s, contains-same p q s e)
  | inr e ↦ ground (arith, contains-append p q f s)
]

-- A fingerprint could be taken.
abbrev pub is_done : Outcome PathFingerprint → Bool
is_done (done f) = true
is_done (failed code) = false

-- The path is among the positions of the walk, and its fingerprint could be taken.
abbrev pub is_visited : Disk → Str → List (Outcome Str) → Bool
is_visited d p [] = false
is_visited d p (failed code ∷ positions) = is_visited d p positions
is_visited d p (done path ∷ positions) =
    str_eq path p && is_done (fill_fingerprint d path) || is_visited d p positions

module _ (d : Disk) (p : Str) where
  contains-note_path :
      (path : Str) (r : Outcome PathFingerprint) (acc : Snapshot × ℕ)
      → contains p (note_path d path r acc).0 ≡ (str_eq path p && is_done r || contains p acc.0)
  unfolding note_path
  contains-note_path path (failed code) (s, n) = ground arith
  contains-note_path path (done f) (s, n) = ground (arith, contains-emplace p path f s)

  contains-visit :
      (positions : List (Outcome Str)) (acc : Snapshot × ℕ)
      → contains p (visit d positions acc).0 ≡ (is_visited d p positions || contains p acc.0)
  unfolding visit
  contains-visit [] acc = refl
  contains-visit (failed code ∷ positions) (s, n) = contains-visit positions _
  contains-visit (done path ∷ positions) acc =
      let r = fill_fingerprint d path in
      ground
        (arith, contains-visit positions (note_path d path r acc), contains-note_path path r acc)

-- A snapshot of a root that is there, has a fingerprint and can be walked succeeds and holds the
-- root and exactly the paths of the walk whose fingerprint could be taken: an entry that cannot be
-- read is left out and ends nothing.
pub contains-snapshot_tree :
    (d : Disk) (root p : Str) (f : PathFingerprint) (positions : List (Outcome Str))
    → d.exists root ≡ done true
    → fill_fingerprint d root ≡ done f
    → d.walk root ≡ done positions
    → ((snapshot_tree d root).ok ≡ true)
      × (contains p (snapshot_tree d root).snapshot ≡ (is_visited d p positions || str_eq root p))
unfolding snapshot_tree with_exists with_root walk_root finish
contains-snapshot_tree d root p f positions e g w =
    rw (e, g, w)
      (
        refl,
        contains-visit d p positions (emplace root f [], 0)
            ∙ ap (λ b. is_visited d p positions || b)
                (contains-emplace p root f [] ∙ ground (arith, contains_nil p)),
      )

-- A root that is there and whose walk cannot begin, as that of a file that is no directory, fails
-- with the code of the walk, though its fingerprint could be taken.
pub snapshot_tree-no_walk :
    (d : Disk) (root : Str) (f : PathFingerprint) (code : ℕ)
    → d.exists root ≡ done true
    → fill_fingerprint d root ≡ done f
    → d.walk root ≡ failed code
    → ((snapshot_tree d root).ok ≡ false) × ((snapshot_tree d root).error_code ≡ code)
unfolding snapshot_tree with_exists with_root walk_root
snapshot_tree-no_walk d root f code e g w = rw (e, g, w) (refl, refl)
