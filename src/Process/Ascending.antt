-- ===== src/Process/Ascending.antt =====
-- The order of the process IDs that src/process/process_enforcer.cpp enumerates.
use silicon.Prelude.{
  ℕ, zero, suc, ◌+◌, ◌/◌, ◌≤◌, ◌<◌, ◌≡◌, refl, Bool, false, ◌||◌, ◌&&◌, List, [], ◌∷◌, ◌==◌, arith,
  ltb, take, exists_in,
}
use silicon.Prelude.Int.{ℤ, pos, negsuc, to_nat, eq_int}
use silicon.Platform.{Outcome, done, failed}
use silicon.Process.Types.{Kernel}
use silicon.Process.Pids.{
  positive_pids, insert_sorted, sort, unique_after, unique, collect_pids, read_buffer,
  enumerate_with_libproc, fall_back, after_read, after_size, conclude, attempts, enumerate_all_pids,
  Attempt, return, break, retry,
}

-- Each element is at least the one before it, the first at least `low`.
abbrev Rising : ℕ → List ℕ → Type 0
Rising low [] = Unit {0}
Rising low (x ∷ xs) = (low ≤ x) × Rising x xs

-- Each element is above the one before it, the first above `low`.
abbrev pub Above : ℕ → List ℕ → Type 0
Above low [] = Unit {0}
Above low (x ∷ xs) = (low < x) × Above x xs

insert_sorted-Rising :
    (low pid : ℕ) (xs : List ℕ) → low ≤ pid → Rising low xs → Rising low (insert_sorted pid xs)
unfolding insert_sorted
insert_sorted-Rising low pid [] l h = (l, tt)
insert_sorted-Rising low pid (x ∷ xs) l h = ground (arith, insert_sorted-Rising x pid xs)

positive_sort-Rising :
    (count : ℕ) (entries : List ℤ) → Rising 1 (sort (positive_pids count entries))
unfolding positive_pids sort
positive_sort-Rising zero entries = tt
positive_sort-Rising (suc count) [] = tt
positive_sort-Rising (suc count) (pid ∷ entries) = ground (
  arith,
  insert_sorted-Rising 1 (to_nat pid) (sort (positive_pids count entries)),
  positive_sort-Rising count entries,
)

unique_after-Above : (last : ℕ) (xs : List ℕ) → Rising last xs → Above last (unique_after last xs)
unfolding unique_after
unique_after-Above last [] h = tt
unique_after-Above last (x ∷ xs) h = ground (arith, unique_after-Above x xs h.1)

unique-Above : (xs : List ℕ) → Rising 1 xs → Above 0 (unique xs)
unfolding unique
unique-Above [] h = tt
unique-Above (x ∷ xs) h = (omega (arith, h.0), unique_after-Above x xs h.1)

collect_pids-Above : (count : ℕ) (entries : List ℤ) → Above 0 (collect_pids count entries)
unfolding collect_pids
collect_pids-Above count entries = unique-Above _ (positive_sort-Rising count entries)

-- Whether an ID is in the list.
abbrev pub elem : ℕ → List ℕ → Bool
elem p [] = false
elem p (x ∷ xs) = p == x || elem p xs

elem-insert_sorted :
    (p pid : ℕ) (xs : List ℕ) → elem p (insert_sorted pid xs) ≡ (p == pid || elem p xs)
unfolding insert_sorted
elem-insert_sorted p pid [] = refl
elem-insert_sorted p pid (x ∷ xs) = ground (arith, elem-insert_sorted p pid xs)

elem-sort : (p : ℕ) (xs : List ℕ) → elem p (sort xs) ≡ elem p xs
unfolding sort
elem-sort p [] = refl
elem-sort p (x ∷ xs) = ground (arith, elem-sort p xs, elem-insert_sorted p x (sort xs))

elem-unique_after :
    (p last : ℕ) (xs : List ℕ)
    → (p == last || elem p (unique_after last xs)) ≡ (p == last || elem p xs)
unfolding unique_after
elem-unique_after p last [] = refl
elem-unique_after p last (x ∷ xs) = ground (arith, elem-unique_after p x xs)

elem-unique : (p : ℕ) (xs : List ℕ) → elem p (unique xs) ≡ elem p xs
unfolding unique
elem-unique p [] = refl
elem-unique p (x ∷ xs) = elem-unique_after p x xs

-- Whether the ID stands among the first `count` entries of a buffer.
abbrev pub is_reported : ℕ → ℕ → List ℤ → Bool
is_reported p count entries = exists_in (λ pid. eq_int pid (pos p)) (take count entries)

elem-positive_pids :
    (p count : ℕ) (entries : List ℤ)
    → elem p (positive_pids count entries) ≡ (ltb 0 p && is_reported p count entries)
unfolding positive_pids exists_in
elem-positive_pids p zero entries = ground arith
elem-positive_pids p (suc count) [] = ground arith
elem-positive_pids p (suc count) (pos n ∷ entries) =
    ground (arith, elem-positive_pids p count entries)
elem-positive_pids p (suc count) (negsuc n ∷ entries) =
    ground (arith, elem-positive_pids p count entries)

-- The IDs collected from a buffer are exactly those that are positive and stand among its first
-- `count` entries: 0, which is the kernel's, and negative entries are left out, and no ID is lost.
pub elem-collect_pids :
    (p count : ℕ) (entries : List ℤ)
    → elem p (collect_pids count entries) ≡ (ltb 0 p && is_reported p count entries)
unfolding collect_pids
elem-collect_pids p count entries = ground (
  arith,
  elem-unique p (sort (positive_pids count entries)),
  elem-sort p (positive_pids count entries),
  elem-positive_pids p count entries,
)

module _ (k : Kernel) where
  read_buffer-Above : (r : List ℤ × ℤ × ℕ) → Above 0 (read_buffer k r).0
  unfolding read_buffer
  read_buffer-Above (pid_buffer, filled, errno) =
      ground (arith, collect_pids-Above (to_nat filled) pid_buffer)

  enumerate_with_libproc-Above : Above 0 (enumerate_with_libproc k).0
  unfolding enumerate_with_libproc
  enumerate_with_libproc-Above =
      ground (arith, read_buffer-Above (k.listallpids (to_nat k.listallpids_hint.0)))

  fall_back-Above : (sysctl_error : ℕ) → Above 0 (fall_back k sysctl_error).0
  unfolding fall_back
  fall_back-Above sysctl_error = ground (arith, enumerate_with_libproc-Above)

  -- What a return hands back.
  abbrev ReturnsAbove : Attempt → Type 0
  ReturnsAbove (return pids) = Above 0 pids
  ReturnsAbove (break errno) = Unit
  ReturnsAbove (retry errno) = Unit

  after_read-Above : (r : Outcome (List ℤ × ℕ)) → ReturnsAbove (after_read k r)
  unfolding after_read
  after_read-Above (failed errno) = ground arith
  after_read-Above (done (process_entries, actual_bytes)) =
      ground (arith, collect_pids-Above (actual_bytes / k.kinfo_proc_size) process_entries)

  after_size-Above : (attempt : ℕ) (r : Outcome ℕ) → ReturnsAbove (after_size k attempt r)
  unfolding after_size
  after_size-Above attempt (failed errno) = tt
  after_size-Above attempt (done required_bytes) =
      ground
        (arith, after_read-Above (k.sysctl_entries attempt (required_bytes / k.kinfo_proc_size)))

  conclude-Above :
      (next : ℕ → List ℕ × ℕ) (r : Attempt)
      → ((errno : ℕ) → Above 0 (next errno).0)
      → ReturnsAbove r
      → Above 0 (conclude k next r).0
  unfolding conclude
  conclude-Above next (return pids) f h = h
  conclude-Above next (break errno) f h = fall_back-Above errno
  conclude-Above next (retry errno) f h = f errno

  attempts-Above :
      (left attempt sysctl_error : ℕ) → Above 0 (attempts k left attempt sysctl_error).0
  unfolding attempts
  attempts-Above zero attempt sysctl_error = fall_back-Above sysctl_error
  attempts-Above (suc left) attempt sysctl_error =
      conclude-Above (λ errno. attempts k left (attempt + 1) errno)
        (after_size k attempt (k.sysctl_size attempt))
        (λ errno. attempts-Above left (attempt + 1) errno)
        (after_size-Above attempt (k.sysctl_size attempt))

  -- The process IDs that a scan goes through are positive, in ascending order and without repeats,
  -- whichever of sysctl and libproc gave them.
  pub enumerate_all_pids-Above : Above 0 (enumerate_all_pids k).0
  unfolding enumerate_all_pids
  enumerate_all_pids-Above = attempts-Above _ 0 0
