-- ===== src/Process/Pids.antt =====
-- The enumeration of process IDs in src/process/process_enforcer.cpp.
use silicon.Prelude.{
  ℕ, zero, suc, ◌+◌, ◌/◌, ◌%◌, Bool, not, ◌||◌, List, [], ◌∷◌, leb, ◌==◌, if◌then◌else◌, is_empty,
}
use silicon.Prelude.Int.{ℤ, below, to_nat}
use silicon.Platform.{Outcome, done, failed}
use silicon.Process.Types.{Kernel}

-- EPERM and ENOMEM on macOS.
abbrev pub eperm : ℕ
eperm = 1

abbrev pub enomem : ℕ
enomem = 12

abbrev pub sysctl_retry_count : ℕ
sysctl_retry_count = 3

-- The loop over the first `count` entries of a buffer, with the test `pid > 0`.
unfoldable pub positive_pids : ℕ → List ℤ → List ℕ
positive_pids zero entries = []
positive_pids (suc count) [] = []
positive_pids (suc count) (pid ∷ entries) =
    let rest = positive_pids count entries in if below pid 1 then rest else to_nat pid ∷ rest

unfoldable pub insert_sorted : ℕ → List ℕ → List ℕ
insert_sorted pid [] = pid ∷ []
insert_sorted pid (x ∷ xs) =
    let rest = insert_sorted pid xs in if leb pid x then pid ∷ x ∷ xs else x ∷ rest

-- std::sort
unfoldable pub sort : List ℕ → List ℕ
sort [] = []
sort (pid ∷ pids) = insert_sorted pid (sort pids)

-- std::unique from its first element on: the elements after `last` that differ from the one before.
unfoldable pub unique_after : ℕ → List ℕ → List ℕ
unique_after last [] = []
unique_after last (x ∷ xs) = let rest = unique_after x xs in if x == last then rest else x ∷ rest

unfoldable pub unique : List ℕ → List ℕ
unique [] = []
unique (x ∷ xs) = x ∷ unique_after x xs

-- The process IDs of a buffer in ascending order, without repeats.
unfoldable pub collect_pids : ℕ → List ℤ → List ℕ
collect_pids count entries = unique (sort (positive_pids count entries))

-- `(errno != 0) ? errno : EPERM`
unfoldable pub errno_or_eperm : ℕ → ℕ
errno_or_eperm errno = if errno == 0 then eperm else errno

-- How one attempt with sysctl ends: with a return, out of the loop, or in the next attempt.
pub data Attempt : Type 0 where
  return : List ℕ → Attempt
  break : ℕ → Attempt
  retry : ℕ → Attempt

module _ (k : Kernel) where
  -- The process IDs and the error code. A buffer is never read past its end: proc_listallpids fills
  -- no more slots than it is given.
  unfoldable pub read_buffer : List ℤ × ℤ × ℕ → List ℕ × ℕ
  read_buffer (pid_buffer, filled, errno) =
      if below filled 1
      then ([], errno_or_eperm errno)
      else (collect_pids (to_nat filled) pid_buffer, 0)

  unfoldable pub enumerate_with_libproc : List ℕ × ℕ
  enumerate_with_libproc =
      let (count_hint, errno) = k.listallpids_hint in
      if below count_hint 1
      then ([], errno_or_eperm errno)
      else read_buffer (k.listallpids (to_nat count_hint))

  -- A size that is not a positive multiple of the size of an entry.
  abbrev pub is_garbage : ℕ → Bool
  is_garbage bytes = bytes == 0 || not (bytes % k.kinfo_proc_size == 0)

  unfoldable pub after_read : Outcome (List ℤ × ℕ) → Attempt
  after_read (failed errno) = if errno == enomem then retry errno else break errno
  after_read (done (process_entries, actual_bytes)) =
      if is_garbage actual_bytes
      then return []
      else return (collect_pids (actual_bytes / k.kinfo_proc_size) process_entries)

  unfoldable pub after_size : ℕ → Outcome ℕ → Attempt
  after_size attempt (failed errno) = break errno
  after_size attempt (done required_bytes) =
      if is_garbage required_bytes
      then return []
      else after_read (k.sysctl_entries attempt (required_bytes / k.kinfo_proc_size))

  -- What follows the loop.
  unfoldable pub fall_back : ℕ → List ℕ × ℕ
  fall_back sysctl_error =
      let (fallback_pids, fallback_error) = enumerate_with_libproc in
      if not (is_empty fallback_pids) then (fallback_pids, 0) else (
        [],
        if not (fallback_error == 0)
            then fallback_error
            else if not (sysctl_error == 0)
            then sysctl_error
            else enomem,
      )

  -- How the loop goes on after an attempt, given what the next one makes of an error.
  unfoldable pub conclude : (ℕ → List ℕ × ℕ) → Attempt → List ℕ × ℕ
  conclude next (return pids) = (pids, 0)
  conclude next (break errno) = fall_back errno
  conclude next (retry errno) = next errno

  -- The loop, with the attempts left and the number of the next one.
  unfoldable pub attempts : ℕ → ℕ → ℕ → List ℕ × ℕ
  attempts zero attempt sysctl_error = fall_back sysctl_error
  attempts (suc left) attempt sysctl_error =
      conclude (λ errno. attempts left (attempt + 1) errno)
        (after_size attempt (k.sysctl_size attempt))

  unfoldable pub enumerate_all_pids : List ℕ × ℕ
  enumerate_all_pids = attempts sysctl_retry_count 0 0
