-- ===== src/Process/Codes.antt =====
-- The error codes of the process enumeration in src/process/process_enforcer.cpp.
use silicon.Prelude.{ℕ, zero, suc, ◌+◌, ◌≡◌, ◌≢◌, refl, ◌⊎◌, inl, true, List, [], arith}
use silicon.Platform.{done}
use silicon.Process.Types.{Kernel}
use silicon.Process.Pids.{
  fall_back, after_size, conclude, attempts, enumerate_all_pids, Attempt, return, break, retry,
  is_garbage, sysctl_retry_count,
}

module _ (k : Kernel) where
  -- A result is process IDs with code 0, or no IDs.
  abbrev IsClean : List ℕ × ℕ → Type 0
  IsClean r = (r.1 ≡ 0) ⊎ (r.0 ≡ [])

  fall_back-IsClean : (sysctl_error : ℕ) → IsClean (fall_back k sysctl_error)
  unfolding fall_back
  fall_back-IsClean e = ground arith

  conclude-IsClean :
      (next : ℕ → List ℕ × ℕ) (r : Attempt)
      → ((errno : ℕ) → IsClean (next errno))
      → IsClean (conclude k next r)
  unfolding conclude
  conclude-IsClean next (return pids) f = inl refl
  conclude-IsClean next (break errno) f = fall_back-IsClean errno
  conclude-IsClean next (retry errno) f = f errno

  attempts-IsClean :
      (left attempt sysctl_error : ℕ) → IsClean (attempts k left attempt sysctl_error)
  unfolding attempts
  attempts-IsClean zero attempt e = fall_back-IsClean e
  attempts-IsClean (suc left) attempt e =
      conclude-IsClean (λ errno. attempts k left (attempt + 1) errno)
        (after_size k attempt (k.sysctl_size attempt))
        (λ errno. attempts-IsClean left (attempt + 1) errno)

  -- An enumeration that sets an error code gives no process ID.
  pub enumerate_all_pids-error : (enumerate_all_pids k).1 ≢ 0 → (enumerate_all_pids k).0 ≡ []
  unfolding enumerate_all_pids
  enumerate_all_pids-error h = ground (arith, attempts-IsClean sysctl_retry_count 0 0)

  -- When the kernel gives a size that is not a positive multiple of the size of an entry, the
  -- enumeration ends with no process ID and no error, and libproc is not asked.
  pub enumerate_all_pids-garbage :
      (bytes : ℕ)
      → k.sysctl_size 0 ≡ done bytes
      → is_garbage k bytes ≡ true
      → enumerate_all_pids k ≡ ([], 0)
  unfolding enumerate_all_pids attempts conclude after_size
  enumerate_all_pids-garbage bytes h g = ground (arith, h, g)
