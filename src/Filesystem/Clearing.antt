-- ===== src/Filesystem/Clearing.antt =====
-- When run_clipboard_hook of src/filesystem/filesystem_enforcer.cpp clears the clipboard.
use silicon.Prelude.{
  ℕ, ◌+◌, ◌*◌, ◌≤◌, ◌≡◌, refl, inl, inr, Bool, true, false, not, ◌&&◌, some, List, [], ◌∷◌, ltb,
  if◌then◌else◌, arith, Bool-cases,
}
use silicon.Text.{Str}
use silicon.Config.State.{Settings}
use silicon.Config.Queries.{should_clear_clipboard, is_debug_mode}
use silicon.Filesystem.Types.{Time, ticks_per_second, Scan}
use silicon.Filesystem.Policy.{resolve_clipboard_clear_interval}
use silicon.Filesystem.Volumes.{add_line}
use silicon.Filesystem.Clipboard.{
  after_clear, clear_now, deadline_after, set_deadline, run_clipboard_hook,
}
use silicon.Filesystem.RateLimit.{Spaced, Spread}

-- Whether a call of the hook clears the clipboard.
abbrev pub clears_at : Settings → Time → Scan → Bool
clears_at config now s =
    should_clear_clipboard config
    && (s.has_next_clipboard_deadline
        && (not (ltb now s.next_clipboard_deadline)
            && (not s.clipboard_hook_disabled && not (is_debug_mode config))))

module _ (config : Settings) where
  after_clear-clears : (result : Bool × Str) (s : Scan) → (after_clear result s).clears ≡ s.clears
  unfolding after_clear add_line
  after_clear-clears (true, message) s = refl
  after_clear-clears (false, message) s = ground arith

  after_clear-deadline :
      (result : Bool × Str) (s : Scan)
      → ((after_clear result s).has_next_clipboard_deadline ≡ s.has_next_clipboard_deadline)
        × ((after_clear result s).next_clipboard_deadline ≡ s.next_clipboard_deadline)
  unfolding after_clear add_line
  after_clear-deadline (true, message) s = (refl, refl)
  after_clear-deadline (false, message) s = (ground arith, ground arith)

  clear_now-clears :
      (result : Bool × Str) (s : Scan)
      → (clear_now config result s).clears
        ≡ s.clears + (if not s.clipboard_hook_disabled && not (is_debug_mode config) then 1 else 0)
  unfolding clear_now add_line
  clear_now-clears result s =
      ground (arith, after_clear-clears result (record s { clears = s.clears + 1 }))

  clear_now-deadline :
      (result : Bool × Str) (s : Scan)
      → ((clear_now config result s).has_next_clipboard_deadline ≡ s.has_next_clipboard_deadline)
        × ((clear_now config result s).next_clipboard_deadline ≡ s.next_clipboard_deadline)
  unfolding clear_now add_line
  clear_now-deadline result s = (
    ground (arith, (after_clear-deadline result (record s { clears = s.clears + 1 })).0),
    ground (arith, (after_clear-deadline result (record s { clears = s.clears + 1 })).1),
  )

  -- One call of the hook clears the clipboard once when the policy asks for it, a deadline is set and
  -- has been reached, no clear has failed before and debug mode is off, and not at all otherwise.
  pub run_clipboard_hook-clears :
      (result : Bool × Str) (now : Time) (s : Scan)
      → (run_clipboard_hook (some config) result now s).clears
        ≡ s.clears + (if clears_at config now s then 1 else 0)
  unfolding run_clipboard_hook
  run_clipboard_hook-clears result now s =
      ground (arith, clear_now-clears result (set_deadline (some config) now s))

  -- A call that clears sets the next deadline; any other call leaves one that is set as far away.
  deadline_step :
      (result : Bool × Str) (now : Time) (s : Scan)
      → s.has_next_clipboard_deadline ≡ true
      → should_clear_clipboard config ≡ true
      → ((run_clipboard_hook (some config) result now s).has_next_clipboard_deadline ≡ true)
        × (((run_clipboard_hook (some config) result now s).next_clipboard_deadline ≡ (
            if ltb now s.next_clipboard_deadline
            then s.next_clipboard_deadline
            else deadline_after (some config) now)))
  unfolding run_clipboard_hook
  deadline_step result now s h c = (
    ground (arith, (clear_now-deadline result (set_deadline (some config) now s)).0),
    ground (arith, (clear_now-deadline result (set_deadline (some config) now s)).1),
  )

  -- The times, out of those of the calls, at which clear() is called.
  unfoldable pub clear_times : Scan → List (Time × (Bool × Str)) → List Time
  clear_times s [] = []
  clear_times s ((now, result) ∷ calls) =
      let t = run_clipboard_hook (some config) result now s in
      let rest = clear_times t calls in if ltb s.clears t.clears then now ∷ rest else rest

  -- A call clears exactly where the condition holds.
  clears_lem :
      (result : Bool × Str) (now : Time) (s : Scan)
      → ltb s.clears (run_clipboard_hook (some config) result now s).clears ≡ clears_at config now s
  clears_lem result now s = ground (arith, run_clipboard_hook-clears result now s)

  abbrev gap : ℕ
  gap = resolve_clipboard_clear_interval (some config) * ticks_per_second

  -- What a clear tells of the state before it.
  cleared :
      (now : Time) (s : Scan)
      → clears_at config now s ≡ true
      → (s.has_next_clipboard_deadline ≡ true)
        × (should_clear_clipboard config ≡ true)
        × (s.next_clipboard_deadline ≤ now)
  cleared now s e = (ground arith, ground arith, ground arith)

  module _ (result : Bool × Str) (now : Time) (s : Scan) where
    abbrev next : Scan
    next = run_clipboard_hook (some config) result now s

    next_after_clear : clears_at config now s ≡ true → now + gap ≤ next.next_clipboard_deadline
    unfolding deadline_after
    next_after_clear e =
        let (h, c, l) = cleared now s e in ground (arith, (deadline_step result now s h c).1)

    next_far :
        (from : Time)
        → s.has_next_clipboard_deadline ≡ true
        → should_clear_clipboard config ≡ true
        → from + gap ≤ s.next_clipboard_deadline
        → from + gap ≤ next.next_clipboard_deadline
    unfolding deadline_after
    next_far from h c l = ground (arith, (deadline_step result now s h c).1)

  later_clears :
      (s : Scan) (calls : List (Time × (Bool × Str))) (from : Time)
      → s.has_next_clipboard_deadline ≡ true
      → should_clear_clipboard config ≡ true
      → from + gap ≤ s.next_clipboard_deadline
      → Spaced gap from (clear_times s calls)
  unfolding clear_times
  later_clears s [] from h c l = tt
  later_clears s ((now, result) ∷ calls) from h c l =
      let (h', d) = deadline_step result now s h c in
      elim (Bool-cases (clears_at config now s)) [
        | inl e ↦
            rw (clears_lem result now s, e)
              (let (a, b, reached) = cleared now s e in
                (
                  omega (arith, l, reached),
                  later_clears (next result now s) calls now h' c (next_after_clear result now s e),
                ))
        | inr e ↦
            rw (clears_lem result now s, e)
              (later_clears (next result now s) calls from h' c (next_far result now s from h c l))
      ]

  -- Any two successive clears of the clipboard are at least the configured interval apart, whatever
  -- the clock does and whatever the clears return.
  pub clear_times-Spread :
      (s : Scan) (calls : List (Time × (Bool × Str)))
      → Spread
          (resolve_clipboard_clear_interval (some config) * ticks_per_second)
          (clear_times s calls)
  unfolding clear_times
  clear_times-Spread s [] = tt
  clear_times-Spread s ((now, result) ∷ calls) = elim (Bool-cases (clears_at config now s)) [
    | inl e ↦
        let (h, c, l) = cleared now s e in
        rw (clears_lem result now s, e)
          (later_clears (next result now s) calls now (deadline_step result now s h c).0 c
            (next_after_clear result now s e))
    | inr e ↦ rw (clears_lem result now s, e) (clear_times-Spread (next result now s) calls)
  ]
