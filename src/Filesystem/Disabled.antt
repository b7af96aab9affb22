-- ===== src/Filesystem/Disabled.antt =====
-- What a failed clear of the clipboard does to the later calls of run_clipboard_hook of
-- src/filesystem/filesystem_enforcer.cpp.
use silicon.Prelude.{
  ℕ, ◌+◌, ◌≡◌, refl, ◌∙◌, Bool, true, false, Option, none, some, List, [], ◌∷◌, arith,
}
use silicon.Prelude.Int.{ℤ}
use silicon.Text.{Str}
use silicon.Platform.{Outcome}
use silicon.Config.State.{Settings}
use silicon.Filesystem.Types.{Time, Scan}
use silicon.Filesystem.Volumes.{add_line}
use silicon.Filesystem.Clipboard.{after_clear, clear_now, run_clipboard_hook}
use silicon.Filesystem.Clearing.{clears_at, run_clipboard_hook-clears}
use silicon.Filesystem.Sinks.{clear}

-- Calls of the hook, each with the policy of then, what a clear would answer, and the time.
abbrev pub run_hooks : List (Option Settings × (Bool × Str) × Time) → Scan → Scan
run_hooks [] s = s
run_hooks ((config, result, now) ∷ calls) s =
    run_hooks calls (run_clipboard_hook config result now s)

disabled_hook :
    (config : Option Settings) (result : Bool × Str) (now : Time) (s : Scan)
    → s.clipboard_hook_disabled ≡ true
    → ((run_clipboard_hook config result now s).clipboard_hook_disabled ≡ true)
      × ((run_clipboard_hook config result now s).clears ≡ s.clears)
unfolding run_clipboard_hook clear_now
disabled_hook none result now s h = (h, refl)
disabled_hook (some c) result now s h = (ground (arith, h), ground (arith, h))

run_hooks-disabled :
    (calls : List (Option Settings × (Bool × Str) × Time)) (s : Scan)
    → s.clipboard_hook_disabled ≡ true
    → (run_hooks calls s).clears ≡ s.clears
run_hooks-disabled [] s h = refl
run_hooks-disabled ((config, result, now) ∷ calls) s h =
    let (a, b) = disabled_hook config result now s h in
    run_hooks-disabled calls (run_clipboard_hook config result now s) a ∙ b

failure_disables :
    (config : Settings) (ok : Bool) (message : Str) (now : Time) (s : Scan)
    → clears_at config now s ≡ true
    → ok ≡ false
    → (run_clipboard_hook (some config) (ok, message) now s).clipboard_hook_disabled ≡ true
unfolding run_clipboard_hook clear_now after_clear add_line
failure_disables config true message now s h e = absurd (ground (arith, e))
failure_disables config false message now s h e = ground (arith, h)

-- A clear that SystemClipboard reports as failed, since pbcopy could not be run or did not end with
-- 0, is the last: whatever policies, times and answers the later calls of the hook meet, none of them
-- clears again.
pub failed_clear-last :
    (config : Settings) (strerror : ℕ → Str) (pipe : Outcome ℤ) (now : Time) (s : Scan)
    (calls : List (Option Settings × (Bool × Str) × Time))
    → clears_at config now s ≡ true
    → (clear strerror pipe).0 ≡ false
    → (run_hooks calls (run_clipboard_hook (some config) (clear strerror pipe) now s)).clears
      ≡ s.clears + 1
failed_clear-last config strerror pipe now s calls h e =
    let result : Bool × Str = clear strerror pipe in
    run_hooks-disabled calls (run_clipboard_hook (some config) result now s)
      (failure_disables config result.0 result.1 now s h e)
    ∙ ground (arith, run_clipboard_hook-clears config result now s, h)
