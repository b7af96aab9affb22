-- ===== src/Filesystem/Clipboard.antt =====
-- run_clipboard_hook of src/filesystem/filesystem_enforcer.cpp.
use silicon.Prelude.{
  ◌+◌, ◌*◌, Bool, true, false, not, Option, none, some, ltb, if◌then◌else◌, is_empty,
}
use silicon.Text.{Str, codes}
use silicon.Config.State.{Settings}
use silicon.Config.Queries.{should_clear_clipboard, is_debug_mode}
use silicon.Filesystem.Types.{
  Time, ticks_per_second, Scan, clipboard_dry_run, clipboard_unavailable, clipboard_cleared,
}
use silicon.Filesystem.Helpers.{sanitize_for_log}
use silicon.Filesystem.Policy.{resolve_clipboard_clear_interval}
use silicon.Filesystem.Volumes.{add_line}

-- The next deadline after `now`.
unfoldable pub deadline_after : Option Settings → Time → Time
deadline_after config now = now + resolve_clipboard_clear_interval config * ticks_per_second

-- From the call of IClipboard::clear on; its result is the pair of what it returns and its message.
unfoldable pub after_clear : Bool × Str → Scan → Scan
after_clear (true, message) s = add_line clipboard_cleared s
after_clear (false, message) s =
    let disabled = record s {
      enforcer = record (s.enforcer) {
        clipboard_hook_disabled = true;
        clipboard_disable_logged = true;
      };
    } in
    if s.clipboard_disable_logged
    then disabled
    else add_line
        (clipboard_unavailable (
          sanitize_for_log (if is_empty message then codes "unknown clipboard error" else message)))
        disabled

-- The deadline has passed and the hook may run.
unfoldable pub clear_now : Settings → Bool × Str → Scan → Scan
clear_now config result s =
    if s.clipboard_hook_disabled
    then s
    else if is_debug_mode config
    then add_line clipboard_dry_run s
    else after_clear result (record s { clears = s.clears + 1 })

abbrev pub set_deadline : Option Settings → Time → Scan → Scan
set_deadline config now s = record s {
  enforcer = record (s.enforcer) {
    has_next_clipboard_deadline = true;
    next_clipboard_deadline = deadline_after config now;
  };
}

unfoldable pub run_clipboard_hook : Option Settings → Bool × Str → Time → Scan → Scan
run_clipboard_hook none result now s = s
run_clipboard_hook (some config) result now s =
    if not (should_clear_clipboard config)
    then record s { enforcer = record (s.enforcer) { has_next_clipboard_deadline = false } }
    else if not s.has_next_clipboard_deadline
    then set_deadline (some config) now s
    else if ltb now s.next_clipboard_deadline
    then s
    else clear_now config result (set_deadline (some config) now s)
