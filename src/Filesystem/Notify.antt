-- ===== src/Filesystem/Notify.antt =====
-- Notifications of src/filesystem/filesystem_enforcer.cpp and their rate limit.
use silicon.Prelude.{
  ℕ, ◌+◌, ◌-◌, ◌*◌, Bool, true, false, not, Option, none, some, [], ◌∷◌, ◌++◌, ltb, leb,
  if◌then◌else◌,
}
use silicon.Text.{Str}
use silicon.Config.State.{Settings}
use silicon.Config.Queries.{are_filesystem_notifications_enabled}
use silicon.Filesystem.Types.{Time, ticks_per_second, FileSystem, FilesystemEnforcer, Scan}
use silicon.Filesystem.Helpers.{sanitize_for_log}
use silicon.Filesystem.Policy.{resolve_notification_rate_limit}

-- minimum_interval is in seconds.
unfoldable pub should_emit_notification : FilesystemEnforcer → Time → ℕ → FilesystemEnforcer × Bool
should_emit_notification e now minimum_interval =
    if not e.has_notification_time
    then (record e { has_notification_time = true; last_notification_time = now }, true)
    else if ltb now e.last_notification_time
    then (record e { last_notification_time = now }, true)
    else if leb (minimum_interval * ticks_per_second) (now - e.last_notification_time)
    then (record e { last_notification_time = now }, true)
    else (e, false)

-- The rest of emit_notification_if_allowed, from the verdict on.
unfoldable pub deliver : Str → Scan → FilesystemEnforcer × Bool → Scan
deliver message s (e, false) = record s { enforcer = e; clock_calls = s.clock_calls + 1 }
deliver message s (e, true) = record s {
  enforcer = e;
  clock_calls = s.clock_calls + 1;
  sent = s.sent ++ sanitize_for_log message ∷ [];
  stats = record (s.stats) { notifications_emitted = s.stats.notifications_emitted + 1 };
}

unfoldable pub emit_notification_if_allowed : FileSystem → Option Settings → Str → Scan → Scan
emit_notification_if_allowed fs none message s = s
emit_notification_if_allowed fs (some config) message s =
    if not (are_filesystem_notifications_enabled config)
    then s
    else deliver message s (
        should_emit_notification s.enforcer (fs.now s.clock_calls)
          (resolve_notification_rate_limit (some config)))
