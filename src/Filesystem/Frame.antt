-- ===== src/Filesystem/Frame.antt =====
-- What the notification step of src/filesystem/filesystem_enforcer.cpp leaves alone.
use silicon.Prelude.{
  ℕ, ◌≡◌, refl, Bool, true, false, Option, none, some, arith, Bool-cases, inl, inr,
}
use silicon.Text.{Str}
use silicon.Config.State.{Settings}
use silicon.Config.Queries.{are_filesystem_notifications_enabled}
use silicon.Filesystem.Types.{FileSystem, FilesystemEnforcer, Scan}
use silicon.Filesystem.Policy.{resolve_notification_rate_limit}
use silicon.Filesystem.Notify.{deliver, emit_notification_if_allowed, should_emit_notification}

-- The members and counters that a notification does not touch.
pub record SameBut (s t : Scan) : Type 0 where
  pub root : t.volumes_root ≡ s.volumes_root
  pub ready : t.known_mounts_initialized ≡ s.known_mounts_initialized
  pub backend : t.event_backend ≡ s.event_backend
  pub mounts : t.known_mounts ≡ s.known_mounts
  pub snapshot : t.known_path_snapshot ≡ s.known_path_snapshot
  pub initialized : t.known_path_snapshot_initialized ≡ s.known_path_snapshot_initialized
  pub pending : t.pending_event_paths ≡ s.pending_event_paths
  pub flag : t.has_pending_events ≡ s.has_pending_events
  pub timestamp : t.stats.timestamp ≡ s.stats.timestamp
  pub seen : t.stats.mounts_seen ≡ s.stats.mounts_seen
  pub new_mounts : t.stats.new_mounts_detected ≡ s.stats.new_mounts_detected
  pub path_events : t.stats.path_events_detected ≡ s.stats.path_events_detected
  pub denied : t.stats.permission_errors ≡ s.stats.permission_errors
  pub lines : t.log ≡ s.log
  pub clears : t.clears ≡ s.clears

same : (s : Scan) → SameBut s s
same s = record {
  root = refl;
  ready = refl;
  backend = refl;
  mounts = refl;
  snapshot = refl;
  initialized = refl;
  pending = refl;
  flag = refl;
  timestamp = refl;
  seen = refl;
  new_mounts = refl;
  path_events = refl;
  denied = refl;
  lines = refl;
  clears = refl;
}

deliver-SameBut :
    (message : Str) (s : Scan) (e : FilesystemEnforcer) (due : Bool)
    → e.volumes_root ≡ s.volumes_root
    → e.known_mounts_initialized ≡ s.known_mounts_initialized
    → e.event_backend ≡ s.event_backend
    → e.known_mounts ≡ s.known_mounts
    → e.known_path_snapshot ≡ s.known_path_snapshot
    → e.known_path_snapshot_initialized ≡ s.known_path_snapshot_initialized
    → e.pending_event_paths ≡ s.pending_event_paths
    → e.has_pending_events ≡ s.has_pending_events
    → SameBut s (deliver message s (e, due))
unfolding deliver
deliver-SameBut message s e true a r k b c i d f = record {
  root = a;
  ready = r;
  backend = k;
  mounts = b;
  snapshot = c;
  initialized = i;
  pending = d;
  flag = f;
  timestamp = refl;
  seen = refl;
  new_mounts = refl;
  path_events = refl;
  denied = refl;
  lines = refl;
  clears = refl;
}
deliver-SameBut message s e false a r k b c i d f = record {
  root = a;
  ready = r;
  backend = k;
  mounts = b;
  snapshot = c;
  initialized = i;
  pending = d;
  flag = f;
  timestamp = refl;
  seen = refl;
  new_mounts = refl;
  path_events = refl;
  denied = refl;
  lines = refl;
  clears = refl;
}

module _ (e : FilesystemEnforcer) (now interval : ℕ) where
  verdict : FilesystemEnforcer
  verdict = (should_emit_notification e now interval).0

  verdict_root : verdict.volumes_root ≡ e.volumes_root
  unfolding verdict should_emit_notification
  verdict_root = ground arith

  verdict_ready : verdict.known_mounts_initialized ≡ e.known_mounts_initialized
  unfolding verdict should_emit_notification
  verdict_ready = ground arith

  verdict_backend : verdict.event_backend ≡ e.event_backend
  unfolding verdict should_emit_notification
  verdict_backend = ground arith

  verdict_mounts : verdict.known_mounts ≡ e.known_mounts
  unfolding verdict should_emit_notification
  verdict_mounts = ground arith

  verdict_snapshot : verdict.known_path_snapshot ≡ e.known_path_snapshot
  unfolding verdict should_emit_notification
  verdict_snapshot = ground arith

  verdict_initialized : verdict.known_path_snapshot_initialized ≡ e.known_path_snapshot_initialized
  unfolding verdict should_emit_notification
  verdict_initialized = ground arith

  verdict_pending : verdict.pending_event_paths ≡ e.pending_event_paths
  unfolding verdict should_emit_notification
  verdict_pending = ground arith

  verdict_flag : verdict.has_pending_events ≡ e.has_pending_events
  unfolding verdict should_emit_notification
  verdict_flag = ground arith

module _ (fs : FileSystem) where
  pub emit-SameBut :
      (config : Option Settings) (message : Str) (s : Scan)
      → SameBut s (emit_notification_if_allowed fs config message s)
  unfolding emit_notification_if_allowed verdict
  emit-SameBut none message s = same s
  emit-SameBut (some c) message s =
      let e : FilesystemEnforcer = s.enforcer in
      let now : ℕ = fs.now s.clock_calls in
      let n : ℕ = resolve_notification_rate_limit (some c) in
      let r : FilesystemEnforcer × Bool = should_emit_notification e now n in
      elim (Bool-cases (are_filesystem_notifications_enabled c)) [
        | inr off ↦ rw off (same s)
        | inl on ↦ rw on (
            deliver-SameBut message s r.0 r.1 (verdict_root e now n) (verdict_ready e now n)
              (verdict_backend e now n) (verdict_mounts e now n) (verdict_snapshot e now n)
              (verdict_initialized e now n) (verdict_pending e now n) (verdict_flag e now n))
      ]
