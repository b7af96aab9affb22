-- ===== src/Filesystem/Polling.antt =====
-- monitor_paths_polling of src/filesystem/filesystem_enforcer.cpp: two snapshots and their
-- difference.
use silicon.Prelude.{
  ℕ, suc, ◌+◌, Bool, true, false, not, Option, none, some, List, [], ◌∷◌, ◌++◌, if◌then◌else◌,
  length,
}
use silicon.Text.{Str, codes, str_eq}
use silicon.Config.State.{Settings}
use silicon.Filesystem.Types.{PathFingerprint, Snapshot, FileSystem, Scan, scan_denied, scan_failed}
use silicon.Filesystem.Helpers.{is_permission_error, sanitize_for_log, fingerprints_equal}
use silicon.Filesystem.Policy.{load_monitored_paths}
use silicon.Filesystem.Volumes.{add_line}
use silicon.Filesystem.Events.{report_change, next_logged, note_suppressed}

-- unordered_map::find
unfoldable pub find : Str → Snapshot → Option PathFingerprint
unfolding str_eq
find path [] = none
find path ((key, fingerprint) ∷ snapshot) =
    let rest = find path snapshot in if str_eq key path then some fingerprint else rest

abbrev pub is_found : Option PathFingerprint → Bool
is_found none = false
is_found (some f) = true

unfoldable pub contains : Str → Snapshot → Bool
unfolding find
contains path snapshot = is_found (find path snapshot)

-- unordered_map::emplace: an existing key keeps its value.
unfoldable pub emplace : Str → PathFingerprint → Snapshot → Snapshot
unfolding contains
emplace path fingerprint snapshot =
    if contains path snapshot then snapshot else snapshot ++ (path, fingerprint) ∷ []

-- unordered_map::insert of a range.
unfoldable pub insert_range : Snapshot → Snapshot → Snapshot
unfolding emplace
insert_range snapshot [] = snapshot
insert_range snapshot ((path, fingerprint) ∷ added) =
    insert_range (emplace path fingerprint snapshot) added

pub data Action : Type 0 where
  created modified deleted : Action

abbrev pub action_text : Action → Str
action_text created = codes "created"
action_text modified = codes "modified"
action_text deleted = codes "deleted"

pub record PathEvent : Type 0 where
  pub action : Action
  pub path : Str

-- The first loop: what is new or changed in the current snapshot.
unfoldable pub compare_with :
    Option PathFingerprint → Str → PathFingerprint → List PathEvent → List PathEvent
unfolding fingerprints_equal
compare_with none path fingerprint events = record { action = created; path = path } ∷ events
compare_with (some previous) path fingerprint events =
    if not (fingerprints_equal previous fingerprint)
    then record { action = modified; path = path } ∷ events
    else events

unfoldable pub changes : Snapshot → Snapshot → List PathEvent
unfolding find compare_with
changes known [] = []
changes known ((path, fingerprint) ∷ current) =
    compare_with (find path known) path fingerprint (changes known current)

-- The second loop: what is gone.
unfoldable pub deletions : Snapshot → Snapshot → List PathEvent
unfolding contains
deletions current [] = []
deletions current ((path, fingerprint) ∷ known) =
    let rest = deletions current known in
    if not (contains path current) then record { action = deleted; path = path } ∷ rest else rest

unfoldable pub diff : Snapshot → Snapshot → List PathEvent
diff known current = changes known current ++ deletions current known

module _ (fs : FileSystem) (config : Option Settings) where
  -- One root: the statistics, the log, and the snapshot grown by the root's.
  unfoldable pub scan_root : Str → Snapshot × Scan → Snapshot × Scan
  scan_root root_path (current, s) =
      let tree = fs.snapshot_tree root_path in
      let counted = record s {
        stats = record (s.stats) {
          permission_errors = s.stats.permission_errors + tree.permission_errors;
        };
      } in
      if tree.ok
      then (insert_range current tree.snapshot, counted)
      else if is_permission_error tree.error_code
      then (
        current,
        add_line (scan_denied (sanitize_for_log root_path)) (record counted {
          stats = record (counted.stats) {
            permission_errors = counted.stats.permission_errors + 1;
          };
        }),
      )
      else (current, add_line (scan_failed (sanitize_for_log root_path) tree.error_code) counted)

  -- The loop over the roots; `stop n` is what stop_requested_ holds at the n-th root.
  unfoldable pub scan_roots : (ℕ → Bool) → ℕ → List Str → Snapshot × Scan → Snapshot × Scan
  scan_roots stop n [] acc = acc
  scan_roots stop n (root_path ∷ roots) acc =
      let rest = scan_roots stop (suc n) roots (scan_root root_path acc) in
      if stop n then acc else rest

  unfoldable pub report_events : List PathEvent → ℕ → Scan → Scan
  report_events [] logged s = s
  report_events (event ∷ events) logged s =
      report_events events (next_logged logged)
        (report_change fs config (action_text event.action) event.path logged s)

  -- From the difference on, with a snapshot to compare with.
  unfoldable pub apply_diff : Snapshot → Scan → Scan
  apply_diff current s =
      let events = diff s.known_path_snapshot current in
      let noted = note_suppressed (length events) (report_events events 0 s) in
      record noted { enforcer = record (noted.enforcer) { known_path_snapshot = current } }

  -- From the current snapshot on.
  unfoldable pub handle_snapshot : Snapshot × Scan → Scan
  handle_snapshot (current, s) =
      if not s.known_path_snapshot_initialized
      then record s {
        enforcer = record (s.enforcer) {
          known_path_snapshot = current;
          known_path_snapshot_initialized = true;
        };
      }
      else apply_diff current s

  unfoldable pub monitor_paths_polling : (ℕ → Bool) → Scan → Scan
  monitor_paths_polling stop s =
      handle_snapshot (scan_roots stop 0 (load_monitored_paths config) ([], s))
