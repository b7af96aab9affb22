-- ===== src/Filesystem/Local.antt =====
-- LocalFileSystem of src/filesystem/filesystem_enforcer.cpp.
use silicon.Prelude.{ℕ, ◌+◌, Bool, true, false, List, [], ◌∷◌, ltb, ◌==◌, if◌then◌else◌}
use silicon.Prelude.Int.{ℤ}
use silicon.Text.{Str, str_eq}
use silicon.Platform.{Outcome, done, failed}
use silicon.Filesystem.Types.{PathFingerprint, Snapshot, Listing, Tree}
use silicon.Filesystem.Helpers.{is_permission_error}
use silicon.Filesystem.Polling.{emplace}

pub data FileKind : Type 0 where
  directory : FileKind
  regular_file : FileKind
  other : FileKind

-- What std::filesystem answers while one of the two functions runs: of directory_iterator, the
-- entries with what is_directory says of each; of recursive_directory_iterator, the positions before
-- the end, each with its path or the code that the increment to it left in `ec`. The range loop of
-- list_directories may throw between two entries; then the scan ends as one of the steps of
-- scan_loop that throw.
pub record Disk : Type 0 where
  pub entries : Str → Outcome (List (Str × Outcome Bool))
  pub walk : Str → Outcome (List (Outcome Str))
  pub exists : Str → Outcome Bool
  pub status : Str → Outcome FileKind
  pub file_size : Str → Outcome ℕ
  pub last_write_time : Str → Outcome ℤ

-- The order of std::string.
unfoldable pub before : Str → Str → Bool
before [] t = true
before (c ∷ s) [] = false
before (c ∷ s) (e ∷ t) = if c == e then before s t else ltb c e

unfoldable pub insert_sorted : Str → List Str → List Str
insert_sorted s [] = s ∷ []
insert_sorted s (t ∷ ts) =
    let rest = insert_sorted s ts in if before s t then s ∷ t ∷ ts else t ∷ rest

-- std::sort
unfoldable pub sort : List Str → List Str
sort [] = []
sort (s ∷ ts) = insert_sorted s (sort ts)

-- std::unique
unfoldable pub unique_after : Str → List Str → List Str
unique_after last [] = []
unique_after last (s ∷ ts) =
    let rest = unique_after s ts in if str_eq last s then rest else s ∷ rest

unfoldable pub unique : List Str → List Str
unique [] = []
unique (s ∷ ts) = s ∷ unique_after s ts

-- The entries that are directories.
unfoldable pub directories_of : List (Str × Outcome Bool) → List Str
directories_of [] = []
directories_of ((path, done is_dir) ∷ entries) =
    let rest = directories_of entries in if is_dir then path ∷ rest else rest
directories_of ((path, failed code) ∷ entries) = directories_of entries

-- The entries that may not be looked at.
unfoldable pub denied_entries : List (Str × Outcome Bool) → ℕ
denied_entries [] = 0
denied_entries ((path, done is_dir) ∷ entries) = denied_entries entries
denied_entries ((path, failed code) ∷ entries) =
    (if is_permission_error code then 1 else 0) + denied_entries entries

unfoldable pub listing_of : Outcome (List (Str × Outcome Bool)) → Listing
listing_of (failed code) = record {
  listed = false;
  directories = [];
  error_code = code;
  permission_errors = 0;
}
listing_of (done entries) = record {
  listed = true;
  directories = unique (sort (directories_of entries));
  error_code = 0;
  permission_errors = denied_entries entries;
}

module _ (d : Disk) where
  open d use {entries, walk, exists, status, file_size, last_write_time}

  unfoldable pub list_directories : Str → Listing
  list_directories root = listing_of (entries root)

  unfoldable pub with_time : Bool → ℕ → Outcome ℤ → Outcome PathFingerprint
  with_time is_dir size (failed code) = failed code
  with_time is_dir size (done ticks) =
      done (record { is_directory = is_dir; size_bytes = size; modified_ticks = ticks })

  unfoldable pub with_size : Str → Outcome ℕ → Outcome PathFingerprint
  with_size path (failed code) = failed code
  with_size path (done size) = with_time false size (last_write_time path)

  unfoldable pub with_status : Str → Outcome FileKind → Outcome PathFingerprint
  with_status path (failed code) = failed code
  with_status path (done directory) = with_time true 0 (last_write_time path)
  with_status path (done regular_file) = with_size path (file_size path)
  with_status path (done other) = with_time false 0 (last_write_time path)

  unfoldable pub fill_fingerprint : Str → Outcome PathFingerprint
  fill_fingerprint path = with_status path (status path)

  -- One turn of the loop of snapshot_tree at a path.
  unfoldable pub note_path : Str → Outcome PathFingerprint → Snapshot × ℕ → Snapshot × ℕ
  note_path path (done fingerprint) (snapshot, denied) = (emplace path fingerprint snapshot, denied)
  note_path path (failed code) (snapshot, denied) =
      (snapshot, denied + (if is_permission_error code then 1 else 0))

  unfoldable pub visit : List (Outcome Str) → Snapshot × ℕ → Snapshot × ℕ
  visit [] acc = acc
  visit (failed code ∷ positions) (snapshot, denied) =
      visit positions (snapshot, denied + (if is_permission_error code then 1 else 0))
  visit (done path ∷ positions) acc = visit positions (note_path path (fill_fingerprint path) acc)

  unfoldable pub finish : Snapshot × ℕ → Tree
  finish (snapshot, denied) = record {
    ok = true;
    snapshot = snapshot;
    error_code = 0;
    permission_errors = denied;
  }

  -- From the recursive iterator on, with the root's own fingerprint.
  unfoldable pub walk_root : Snapshot → Outcome (List (Outcome Str)) → Tree
  walk_root snapshot (failed code) = record {
    ok = false;
    snapshot = snapshot;
    error_code = code;
    permission_errors = 0;
  }
  walk_root snapshot (done positions) = finish (visit positions (snapshot, 0))

  unfoldable pub with_root : Str → Outcome PathFingerprint → Tree
  with_root root (failed code) =
      if is_permission_error code
      then record { ok = true; snapshot = []; error_code = 0; permission_errors = 1 }
      else record { ok = false; snapshot = []; error_code = code; permission_errors = 0 }
  with_root root (done fingerprint) = walk_root (emplace root fingerprint []) (walk root)

  unfoldable pub with_exists : Str → Outcome Bool → Tree
  with_exists root (failed code) = record {
    ok = false;
    snapshot = [];
    error_code = code;
    permission_errors = 0;
  }
  with_exists root (done false) = record {
    ok = true;
    snapshot = [];
    error_code = 0;
    permission_errors = 0;
  }
  with_exists root (done true) = with_root root (fill_fingerprint root)

  unfoldable pub snapshot_tree : Str → Tree
  snapshot_tree root = with_exists root (exists root)
