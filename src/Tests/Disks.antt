-- ===== src/Tests/Disks.antt =====
-- The theorems on LocalFileSystem (src/filesystem) at a concrete disk.
use silicon.Prelude.{◌≡◌, refl, ◌||◌, Bool, true, false, List, [], ◌∷◌}
use silicon.Prelude.Int.{pos}
use silicon.Text.{Str, codes, mem, str_eq}
use silicon.Platform.{Outcome, done, failed}
use silicon.Filesystem.Types.{PathFingerprint}
use silicon.Filesystem.Polling.{contains}
use silicon.Filesystem.Local.{
  Disk, directory, regular_file, list_directories, fill_fingerprint, with_status, with_size,
  with_time, snapshot_tree,
}
use silicon.Filesystem.Snapshots.{
  is_visited, is_listed, begins, mem-list_directories, contains-snapshot_tree,
}

abbrev volumes : List (Str × Outcome Bool)
volumes = (codes "/Volumes/Stick", done true) ∷ (codes "/Volumes/x", failed 13) ∷ []

abbrev exam_tree : List (Outcome Str)
exam_tree = done (codes "/exam/a") ∷ failed 13 ∷ done (codes "/exam/b") ∷ []

-- A disk of directories, and one whose root is a file of three bytes.
abbrev disk : Disk
disk = record {
  entries = λ root. done volumes;
  walk = λ root. done exam_tree;
  exists = λ path. done true;
  status = λ path. done directory;
  file_size = λ path. done 3;
  last_write_time = λ path. done (pos 7);
}

abbrev file_disk : Disk
file_disk = record disk { walk = λ root. failed 20; status = λ path. done regular_file }

abbrev folder : PathFingerprint
folder = record { is_directory = true; size_bytes = 0; modified_ticks = pos 7 }

abbrev small_file : PathFingerprint
small_file = record { is_directory = false; size_bytes = 3; modified_ticks = pos 7 }

folder_fingerprint : fill_fingerprint disk (codes "/exam") ≡ done folder
unfolding fill_fingerprint with_status with_time
folder_fingerprint = refl

file_fingerprint : fill_fingerprint file_disk (codes "/exam/a") ≡ done small_file
unfolding fill_fingerprint with_status with_size with_time
file_fingerprint = refl

mem-list_directories_example :
    ((list_directories disk (codes "/Volumes")).listed ≡ begins (disk.entries (codes "/Volumes")))
    × (mem (codes "/Volumes/x") (list_directories disk (codes "/Volumes")).directories
        ≡ is_listed (codes "/Volumes/x") (disk.entries (codes "/Volumes")))
mem-list_directories_example = mem-list_directories disk (codes "/Volumes") (codes "/Volumes/x")

contains-snapshot_tree_example :
    ((snapshot_tree disk (codes "/exam")).ok ≡ true)
    × (contains (codes "/exam/b") (snapshot_tree disk (codes "/exam")).snapshot
        ≡ (is_visited disk (codes "/exam/b") exam_tree || str_eq (codes "/exam") (codes "/exam/b")))
contains-snapshot_tree_example =
    contains-snapshot_tree disk (codes "/exam") (codes "/exam/b") folder exam_tree refl
      folder_fingerprint refl
