-- ===== src/Filesystem/Notified.antt =====
-- The notifications of a scan of src/filesystem/filesystem_enforcer.cpp in the log file of
-- logging/logger.hpp.
use silicon.Prelude.{
  ℕ, suc, ◌≤◌, ◌≡◌, refl, ap, ap₂, subst, true, false, some, List, [], ◌∷◌, ◌++◌, map, arith, All,
  exists_in, leb,
}
use silicon.Text.{Str, codes}
use silicon.Logging.Levels.{LogLevel, warn, level_rank}
use silicon.Logging.Logger.{FileStore, Call, moving, filtering, construct}
use silicon.Logging.Reading.{Entry, read_file}
use silicon.Logging.Fields.{has_newline}
use silicon.Logging.Journal.{text_of, OneLine}
use silicon.Logging.Refinement.{IsStore, run}
use silicon.Logging.Interleaving.{Merge, Logs, entries_of, run-Merge}
use silicon.Filesystem.Types.{FilesystemEnforcer}
use silicon.Filesystem.Helpers.{sanitize_for_log, sanitize_byte}
use silicon.Filesystem.Printable.{IsPrintable, sanitize_for_log-IsPrintable}
use silicon.Filesystem.Scan.{Surroundings, perform_scan}
use silicon.Filesystem.Sending.Cycle.{perform_scan-IsAccounted}
use silicon.Filesystem.Sinks.{notify}

-- The calls of notify for some texts; the clock gives the time of the n-th line.
abbrev pub notify_all : (ℕ → ℕ) → ℕ → List Str → List Call
notify_all clock n [] = []
notify_all clock n (message ∷ messages) =
    notify (clock n) message ∷ notify_all clock (suc n) messages

-- What they are to be read as.
abbrev pub notifications : (ℕ → ℕ) → ℕ → List Str → List Entry
notifications clock n [] = []
notifications clock n (message ∷ messages) =
    record { time = clock n; level = warn; message = codes "NOTIFICATION: " ++ message }
    ∷ notifications clock (suc n) messages

printable_byte : (c : ℕ) → 32 ≤ c → c ≤ 126 → sanitize_byte c ≡ c
unfolding sanitize_byte
printable_byte c l m = ground (arith, l, m)

sanitize_printable : (s : Str) → IsPrintable s → sanitize_for_log s ≡ s
unfolding sanitize_for_log
sanitize_printable [] h = refl
sanitize_printable (c ∷ s) ((l, m), hs) =
    ap₂ (λ (d : ℕ) (t : Str). d ∷ t) (printable_byte c l m) (sanitize_printable s hs)

printable_one_line : (s : Str) → IsPrintable s → has_newline s ≡ false
unfolding exists_in
printable_one_line [] h = refl
printable_one_line (c ∷ s) ((l, m), hs) = ground (arith, l, printable_one_line s hs)

notify_all-Logs :
    (clock : ℕ → ℕ) (n : ℕ) (messages : List Str) → All Logs (notify_all clock n messages)
unfolding notify exists_in
notify_all-Logs clock n [] = tt
notify_all-Logs clock n (message ∷ messages) = (
  printable_one_line (sanitize_for_log message) (sanitize_for_log-IsPrintable message),
  notify_all-Logs clock (suc n) messages,
)

-- A filter that lets warnings through takes each of them, in order.
entries_of-notify_all :
    (clock : ℕ → ℕ) (n : ℕ) (messages : List Str) (level : LogLevel)
    → All IsPrintable messages
    → leb (level_rank level) (level_rank warn) ≡ true
    → entries_of level (notify_all clock n messages) ≡ notifications clock n messages
unfolding notify
entries_of-notify_all clock n [] level h enabled = refl
entries_of-notify_all clock n (message ∷ messages) level (h, hs) enabled =
    rw (enabled, sanitize_printable message h)
      (ap
        (λ es.
          record { time = clock n; level = warn; message = codes "NOTIFICATION: " ++ message } ∷ es)
        (entries_of-notify_all clock (suc n) messages level hs enabled))

-- The notifications of any scan, whatever names the paths and volumes have, and any other lines of
-- one line each that the scan and other threads log in between, go to a log whose path and filter
-- were set before, with warnings let through and every path open: the file, if it held the lines of
-- some entries, reads back as those and behind them an interleaving of the other lines that pass the
-- filter and, in order, a warning for each notification with its very text.
pub perform_scan-notifications :
    (w : Surroundings) (e : FilesystemEnforcer) (S : FileStore) (laws : IsStore S) (before : S.Disk)
    (clock : ℕ → ℕ) (path : Str) (level : LogLevel) (es : List Entry) (others calls : List Call)
    → S.contents before path ≡ text_of es
    → All OneLine es
    → leb (level_rank level) (level_rank warn) ≡ true
    → All Logs others
    → Merge (notify_all clock 0 (perform_scan w e).sent) others calls
    → (merged : List Entry) × (read_file (
          S.contents (run S (moving path ∷ filtering level ∷ calls) (construct S before)).disk path)
        ≡ map some (es ++ merged))
      × Merge (notifications clock 0 (perform_scan w e).sent) (entries_of level others) merged
perform_scan-notifications w e S laws before clock path level es others calls h lines enabled logs
      m =
    let sent = (perform_scan w e).sent in
    let (a, b, printable, c) = (perform_scan-IsAccounted w e).facts in
    let (merged, decoded, interleaved) =
      run-Merge S laws before (notify_all clock 0 sent) others calls path level es h lines
        (notify_all-Logs clock 0 sent) logs m in
    (
      merged,
      decoded,
      subst (λ ns. Merge ns (entries_of level others) merged)
          (entries_of-notify_all clock 0 sent level printable enabled) interleaved,
    )
