-- ===== src/Tests/Logs.antt =====
-- A log on a small disk, and the theorems about the logger at it.
use silicon.Prelude.{
  false, ◌≡◌, refl, true, List, [], ◌∷◌, ◌++◌, map, some, if◌then◌else◌, arith, exists_in,
}
use silicon.Text.{Str, codes, str_eq, digits, digits_within}
use silicon.Text.Laws.{str_eq_iff, str_eq_refl}
use silicon.Logging.Levels.{info, debug, warn, is_enabled}
use silicon.Logging.Timestamp.{
  timestamp, fields_of, date_fields, find_year, find_month, year_length, is_leap, print_fields, pad,
  zeros,
}
use silicon.Logging.Logger.{
  FileStore, Call, moving, filtering, saying, formatting, format_error, construct, line_text,
  Logger, write_open,
}
use silicon.Logging.Reading.{Entry, read_line, read_file}
use silicon.Logging.RoundTrip.{read_line-line_text}
use silicon.Logging.Journal.{notes, empty_journal, entries_at}
use silicon.Logging.Refinement.{IsStore, run, run-journal}
use silicon.Logging.Threads.{
  System, turns, turn, advance, begin, enter_line, acquire, look, put, starting,
}
use silicon.Logging.Untorn.{pending}
use silicon.Logging.Schedules.{turns-Merge}
use silicon.Logging.Rounds.{rounds}
use silicon.Logging.Complete.{ended, rounds-Merge}
use silicon.Logging.Interleaving.{Merge, none_left, from_first, from_second, entries_of}
use silicon.Filesystem.Scan.{perform_scan}
use silicon.Filesystem.Notified.{notify_all, notifications, perform_scan-notifications}
use silicon.Tests.Monitors.{surroundings, enforcer}

-- Every path is a file, empty at first.
abbrev Paper : FileStore
Paper = record {
  Disk = Str → Str;
  create_directories = λ d path. d;
  open_append = λ d path. (d, true);
  append = λ d path text q. if str_eq path q then d q ++ text else d q;
  contents = λ d path. d path;
}

paper-IsStore : IsStore Paper
paper-IsStore = record {
  append_at = λ d p s. ground (arith, str_eq_refl p);
  append_elsewhere = λ d p q s apart. ground (arith, str_eq_iff p q, apart);
  directories_keep = λ d p q. refl;
  open_keeps = λ d p q. refl;
  open_succeeds = λ d p. refl;
}

abbrev blank : Str → Str
blank path = []

abbrev calls : List Call
calls =
    filtering info
    ∷ saying 0 debug (codes "unseen")
    ∷ saying 1000000 info (codes "started")
    ∷ moving (codes "agent.log")
    ∷ formatting 1700000000123456 warn (format_error (codes "bad"))
    ∷ []

timestamp_test : timestamp 1700000000123456 ≡ codes "2023-11-14 22:13:20.123456"
unfolding timestamp fields_of date_fields find_year find_month year_length is_leap print_fields pad
    zeros digits digits_within
timestamp_test = refl

read_line-line_text_example :
    read_line (line_text 1709164799000001 info (codes "Heartbeat: I am alive"))
    ≡ some
        (record { time = 1709164799000001; level = info; message = codes "Heartbeat: I am alive" })
read_line-line_text_example =
    read_line-line_text 1709164799000001 info (codes "Heartbeat: I am alive")

run-journal_example :
    read_file ((run Paper calls (construct Paper blank)).disk (codes "agent.log"))
    ≡ map some (entries_at (codes "agent.log") (notes calls empty_journal).entries)
unfolding exists_in
run-journal_example =
    run-journal Paper paper-IsStore blank calls (codes "agent.log") [] refl tt
      (tt, (refl, (refl, (tt, (refl, tt)))))

-- What each enforcer's thread logs, in turns, on a log that was just opened.
abbrev first_thread : List Call
first_thread =
    saying 1000000 info (codes "Process scan finished") ∷ saying 4000000 debug (codes "unseen") ∷ []

abbrev second_thread : List Call
second_thread = formatting 3000000 warn (format_error (codes "bad")) ∷ []

abbrev opened_log : Logger Paper
opened_log = record {
  disk = blank;
  path = codes "agent.log";
  stream = some (codes "agent.log");
  min_level = info;
}

abbrev logged : System Paper
logged = turns Paper (rounds 20) (starting Paper opened_log first_thread second_thread)

logged_unlocked : logged.held ≡ false
unfolding turns turn advance begin enter_line acquire look put is_enabled write_open
logged_unlocked = refl

turns-Merge_example :
    (firsts : List Entry) × (seconds : List Entry) × (merged : List Entry) × (read_file
        (logged.logger.disk (codes "agent.log"))
      ≡ map some ([] ++ merged))
    × Merge firsts seconds merged
    × (entries_of info first_thread ≡ firsts ++ pending info logged.first)
    × (entries_of info second_thread ≡ seconds ++ pending info logged.second)
unfolding exists_in
turns-Merge_example =
    turns-Merge Paper paper-IsStore info (codes "agent.log") [] opened_log first_thread
      second_thread (rounds 20) refl refl refl tt (refl, (refl, tt)) (refl, tt) logged_unlocked

abbrev all_logged : System Paper
all_logged = turns Paper (rounds 33) (starting Paper opened_log first_thread second_thread)

rounds-Merge_example :
    (merged : List Entry) × (all_logged.held ≡ false)
    × (all_logged.first ≡ ended)
    × (all_logged.second ≡ ended)
    × (read_file (all_logged.logger.disk (codes "agent.log")) ≡ map some ([] ++ merged))
    × Merge (entries_of info first_thread) (entries_of info second_thread) merged
unfolding exists_in
rounds-Merge_example =
    rounds-Merge Paper paper-IsStore info (codes "agent.log") [] opened_log first_thread
      second_thread 33 refl refl refl tt (refl, (refl, tt)) (refl, tt) (omega arith)

-- What the scan logs itself.
abbrev scan_lines : List Call
scan_lines = saying 9000000 info (codes "FilesystemEnforcer: New volume") ∷ []

second_behind : (xs ys : List Call) → Merge xs ys (xs ++ ys)
second_behind [] [] = none_left
second_behind [] (y ∷ ys) = from_second y (second_behind [] ys)
second_behind (x ∷ xs) ys = from_first x (second_behind xs ys)

perform_scan-notifications_example :
    let sent = (perform_scan surroundings enforcer).sent in
    (merged : List Entry) × (read_file (
        (run Paper
            (moving (codes "agent.log")
              ∷ filtering info
              ∷ (notify_all (λ n. n) 0 sent ++ scan_lines))
            (construct Paper blank)).disk
          (codes "agent.log"))
      ≡ map some ([] ++ merged))
    × Merge (notifications (λ n. n) 0 sent) (entries_of info scan_lines) merged
unfolding exists_in
perform_scan-notifications_example =
    perform_scan-notifications surroundings enforcer Paper paper-IsStore blank (λ n. n)
      (codes "agent.log") info [] scan_lines
      (notify_all (λ n. n) 0 (perform_scan surroundings enforcer).sent ++ scan_lines) refl tt refl
      (refl, tt) (second_behind _ scan_lines)
