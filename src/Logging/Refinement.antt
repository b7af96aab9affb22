-- ===== src/Logging/Refinement.antt =====
-- Logger of logging/logger.hpp implements the journal.
use silicon.Prelude.{
  ℕ, ◌≡◌, ◌≢◌, refl, sym, ap, ◌∙◌, Bool, true, false, none, some, List, [], ◌∷◌, ◌++◌, map, arith,
  All, All-append, leb, Bool-cases, inl, inr, not, if◌then◌else◌, if_cases, append_nil,
  append_assoc,
}
use silicon.Text.{Str, str_eq}
use silicon.Text.Laws.{str_eq_iff, str_eq→eq}
use silicon.FsPath.{parent_path}
use silicon.Logging.Levels.{LogLevel, level_rank, is_enabled}
use silicon.Logging.Logger.{
  FileStore, Logger, Call, moving, filtering, saying, formatting, message_of, line_text, apply,
  construct, reopen_stream_locked, set_log_path, write_open, write_line, parent_made, log_message,
  log,
}
use silicon.Logging.Reading.{Entry, read_file}
use silicon.Logging.Journal.{
  Journal, empty_journal, enter, note, notes, entries_at, text_of, entry_text, text_of-append,
  added_here, added_there, OneLine, OneLineCall, read_file-text_of, notes-OneLine,
}

-- A file system in which every path can be opened and different paths are different files.
pub record IsStore (S : FileStore) : Type 0 where
  pub append_at : (d : S.Disk) (p s : Str) → S.contents (S.append d p s) p ≡ S.contents d p ++ s
  pub append_elsewhere :
      (d : S.Disk) (p q s : Str) → p ≢ q → S.contents (S.append d p s) q ≡ S.contents d q
  pub directories_keep :
      (d : S.Disk) (p q : Str) → S.contents (S.create_directories d p) q ≡ S.contents d q
  pub open_keeps : (d : S.Disk) (p q : Str) → S.contents (S.open_append d p).0 q ≡ S.contents d q
  pub open_succeeds : (d : S.Disk) (p : Str) → (S.open_append d p).1 ≡ true

-- A relation in both branches of two conditionals on equal tests.
if_cases₂ :
    {A B : Type 0} (R : A → B → Type 0) (b c : Bool) {x x' : A} {y y' : B}
    → c ≡ b
    → R x y
    → R x' y'
    → R (if b then x else x') (if not c then y' else y)
if_cases₂ R true true e p q = p
if_cases₂ R true false e p q = absurd (ground (arith, e))
if_cases₂ R false true e p q = absurd (ground (arith, e))
if_cases₂ R false false e p q = q

module _ (S : FileStore) where
  abbrev pub run : List Call → Logger S → Logger S
  run [] l = l
  run (call ∷ calls) l = run calls (apply S call l)

  -- The logger implements the journal: the same file, open, and the same filter, and every file is
  -- what it was before with the journal's entries for it behind.
  pub record Implements (before : S.Disk) (j : Journal) (l : Logger S) : Type 0 where
    pub path : l.path ≡ j.path
    pub stream : l.stream ≡ some j.path
    pub min_level : l.min_level ≡ j.min_level
    pub files :
        (p : Str) → S.contents l.disk p ≡ S.contents before p ++ text_of (entries_at p j.entries)

  write_line-open :
      (now : ℕ) (level : LogLevel) (message p : Str) (l : Logger S)
      → l.stream ≡ some p
      → write_line S now level message l
        ≡ record l { disk = S.append l.disk p (line_text now level message ++ 10 ∷ []) }
  unfolding write_line write_open
  write_line-open now level message p l h = rw h refl

  module _ (laws : IsStore S) (before : S.Disk) where
    reopen-Implements :
        (j : Journal) (l : Logger S)
        → l.path ≡ j.path
        → l.min_level ≡ j.min_level
        → ((p : Str)
            → S.contents l.disk p ≡ S.contents before p ++ text_of (entries_at p j.entries))
        → Implements before j (reopen_stream_locked S l)
    unfolding reopen_stream_locked
    reopen-Implements j l path level files =
        let made : S.Disk = parent_made S l.disk l.path in
        record {
          path = path;
          stream =
              ap (λ (b : Bool). if b then some l.path else none) (laws.open_succeeds made l.path)
              ∙ ap some path;
          min_level = level;
          files = λ p.
              laws.open_keeps made l.path p
              ∙ if_cases (λ d. S.contents d p ≡ S.contents l.disk p) _
                  (laws.directories_keep l.disk (parent_path l.path) p) refl
              ∙ files p;
        }

    -- One entry more.
    entry_files :
        (j : Journal) (d : S.Disk) (e : Entry) (q : Str)
        → S.contents d q ≡ S.contents before q ++ text_of (entries_at q j.entries)
        → S.contents (S.append d j.path (entry_text e)) q
          ≡ S.contents before q ++ text_of (entries_at q (j.entries ++ (j.path, e) ∷ []))
    entry_files j d e q files = elim (Bool-cases (str_eq j.path q)) [
      | inl here ↦
          ap (λ p. S.contents (S.append d p (entry_text e)) q) (str_eq→eq j.path q here)
          ∙ laws.append_at d q (entry_text e)
          ∙ ap (λ t. t ++ entry_text e) files
          ∙ append_assoc (S.contents before q) (text_of (entries_at q j.entries)) (entry_text e)
          ∙ ap (λ t. S.contents before q ++ t) (sym (added_here j.path q e j.entries here))
      | inr there ↦
          laws.append_elsewhere d j.path q (entry_text e)
            (ground (arith, there, str_eq_iff j.path q))
          ∙ files
          ∙ ap (λ es. S.contents before q ++ text_of es)
              (sym (added_there j.path q e j.entries there))
    ]

    write-Implements :
        (e : Entry) (j : Journal) (l : Logger S)
        → Implements before j l
        → Implements before
            (record j { entries = j.entries ++ (j.path, e) ∷ [] })
            (write_line S e.time e.level e.message l)
    write-Implements e j l i =
        let after = record l { disk = S.append l.disk j.path (entry_text e) } in
        rw (write_line-open e.time e.level e.message j.path l i.stream) (record {
          path = i.path;
          stream = i.stream;
          min_level = i.min_level;
          files = λ q. entry_files j l.disk e q (i.files q);
        })

    enter-Implements :
        (e : Entry) (j : Journal) (l : Logger S)
        → Implements before j l
        → Implements before (enter e j) (log_message S e.time e.level e.message l)
    unfolding log_message is_enabled
    enter-Implements e j l i =
        if_cases₂ (Implements before) (leb (level_rank j.min_level) (level_rank e.level))
          (leb (level_rank l.min_level) (level_rank e.level))
          (ap (λ m. leb (level_rank m) (level_rank e.level)) i.min_level) (write-Implements e j l i)
          i

    apply-Implements :
        (call : Call) (j : Journal) (l : Logger S)
        → Implements before j l
        → Implements before (note call j) (apply S call l)
    unfolding apply set_log_path log log_message
    apply-Implements (moving path) j l i =
        reopen-Implements (record j { path = path }) (record l { path = path }) refl i.min_level
          i.files
    apply-Implements (filtering level) j l i = record {
      path = i.path;
      stream = i.stream;
      min_level = refl;
      files = i.files;
    }
    apply-Implements (saying now level message) j l i =
        enter-Implements (record { time = now; level = level; message = message }) j l i
    apply-Implements (formatting now level outcome) j l i =
        enter-Implements (record { time = now; level = level; message = message_of outcome }) j l i

    construct-Implements : Implements before empty_journal (construct S before)
    unfolding construct
    construct-Implements =
        reopen-Implements empty_journal _ refl refl (λ p. sym (append_nil (S.contents before p)))

    run-Implements :
        (calls : List Call) (j : Journal) (l : Logger S)
        → Implements before j l
        → Implements before (notes calls j) (run calls l)
    run-Implements [] j l i = i
    run-Implements (call ∷ calls) j l i =
        run-Implements calls (note call j) (apply S call l) (apply-Implements call j l i)

-- For any sequence of calls on a new logger, where every path can be opened and every message fills
-- one line: a file that held the lines of some entries reads back, at the end, as those entries and
-- behind them, in order, the entries of the calls that passed the filter while that file was set.
pub run-journal :
    (S : FileStore) (laws : IsStore S) (before : S.Disk) (calls : List Call) (path : Str)
    (es : List Entry)
    → S.contents before path ≡ text_of es
    → All OneLine es
    → All OneLineCall calls
    → read_file (S.contents (run S calls (construct S before)).disk path)
      ≡ map some (es ++ entries_at path (notes calls empty_journal).entries)
run-journal S laws before calls path es h lines calls_lines =
    let i =
      run-Implements S laws before calls empty_journal (construct S before)
        (construct-Implements S laws before) in
    let new : List Entry = entries_at path (notes calls empty_journal).entries in
    ap read_file (i.files path ∙ ap (λ t. t ++ text_of new) h ∙ sym (text_of-append es new))
    ∙ read_file-text_of (es ++ new)
        (All-append OneLine es new lines (notes-OneLine calls empty_journal path calls_lines tt))
