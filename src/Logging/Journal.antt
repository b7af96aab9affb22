-- ===== src/Logging/Journal.antt =====
-- What the operations of Logger of logging/logger.hpp promise: a journal of the messages that pass
-- the filter, each for the file that was set when it came.
use silicon.Prelude.{
  ◌≡◌, refl, sym, ap, ap₂, subst, ◌∙◌, true, false, some, Option, List, [], ◌∷◌, ◌++◌, map, arith,
  All, All-append, exists_in, leb, if◌then◌else◌, if_cases, append_nil, append_assoc,
}
use silicon.Text.{Str, codes, str_eq}
use silicon.Text.Laws.{str_eq_refl}
use silicon.Logging.Levels.{LogLevel, trace, level_rank}
use silicon.Logging.Logger.{Call, moving, filtering, saying, formatting, message_of, line_text}
use silicon.Logging.Reading.{Entry, lines_of, read_line, read_file, onto_first}
use silicon.Logging.Fields.{has_newline}
use silicon.Logging.RoundTrip.{read_line-line_text, line_text_one_line}

-- The specification: the current file, the filter, and the entries with their files.
pub record Journal : Type 0 where
  pub path : Str
  pub min_level : LogLevel
  pub entries : List (Str × Entry)

abbrev pub empty_journal : Journal
empty_journal = record {
  path = codes "runtime/logs/silicon_dev.log";
  min_level = trace;
  entries = [];
}

abbrev pub enter : Entry → Journal → Journal
enter entry j =
    if leb (level_rank j.min_level) (level_rank entry.level)
    then record j { entries = j.entries ++ (j.path, entry) ∷ [] }
    else j

abbrev pub note : Call → Journal → Journal
note (moving path) j = record j { path = path }
note (filtering level) j = record j { min_level = level }
note (saying now level message) j =
    enter (record { time = now; level = level; message = message }) j
note (formatting now level outcome) j =
    enter (record { time = now; level = level; message = message_of outcome }) j

abbrev pub notes : List Call → Journal → Journal
notes [] j = j
notes (call ∷ calls) j = notes calls (note call j)

-- The entries of one file.
abbrev pub entries_at : Str → List (Str × Entry) → List Entry
entries_at path [] = []
entries_at path ((file, entry) ∷ entries) =
    let rest = entries_at path entries in if str_eq file path then entry ∷ rest else rest

abbrev pub text_of : List Entry → Str
text_of [] = []
text_of (e ∷ es) = line_text e.time e.level e.message ++ 10 ∷ text_of es

pub entries_at-append :
    (path : Str) (xs ys : List (Str × Entry))
    → entries_at path (xs ++ ys) ≡ entries_at path xs ++ entries_at path ys
entries_at-append path [] ys = refl
entries_at-append path ((file, e) ∷ xs) ys = ground (arith, entries_at-append path xs ys)

pub text_of-append : (xs ys : List Entry) → text_of (xs ++ ys) ≡ text_of xs ++ text_of ys
text_of-append [] ys = refl
text_of-append (e ∷ es) ys =
    ap (λ t. line_text e.time e.level e.message ++ 10 ∷ t) (text_of-append es ys)
    ∙ sym (append_assoc (line_text e.time e.level e.message) (10 ∷ text_of es) (text_of ys))

abbrev pub entry_text : Entry → Str
entry_text e = line_text e.time e.level e.message ++ 10 ∷ []

pub added_here :
    (p q : Str) (e : Entry) (xs : List (Str × Entry))
    → str_eq p q ≡ true
    → text_of (entries_at q (xs ++ (p, e) ∷ [])) ≡ text_of (entries_at q xs) ++ entry_text e
added_here p q e xs h =
    ap text_of (entries_at-append q xs ((p, e) ∷ []))
    ∙ rw h (text_of-append (entries_at q xs) (e ∷ []))

pub added_there :
    (p q : Str) (e : Entry) (xs : List (Str × Entry))
    → str_eq p q ≡ false
    → entries_at q (xs ++ (p, e) ∷ []) ≡ entries_at q xs
added_there p q e xs h = entries_at-append q xs ((p, e) ∷ []) ∙ rw h (append_nil (entries_at q xs))

-- Messages that fill one line each.
abbrev pub OneLine : Entry → Type 0
OneLine e = has_newline e.message ≡ false

abbrev pub OneLineCall : Call → Type 0
OneLineCall (saying now level message) = has_newline message ≡ false
OneLineCall (formatting now level outcome) = has_newline (message_of outcome) ≡ false
OneLineCall _ = Unit

lines_of-line :
    (s rest : Str) → has_newline s ≡ false → lines_of (s ++ 10 ∷ rest) ≡ s ∷ lines_of rest
unfolding lines_of exists_in onto_first
lines_of-line [] rest h = refl
lines_of-line (c ∷ s) rest h = ground (arith, h, lines_of-line s rest (ground (arith, h)))

-- A file of the journal reads back as its entries.
pub read_file-text_of : (es : List Entry) → All OneLine es → read_file (text_of es) ≡ map some es
unfolding read_file
read_file-text_of [] h = unfold lines_of in refl
read_file-text_of (e ∷ es) (h, hs) =
    ap (λ ls. map read_line ls)
      (lines_of-line (line_text e.time e.level e.message) (text_of es)
        (line_text_one_line e.time e.level e.message h))
    ∙ ap₂ (λ (o : Option Entry) (os : List (Option Entry)). o ∷ os)
        (read_line-line_text e.time e.level e.message) (read_file-text_of es hs)

pub enter-enabled :
    (e : Entry) (j : Journal)
    → leb (level_rank j.min_level) (level_rank e.level) ≡ true
    → enter e j ≡ record j { entries = j.entries ++ (j.path, e) ∷ [] }
enter-enabled e j h = rw h refl

pub enter-disabled :
    (e : Entry) (j : Journal)
    → leb (level_rank j.min_level) (level_rank e.level) ≡ false
    → enter e j ≡ j
enter-disabled e j h = rw h refl

pub entry_added :
    (e : Entry) (j : Journal)
    → entries_at j.path (j.entries ++ (j.path, e) ∷ []) ≡ entries_at j.path j.entries ++ e ∷ []
entry_added e j =
    entries_at-append j.path j.entries ((j.path, e) ∷ []) ∙ rw (str_eq_refl j.path) refl

enter-OneLine :
    (e : Entry) (j : Journal) (path : Str)
    → OneLine e
    → All OneLine (entries_at path j.entries)
    → All OneLine (entries_at path (enter e j).entries)
enter-OneLine e j path h hs =
    if_cases (λ (i : Journal). All OneLine (entries_at path i.entries))
      (leb (level_rank j.min_level) (level_rank e.level))
      (subst (All OneLine) (sym (entries_at-append path j.entries ((j.path, e) ∷ []))) (
        All-append OneLine (entries_at path j.entries) _ hs
          (if_cases (All OneLine) (str_eq j.path path) (h, tt) tt)))
      hs

pub notes-OneLine :
    (calls : List Call) (j : Journal) (path : Str)
    → All OneLineCall calls
    → All OneLine (entries_at path j.entries)
    → All OneLine (entries_at path (notes calls j).entries)
notes-OneLine [] j path h hs = hs
notes-OneLine (call ∷ calls) j path (h, hs) k =
    notes-OneLine calls (note call j) path hs (go call h)
  where
    go : (c : Call) → OneLineCall c → All OneLine (entries_at path (note c j).entries)
    go (moving p) h = k
    go (filtering level) h = k
    go (saying now level message) h =
        enter-OneLine (record { time = now; level = level; message = message }) j path h k
    go (formatting now level outcome) h =
        enter-OneLine (record { time = now; level = level; message = message_of outcome }) j path h
          k
