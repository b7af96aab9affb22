-- ===== src/Logging/Interleaving.antt =====
-- Two threads that log through Logger of logging/logger.hpp, each whole call taken as one step: what
-- is written is an interleaving of the two threads' entries.
use silicon.Prelude.{
  ◌≡◌, refl, sym, ap, subst, ◌∙◌, some, List, [], ◌∷◌, ◌++◌, map, All, leb, if◌then◌else◌,
  append_nil, append_assoc, Bool-cases, inl, inr,
}
use silicon.Text.{Str}
use silicon.Logging.Levels.{LogLevel, level_rank}
use silicon.Logging.Logger.{
  FileStore, Call, moving, filtering, saying, formatting, message_of, construct,
}
use silicon.Logging.Reading.{Entry, read_file}
use silicon.Logging.Journal.{
  Journal, enter, enter-enabled, enter-disabled, entry_added, note, notes, entries_at, text_of,
  OneLine, OneLineCall,
}
use silicon.Logging.Refinement.{IsStore, run, run-journal}

-- The third list is made of the other two, each in its order.
pub data Merge {A : Type 0} : List A → List A → List A → Type 0 where
  none_left : Merge [] [] []
  from_first : (x : A) {xs ys zs : List A} → Merge xs ys zs → Merge (x ∷ xs) ys (x ∷ zs)
  from_second : (y : A) {xs ys zs : List A} → Merge xs ys zs → Merge xs (y ∷ ys) (y ∷ zs)

-- A call that logs a message of one line, and neither moves the log nor filters it.
abbrev pub Logs : Call → Type 0
Logs (moving path) = ⊥
Logs (filtering level) = ⊥
Logs call = OneLineCall call

-- What a message adds under a filter.
abbrev pub filtered : LogLevel → Entry → List Entry
filtered level e = if leb (level_rank level) (level_rank e.level) then e ∷ [] else []

abbrev pub entry_of : LogLevel → Call → List Entry
entry_of level (moving path) = []
entry_of level (filtering next) = []
entry_of level (saying now severity message) =
    filtered level (record { time = now; level = severity; message = message })
entry_of level (formatting now severity outcome) =
    filtered level (record { time = now; level = severity; message = message_of outcome })

-- The entries of some calls under a filter.
abbrev pub entries_of : LogLevel → List Call → List Entry
entries_of level [] = []
entries_of level (call ∷ calls) = entry_of level call ++ entries_of level calls

-- A journal and what it holds for its file.
record Holds (j : Journal) (path : Str) (level : LogLevel) (es : List Entry) : Type 0 where
  file : j.path ≡ path
  filter : j.min_level ≡ level
  entries : entries_at path j.entries ≡ es

enter-Holds :
    (e : Entry) (j : Journal) (path : Str) (level : LogLevel) (es : List Entry)
    → Holds j path level es
    → Holds (enter e j) path level (es ++ filtered level e)
enter-Holds e j path level es h = elim (Bool-cases (leb (level_rank level) (level_rank e.level))) [
  | inl on ↦
      let enabled = ap (λ l. leb (level_rank l) (level_rank e.level)) h.filter ∙ on in
      rw on (
        subst (λ i. Holds i path level (es ++ e ∷ [])) (sym (enter-enabled e j enabled))
          (record {
            file = h.file;
            filter = h.filter;
            entries =
                ap (λ p. entries_at p (j.entries ++ (j.path, e) ∷ [])) (sym h.file)
                ∙ entry_added e j
                ∙ ap (λ p. entries_at p j.entries ++ e ∷ []) h.file
                ∙ ap (λ t. t ++ e ∷ []) h.entries;
          }))
  | inr off ↦
      let disabled = ap (λ l. leb (level_rank l) (level_rank e.level)) h.filter ∙ off in
      rw off (
        subst (λ i. Holds i path level (es ++ [])) (sym (enter-disabled e j disabled))
          (record { file = h.file; filter = h.filter; entries = h.entries ∙ sym (append_nil es) }))
]

note-Holds :
    (call : Call) (j : Journal) (path : Str) (level : LogLevel) (es : List Entry)
    → Logs call
    → Holds j path level es
    → Holds (note call j) path level (es ++ entry_of level call)
note-Holds (moving p) j path level es l h = absurd l
note-Holds (filtering m) j path level es l h = absurd l
note-Holds (saying now severity message) j path level es l h = enter-Holds _ j path level es h
note-Holds (formatting now severity outcome) j path level es l h = enter-Holds _ j path level es h

notes-Holds :
    (calls : List Call) (j : Journal) (path : Str) (level : LogLevel) (es : List Entry)
    → All Logs calls
    → Holds j path level es
    → Holds (notes calls j) path level (es ++ entries_of level calls)
notes-Holds [] j path level es l h = record {
  file = h.file;
  filter = h.filter;
  entries = h.entries ∙ sym (append_nil es);
}
notes-Holds (call ∷ calls) j path level es (l, ls) h =
    subst (Holds (notes (call ∷ calls) j) path level)
      (append_assoc es (entry_of level call) (entries_of level calls))
      (notes-Holds calls (note call j) path level (es ++ entry_of level call) ls
        (note-Holds call j path level es l h))

Merge-first :
    {A : Type 0} (es : List A) {xs ys zs : List A} → Merge xs ys zs → Merge (es ++ xs) ys (es ++ zs)
Merge-first [] m = m
Merge-first (e ∷ es) m = from_first e (Merge-first es m)

Merge-second :
    {A : Type 0} (es : List A) {xs ys zs : List A} → Merge xs ys zs → Merge xs (es ++ ys) (es ++ zs)
Merge-second [] m = m
Merge-second (e ∷ es) m = from_second e (Merge-second es m)

Merge-entries_of :
    (level : LogLevel) (xs ys zs : List Call)
    → Merge xs ys zs
    → Merge (entries_of level xs) (entries_of level ys) (entries_of level zs)
Merge-entries_of level xs ys zs none_left = none_left
Merge-entries_of level xs ys zs (from_first x m) =
    Merge-first (entry_of level x) (Merge-entries_of level _ ys _ m)
Merge-entries_of level xs ys zs (from_second y m) =
    Merge-second (entry_of level y) (Merge-entries_of level xs _ _ m)

pub All-Merge :
    {A : Type 0} (P : A → Type 0) (xs ys zs : List A)
    → Merge xs ys zs
    → All P xs
    → All P ys
    → All P zs
All-Merge P xs ys zs none_left h k = tt
All-Merge P xs ys zs (from_first x m) h k = (h.0, All-Merge P _ ys _ m h.1 k)
All-Merge P xs ys zs (from_second y m) h k = (k.0, All-Merge P xs _ _ m h k.1)

Logs-OneLineCall : (calls : List Call) → All Logs calls → All OneLineCall calls
Logs-OneLineCall [] h = tt
Logs-OneLineCall (moving p ∷ calls) h = (tt, Logs-OneLineCall calls h.1)
Logs-OneLineCall (filtering l ∷ calls) h = (tt, Logs-OneLineCall calls h.1)
Logs-OneLineCall (saying n l m ∷ calls) h = (h.0, Logs-OneLineCall calls h.1)
Logs-OneLineCall (formatting n l o ∷ calls) h = (h.0, Logs-OneLineCall calls h.1)

-- Two threads each log messages of one line, in any interleaving of their calls, after a call that
-- sets the file and a call that sets the filter, where every path can be opened: the file, if it
-- held the lines of some entries, reads back as those and behind them an interleaving of what each
-- thread logged that passes the filter: no entry is lost or repeated, and those of each thread keep
-- their order.
pub run-Merge :
    (S : FileStore) (laws : IsStore S) (before : S.Disk) (xs ys zs : List Call) (path : Str)
    (level : LogLevel) (es : List Entry)
    → S.contents before path ≡ text_of es
    → All OneLine es
    → All Logs xs
    → All Logs ys
    → Merge xs ys zs
    → (merged : List Entry) × (read_file
          (S.contents (run S (moving path ∷ filtering level ∷ zs) (construct S before)).disk path)
        ≡ map some (es ++ merged))
      × Merge (entries_of level xs) (entries_of level ys) merged
run-Merge S laws before xs ys zs path level es h lines xs_log ys_log m =
    let zs_log = All-Merge Logs xs ys zs m xs_log ys_log in
    let held =
      notes-Holds zs (record { path = path; min_level = level; entries = [] }) path level [] zs_log
        (record { file = refl; filter = refl; entries = refl }) in
    (
      entries_of level zs,
      run-journal S laws before (moving path ∷ filtering level ∷ zs) path es h lines
            (tt, (tt, Logs-OneLineCall zs zs_log))
          ∙ ap (λ new. map some (es ++ new)) held.entries,
      Merge-entries_of level xs ys zs m,
    )
