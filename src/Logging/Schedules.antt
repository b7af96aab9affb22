-- ===== src/Logging/Schedules.antt =====
-- Two threads that log at the same time through Logger of logging/logger.hpp: in every interleaving
-- of their steps the file holds whole lines.
use silicon.Prelude.{
  ◌≡◌, refl, sym, ap, subst, ◌∙◌, Bool, true, false, some, List, [], ◌∷◌, ◌++◌, map, arith, All,
  All-append, leb, if_cases, append_nil, append_assoc,
}
use silicon.Text.{Str}
use silicon.Logging.Levels.{LogLevel, level_rank}
use silicon.Logging.Logger.{FileStore, Logger, Call, moving, filtering, saying, formatting}
use silicon.Logging.Reading.{Entry, read_file}
use silicon.Logging.Journal.{text_of, text_of-append, OneLine, read_file-text_of}
use silicon.Logging.Refinement.{IsStore}
use silicon.Logging.Interleaving.{
  Merge, none_left, from_first, from_second, Logs, entry_of, entries_of, All-Merge,
}
use silicon.Logging.Threads.{
  Place, idle, entered, stamped, locked, writing, Thread, View, System, advance, turn, turns,
  view_first, view_second, starting,
}
use silicon.Logging.Untorn.{inside, Part, pending, Fits}
use silicon.Logging.Exclusion.{advance-Goes}

-- A thread without the lock has no part of a line in the file.
outside-Part : (p : Place) (part : Str) → inside p ≡ false → Part p part
outside-Part idle part h = tt
outside-Part (entered e) part h = tt
outside-Part (stamped e) part h = tt
outside-Part (locked e) part h = absurd (ground (arith, h))
outside-Part (writing e rest) part h = absurd (ground (arith, h))

-- The part of the thread that did not step.
kept-Part :
    (p : Place) (part after : Str) → Part p part → (inside p ≡ true → after ≡ part) → Part p after
kept-Part idle part after own same = tt
kept-Part (entered e) part after own same = tt
kept-Part (stamped e) part after own same = tt
kept-Part (locked e) part after own same = same refl ∙ own
kept-Part (writing e rest) part after own same = subst (Part (writing e rest)) (sym (same refl)) own

all_first : (es : List Entry) → Merge es [] es
all_first [] = none_left
all_first (e ∷ es) = from_first e (all_first es)

all_second : (es : List Entry) → Merge [] es es
all_second [] = none_left
all_second (e ∷ es) = from_second e (all_second es)

-- The first thread, or the second, writes the next entries.
Merge-then_first : (xs ys zs es : List Entry) → Merge xs ys zs → Merge (xs ++ es) ys (zs ++ es)
Merge-then_first xs ys zs es none_left = all_first es
Merge-then_first xs ys zs es (from_first x m) = from_first x (Merge-then_first _ ys _ es m)
Merge-then_first xs ys zs es (from_second y m) = from_second y (Merge-then_first xs _ _ es m)

Merge-then_second : (xs ys zs es : List Entry) → Merge xs ys zs → Merge xs (ys ++ es) (zs ++ es)
Merge-then_second xs ys zs es none_left = all_second es
Merge-then_second xs ys zs es (from_first x m) = from_first x (Merge-then_second _ ys _ es m)
Merge-then_second xs ys zs es (from_second y m) = from_second y (Merge-then_second xs _ _ es m)

module _ (S : FileStore) (laws : IsStore S) (level : LogLevel) (path base : Str)
    (xs ys : List Call) where
  -- What the two threads have written, and how the file stands to it.
  pub record Written (s : System S) : Type 0 where
    pub firsts : List Entry
    pub seconds : List Entry
    pub merged : List Entry
    pub part : Str
    pub merge : Merge firsts seconds merged
    pub first_left : entries_of level xs ≡ firsts ++ pending level s.first
    pub second_left : entries_of level ys ≡ seconds ++ pending level s.second
    pub first_fits : Fits S level path base (view_first S s) (inside s.second.place) merged part
    pub second_fits : Fits S level path base (view_second S s) (inside s.first.place) merged part

  -- The same log, seen from the thread that did not step.
  turned :
      (v : View S) (t : Thread) (written : List Entry) (part after : Str)
      → Fits S level path base v (inside t.place) written after
      → Part t.place part
      → (inside t.place ≡ true → after ≡ part)
      → All Logs t.calls
      → Fits S level path base (record v { thread = t }) (inside v.thread.place) written after
  turned v t written part after f own same logs = record {
    stream = f.stream;
    filter = f.filter;
    file = f.file;
    lock = ground (arith, f.lock);
    alone = ground (arith, f.alone);
    free = f.free;
    own = kept-Part t.place part after own same;
    logs = logs;
  }

  pub turn-Written : (who : Bool) (s : System S) → Written s → Written (turn S who s)
  unfolding turn
  turn-Written true s h =
      let g =
        advance-Goes S laws level path base (inside s.second.place) h.merged h.part s.logger s.held
          s.first.place s.first.calls h.first_fits in
      record {
        firsts = h.firsts ++ g.new;
        seconds = h.seconds;
        merged = h.merged ++ g.new;
        part = g.part_after;
        merge = Merge-then_first h.firsts h.seconds h.merged g.new h.merge;
        first_left =
            h.first_left ∙ ap (λ es. h.firsts ++ es) g.left ∙ sym (append_assoc h.firsts g.new _);
        second_left = h.second_left;
        first_fits = g.fits;
        second_fits =
            turned (advance S s.first.place (view_first S s)) s.second (h.merged ++ g.new) h.part
              g.part_after g.fits h.second_fits.own g.same h.second_fits.logs;
      }
  turn-Written false s h =
      let g =
        advance-Goes S laws level path base (inside s.first.place) h.merged h.part s.logger s.held
          s.second.place s.second.calls h.second_fits in
      record {
        firsts = h.firsts;
        seconds = h.seconds ++ g.new;
        merged = h.merged ++ g.new;
        part = g.part_after;
        merge = Merge-then_second h.firsts h.seconds h.merged g.new h.merge;
        first_left = h.first_left;
        second_left =
            h.second_left
            ∙ ap (λ es. h.seconds ++ es) g.left
            ∙ sym (append_assoc h.seconds g.new _);
        first_fits =
            turned (advance S s.second.place (view_second S s)) s.first (h.merged ++ g.new) h.part
              g.part_after g.fits h.first_fits.own g.same h.first_fits.logs;
        second_fits = g.fits;
      }

  pub turns-Written :
      (schedule : List Bool) (s : System S) → Written s → Written (turns S schedule s)
  unfolding turns
  turns-Written [] s h = h
  turns-Written (who ∷ schedule) s h = turns-Written schedule (turn S who s) (turn-Written who s h)

  pub starting-Written :
      (l : Logger S)
      → l.stream ≡ some path
      → l.min_level ≡ level
      → S.contents l.disk path ≡ base
      → All Logs xs
      → All Logs ys
      → Written (starting S l xs ys)
  starting-Written l stream filter file x_logs y_logs =
      let f : (calls : List Call)
          → All Logs calls
          → Fits S level path base
              (record { logger = l; held = false; thread = record { place = idle; calls = calls } })
              false [] [] =
        λ calls logs. record {
          stream = stream;
          filter = filter;
          file = file ∙ sym (append_nil base) ∙ sym (append_nil (base ++ []));
          lock = refl;
          alone = refl;
          free = λ h. refl;
          own = tt;
          logs = logs;
        } in
      record {
        firsts = [];
        seconds = [];
        merged = [];
        part = [];
        merge = none_left;
        first_left = refl;
        second_left = refl;
        first_fits = f xs x_logs;
        second_fits = f ys y_logs;
      }

entry_of-OneLine : (level : LogLevel) (call : Call) → Logs call → All OneLine (entry_of level call)
entry_of-OneLine level (moving p) h = tt
entry_of-OneLine level (filtering m) h = tt
entry_of-OneLine level (saying now m message) h =
    if_cases (All OneLine) (leb (level_rank level) (level_rank m)) (h, tt) tt
entry_of-OneLine level (formatting now m outcome) h =
    if_cases (All OneLine) (leb (level_rank level) (level_rank m)) (h, tt) tt

entries_of-OneLine :
    (level : LogLevel) (calls : List Call) → All Logs calls → All OneLine (entries_of level calls)
entries_of-OneLine level [] h = tt
entries_of-OneLine level (call ∷ calls) h =
    All-append OneLine (entry_of level call) (entries_of level calls)
      (entry_of-OneLine level call h.0) (entries_of-OneLine level calls h.1)

All-before : (P : Entry → Type 0) (xs ys : List Entry) → All P (xs ++ ys) → All P xs
All-before P [] ys h = tt
All-before P (x ∷ xs) ys h = (h.0, All-before P xs ys h.1)

-- Two threads log messages of one line, in any interleaving of their single steps: a test of the
-- filter, a time stamp, a lock, a look at the stream, one << after the other, an unlock. Where every
-- path can be opened and the open log held the lines of some entries, then whenever nobody holds the
-- lock the file reads back as those and behind them an interleaving of what each thread has written:
-- what it has to write and passes the filter, in its order, up to what is still to come. No line is
-- lost, torn or repeated.
pub turns-Merge :
    (S : FileStore) (laws : IsStore S) (level : LogLevel) (path : Str) (es : List Entry)
    (l : Logger S) (xs ys : List Call) (schedule : List Bool)
    → l.stream ≡ some path
    → l.min_level ≡ level
    → S.contents l.disk path ≡ text_of es
    → All OneLine es
    → All Logs xs
    → All Logs ys
    → (turns S schedule (starting S l xs ys)).held ≡ false
    → let s = turns S schedule (starting S l xs ys) in
      (firsts : List Entry) × (seconds : List Entry) × (merged : List Entry) × (read_file
          (S.contents s.logger.disk path)
        ≡ map some (es ++ merged))
      × Merge firsts seconds merged
      × (entries_of level xs ≡ firsts ++ pending level s.first)
      × (entries_of level ys ≡ seconds ++ pending level s.second)
turns-Merge S laws level path es l xs ys schedule stream filter file lines x_logs y_logs unlocked =
    let s = turns S schedule (starting S l xs ys) in
    let w =
      turns-Written S laws level path (text_of es) xs ys schedule (starting S l xs ys) (
        starting-Written S laws level path (text_of es) xs ys l stream filter file x_logs y_logs) in
    let firsts_lines =
      All-before OneLine w.firsts (pending level s.first)
        (subst (All OneLine) w.first_left (entries_of-OneLine level xs x_logs)) in
    let seconds_lines =
      All-before OneLine w.seconds (pending level s.second)
        (subst (All OneLine) w.second_left (entries_of-OneLine level ys y_logs)) in
    let merged_lines =
      All-Merge OneLine w.firsts w.seconds w.merged w.merge firsts_lines seconds_lines in
    (
      w.firsts,
      w.seconds,
      w.merged,
      ap read_file (
            w.first_fits.file
            ∙ ap (λ part. (text_of es ++ text_of w.merged) ++ part) (w.first_fits.free unlocked)
            ∙ append_nil (text_of es ++ text_of w.merged)
            ∙ sym (text_of-append es w.merged))
          ∙ read_file-text_of (es ++ w.merged) (All-append OneLine es w.merged lines merged_lines),
      w.merge,
      w.first_left,
      w.second_left,
    )
