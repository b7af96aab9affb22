-- ===== src/Logging/Untorn.antt =====
-- What a step of one of two threads does to a log file of logging/logger.hpp: it may leave a line half
-- written, and mutex_ keeps the other thread out until the line is whole.
use silicon.Prelude.{
  ◌≡◌, refl, sym, ap, subst, ◌∙◌, Bool, true, false, ◌&&◌, ◌||◌, some, List, [], ◌∷◌, ◌++◌, arith,
  All, leb, if◌then◌else◌, append_nil, append_assoc, Bool-cases, inl, inr,
}
use silicon.Text.{Str}
use silicon.Logging.Levels.{LogLevel, level_rank, is_enabled}
use silicon.Logging.Logger.{
  FileStore, Logger, Call, moving, filtering, saying, formatting, message_of, line_text,
}
use silicon.Logging.Reading.{Entry}
use silicon.Logging.Journal.{text_of, entry_text}
use silicon.Logging.Interleaving.{Logs, filtered, entries_of}
use silicon.Logging.Threads.{
  Place, idle, entered, stamped, locked, writing, Thread, View, pieces, enter_line, begin, acquire,
  look,
}

-- Whether a thread that is here holds the lock.
abbrev pub inside : Place → Bool
inside idle = false
inside (entered e) = false
inside (stamped e) = false
inside (locked e) = true
inside (writing e rest) = true

abbrev pub joined : List Str → Str
joined [] = []
joined (piece ∷ rest) = piece ++ joined rest

joined-pieces : (e : Entry) → joined (pieces e) ≡ entry_text e
unfolding line_text
joined-pieces e = simp append_assoc refl

-- What a thread that is here has written of its line.
abbrev pub Part : Place → Str → Type 0
Part idle part = Unit
Part (entered e) part = Unit
Part (stamped e) part = Unit
Part (locked e) part = part ≡ []
Part (writing e rest) part = part ++ joined rest ≡ entry_text e

-- The entries that a thread is still to write: that of its call and those of the calls to come.
abbrev pub coming : Place → List Entry
coming idle = []
coming (entered e) = e ∷ []
coming (stamped e) = e ∷ []
coming (locked e) = e ∷ []
coming (writing e rest) = e ∷ []

abbrev pub pending : LogLevel → Thread → List Entry
pending level t = coming t.place ++ entries_of level t.calls

module _ (S : FileStore) (level : LogLevel) (path base : Str) where
  -- A thread's view of a log whose file holds the lines of some entries and a part of one more, with
  -- the other thread under the lock or not.
  pub record Fits (v : View S) (other : Bool) (written : List Entry) (part : Str) : Type 0 where
    pub stream : v.logger.stream ≡ some path
    pub filter : v.logger.min_level ≡ level
    pub file : S.contents v.logger.disk path ≡ (base ++ text_of written) ++ part
    pub lock : v.held ≡ (inside v.thread.place || other)
    pub alone : (inside v.thread.place && other) ≡ false
    pub free : v.held ≡ false → part ≡ []
    pub own : Part v.thread.place part
    pub logs : All Logs v.thread.calls

  -- A step writes the lines of some entries to their end, which the thread then need not write any
  -- more, and does not touch the part of a line of the other thread.
  pub record Goes (v w : View S) (other : Bool) (written : List Entry) (part : Str) : Type 0 where
    pub new : List Entry
    pub part_after : Str
    pub fits : Fits w other (written ++ new) part_after
    pub left : pending level v.thread ≡ new ++ pending level w.thread
    pub same : other ≡ true → part_after ≡ part

  abbrev pub view : Logger S → Bool → Place → List Call → View S
  view l held place calls = record {
    logger = l;
    held = held;
    thread = record { place = place; calls = calls };
  }

  -- A step that ends no line.
  pub quiet :
      (v w : View S) (other : Bool) (written : List Entry) (part : Str)
      → pending level v.thread ≡ pending level w.thread
      → Fits w other written part
      → Goes v w other written part
  quiet v w other written part e f = record {
    new = [];
    part_after = part;
    fits = subst (λ es. Fits w other es part) (sym (append_nil written)) f;
    left = e;
    same = λ h. refl;
  }

  module _ (other : Bool) (written : List Entry) (part : Str) (l : Logger S) (held : Bool) where
    -- Between two places without the lock.
    outside :
        (p q : Place) (calls calls' : List Call)
        → inside p ≡ false
        → inside q ≡ false
        → Part q part
        → All Logs calls'
        → Fits (view l held p calls) other written part
        → Fits (view l held q calls') other written part
    outside p q calls calls' a b own logs f = record {
      stream = f.stream;
      filter = f.filter;
      file = f.file;
      lock = f.lock ∙ ap (λ i. i || other) (a ∙ sym b);
      alone = ap (λ i. i && other) b;
      free = f.free;
      own = own;
      logs = logs;
    }

    enter_line-Goes :
        (e : Entry) (call : Call) (calls : List Call)
        → entries_of level (call ∷ calls) ≡ filtered level e ++ entries_of level calls
        → All Logs calls
        → Fits (view l held idle (call ∷ calls)) other written part
        → Goes
            (view l held idle (call ∷ calls))
            (enter_line S e calls (view l held idle (call ∷ calls)))
            other
            written
            part
    unfolding enter_line is_enabled
    enter_line-Goes e call calls entry logs f =
        let same_test = ap (λ m. leb (level_rank m) (level_rank e.level)) f.filter in
        let to : Place → Type 0 =
          λ q. Goes (view l held idle (call ∷ calls)) (view l held q calls) other written part in
        elim (Bool-cases (leb (level_rank level) (level_rank e.level))) [
          | inl on ↦ subst to (ap (λ b. if b then entered e else idle) (sym (same_test ∙ on))) (
              quiet (view l held idle (call ∷ calls)) (view l held (entered e) calls) other written
                part
                (entry ∙ ap (λ (b : Bool). (if b then e ∷ [] else []) ++ entries_of level calls) on)
                (outside idle (entered e) (call ∷ calls) calls refl refl tt logs f))
          | inr off ↦ subst to (ap (λ b. if b then entered e else idle) (sym (same_test ∙ off))) (
              quiet (view l held idle (call ∷ calls)) (view l held idle calls) other written part
                (entry
                  ∙ ap (λ (b : Bool). (if b then e ∷ [] else []) ++ entries_of level calls) off)
                (outside idle idle (call ∷ calls) calls refl refl tt logs f))
        ]

    pub begin-Goes :
        (calls : List Call)
        → Fits (view l held idle calls) other written part
        → Goes (view l held idle calls) (begin S calls (view l held idle calls)) other written part
    unfolding begin
    begin-Goes [] f = quiet (view l held idle []) (view l held idle []) other written part refl f
    begin-Goes (moving p ∷ calls) f = absurd f.logs.0
    begin-Goes (filtering m ∷ calls) f = absurd f.logs.0
    begin-Goes (saying now m message ∷ calls) f =
        enter_line-Goes (record { time = now; level = m; message = message }) (saying now m message)
          calls refl f.logs.1 f
    begin-Goes (formatting now m outcome ∷ calls) f =
        enter_line-Goes (record { time = now; level = m; message = message_of outcome })
          (formatting now m outcome) calls refl f.logs.1 f

  pub acquire-Goes :
      (other : Bool) (written : List Entry) (part : Str) (l : Logger S) (held : Bool) (e : Entry)
      (calls : List Call)
      → Fits (view l held (stamped e) calls) other written part
      → Goes
          (view l held (stamped e) calls)
          (acquire S e (view l held (stamped e) calls))
          other
          written
          part
  unfolding acquire
  acquire-Goes other written part l true e calls f =
      quiet (view l true (stamped e) calls) (view l true (stamped e) calls) other written part refl
        f
  acquire-Goes other written part l false e calls f =
      quiet (view l false (stamped e) calls) (view l true (locked e) calls) other written part refl
        (record {
          stream = f.stream;
          filter = f.filter;
          file = f.file;
          lock = refl;
          alone = sym f.lock;
          free = λ h. absurd (ground (arith, h));
          own = f.free refl;
          logs = f.logs;
        })

  pub look_lem :
      (l : Logger S) (held : Bool) (e : Entry) (calls : List Call)
      → l.stream ≡ some path
      → look S e (view l held (locked e) calls) ≡ view l held (writing e (pieces e)) calls
  unfolding look
  look_lem l held e calls h = rw h refl

  pub look-Goes :
      (other : Bool) (written : List Entry) (part : Str) (l : Logger S) (held : Bool) (e : Entry)
      (calls : List Call)
      → Fits (view l held (locked e) calls) other written part
      → Goes
          (view l held (locked e) calls)
          (look S e (view l held (locked e) calls))
          other
          written
          part
  look-Goes other written part l held e calls f =
      subst (λ w. Goes (view l held (locked e) calls) w other written part)
        (sym (look_lem l held e calls f.stream))
        (quiet (view l held (locked e) calls) (view l held (writing e (pieces e)) calls) other
          written part refl
          (record {
            stream = f.stream;
            filter = f.filter;
            file = f.file;
            lock = f.lock;
            alone = f.alone;
            free = f.free;
            own = ap (λ t. t ++ joined (pieces e)) f.own ∙ joined-pieces e;
            logs = f.logs;
          }))
