-- ===== src/Logging/Threads.antt =====
-- Two threads that log through Logger of logging/logger.hpp at the same time, a step of one thread at
-- a time: is_enabled and timestamp() run outside mutex_, and each << into stream_ is a step.
use silicon.Prelude.{Bool, true, false, List, [], ◌∷◌, if◌then◌else◌}
use silicon.Text.{Str, codes}
use silicon.Logging.Levels.{level_label, is_enabled}
use silicon.Logging.Timestamp.{timestamp}
use silicon.Logging.Logger.{
  FileStore, Logger, Call, moving, filtering, saying, formatting, message_of, reopen_stream_locked,
  set_log_path, set_min_level, is_stream_open, write_open,
}
use silicon.Logging.Reading.{Entry}

-- Where a thread is, with the local variables that are live there. The time of an entry is what
-- timestamp() reads.
pub data Place : Type 0 where
  idle : Place  -- between two calls
  entered : Entry → Place  -- in write_line, past is_enabled, with the message formatted
  stamped : Entry → Place  -- past timestamp(), in front of the lock
  locked : Entry → Place  -- mutex_ taken, the stream not looked at yet
  writing : Entry → List Str → Place  -- with what is still to be written

pub record Thread : Type 0 where
  pub place : Place
  pub calls : List Call  -- still to be made

-- What << writes, one after the other.
abbrev pub pieces : Entry → List Str
pieces e =
    timestamp e.time ∷ codes " [" ∷ level_label e.level ∷ codes "] " ∷ e.message ∷ (10 ∷ []) ∷ []

module _ (S : FileStore) where
  -- What a step of a thread reads and writes: the logger, whether mutex_ is held, and the thread.
  pub record View : Type 0 where
    pub logger : Logger S
    pub held : Bool
    pub thread : Thread

  abbrev pub at : Place → View → View
  at place v = record v { thread = record (v.thread) { place = place } }

  -- is_enabled at the start of log and log_message.
  unfoldable pub enter_line : Entry → List Call → View → View
  enter_line e calls v = record v {
    thread = record {
      place = if is_enabled v.logger.min_level e.level then entered e else idle;
      calls = calls;
    };
  }

  -- The start of the next call. set_log_path waits for the lock and is one step under it.
  unfoldable pub begin : List Call → View → View
  begin [] v = v
  begin (moving path ∷ calls) v = if v.held then v else record v {
    logger = set_log_path S path v.logger;
    thread = record (v.thread) { calls = calls };
  }
  begin (filtering level ∷ calls) v = record v {
    logger = set_min_level S level v.logger;
    thread = record (v.thread) { calls = calls };
  }
  begin (saying now level message ∷ calls) v =
      enter_line (record { time = now; level = level; message = message }) calls v
  begin (formatting now level outcome ∷ calls) v =
      enter_line (record { time = now; level = level; message = message_of outcome }) calls v

  -- The lock is taken if nobody holds it; else the thread waits.
  unfoldable pub acquire : Entry → View → View
  acquire e v = if v.held then v else record (at (locked e) v) { held = true }

  -- The two tests of the stream: a line that cannot be written is given up.
  unfoldable pub look : Entry → View → View
  look e v =
      let ready =
        if is_stream_open S v.logger.stream then v.logger else reopen_stream_locked S v.logger in
      record (at (writing e (if is_stream_open S ready.stream then pieces e else [])) v) {
        logger = ready;
      }

  -- The next <<, or the end of the lock.
  unfoldable pub put : Entry → List Str → View → View
  put e [] v = record (at idle v) { held = false }
  put e (piece ∷ rest) v = record (at (writing e rest) v) {
    logger = write_open S v.logger.stream piece v.logger;
  }

  -- The next step of a thread.
  unfoldable pub advance : Place → View → View
  advance idle v = begin v.thread.calls v
  advance (entered e) v = at (stamped e) v
  advance (stamped e) v = acquire e v
  advance (locked e) v = look e v
  advance (writing e rest) v = put e rest v

  pub record System : Type 0 where
    pub logger : Logger S
    pub held : Bool
    pub first : Thread
    pub second : Thread

  abbrev pub view_first : System → View
  view_first s = record { logger = s.logger; held = s.held; thread = s.first }

  abbrev pub view_second : System → View
  view_second s = record { logger = s.logger; held = s.held; thread = s.second }

  abbrev pub first_did : System → View → System
  first_did s v = record s { logger = v.logger; held = v.held; first = v.thread }

  abbrev pub second_did : System → View → System
  second_did s v = record s { logger = v.logger; held = v.held; second = v.thread }

  -- A step of the first thread, or of the second.
  unfoldable pub turn : Bool → System → System
  turn true s = first_did s (advance s.first.place (view_first s))
  turn false s = second_did s (advance s.second.place (view_second s))

  unfoldable pub turns : List Bool → System → System
  turns [] s = s
  turns (who ∷ schedule) s = turns schedule (turn who s)

  abbrev pub starting : Logger S → List Call → List Call → System
  starting l xs ys = record {
    logger = l;
    held = false;
    first = record { place = idle; calls = xs };
    second = record { place = idle; calls = ys };
  }
