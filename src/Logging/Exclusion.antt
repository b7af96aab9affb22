-- ===== src/Logging/Exclusion.antt =====
-- Any step of one of two threads that log at the same time through Logger of logging/logger.hpp.
use silicon.Prelude.{
  ◌≡◌, refl, sym, ap, subst, ◌∙◌, Bool, some, List, [], ◌∷◌, ◌++◌, arith, append_nil, append_assoc,
}
use silicon.Text.{Str}
use silicon.Logging.Levels.{LogLevel}
use silicon.Logging.Logger.{FileStore, Logger, Call, write_open}
use silicon.Logging.Reading.{Entry}
use silicon.Logging.Journal.{text_of, text_of-append}
use silicon.Logging.Refinement.{IsStore}
use silicon.Logging.Threads.{Place, idle, entered, stamped, locked, writing, View, put, advance}
use silicon.Logging.Untorn.{joined, Fits, Goes, view, quiet, begin-Goes, acquire-Goes, look-Goes}

module _ (S : FileStore) (laws : IsStore S) (level : LogLevel) (path base : Str) where
  abbrev Fitting : View S → Bool → List Entry → Str → Type 0
  Fitting v other written part = Fits S level path base v other written part

  abbrev Going : View S → View S → Bool → List Entry → Str → Type 0
  Going v w other written part = Goes S level path base v w other written part

  -- One << more of a line.
  wrote :
      (l : Logger S) (piece : Str)
      → l.stream ≡ some path
      → write_open S l.stream piece l ≡ record l { disk = S.append l.disk path piece }
  unfolding write_open
  wrote l piece h = rw h refl

  module _ (other : Bool) (written : List Entry) (part : Str) (l : Logger S) (held : Bool) where
    put-Goes :
        (e : Entry) (rest : List Str) (calls : List Call)
        → Fitting (view S level path base l held (writing e rest) calls) other written part
        → Going
            (view S level path base l held (writing e rest) calls)
            (put S e rest (view S level path base l held (writing e rest) calls))
            other
            written
            part
    unfolding put
    put-Goes e [] calls f = record {
      new = e ∷ [];
      part_after = [];
      fits = record {
        stream = f.stream;
        filter = f.filter;
        file =
            f.file
            ∙ append_assoc base (text_of written) part
            ∙ ap (λ t. base ++ (text_of written ++ t)) (sym (append_nil part) ∙ f.own)
            ∙ ap (λ t. base ++ t) (sym (text_of-append written (e ∷ [])))
            ∙ sym (append_nil (base ++ text_of (written ++ e ∷ [])));
        lock = sym f.alone;
        alone = refl;
        free = λ h. refl;
        own = tt;
        logs = f.logs;
      };
      left = refl;
      same = λ h. absurd (ground (arith, h, f.alone));
    }
    put-Goes e (piece ∷ rest) calls f =
        let l' = record l { disk = S.append l.disk path piece } in
        subst
          (λ k.
            Going (view S level path base l held (writing e (piece ∷ rest)) calls)
              (view S level path base k held (writing e rest) calls) other written part)
          (sym (wrote l piece f.stream))
          (record {
            new = [];
            part_after = part ++ piece;
            fits = record {
              stream = f.stream;
              filter = f.filter;
              file =
                  laws.append_at l.disk path piece
                  ∙ ap (λ t. t ++ piece) f.file
                  ∙ append_assoc (base ++ text_of written) part piece
                  ∙ ap (λ es. (base ++ text_of es) ++ (part ++ piece)) (sym (append_nil written));
              lock = f.lock;
              alone = f.alone;
              free = λ h. absurd (ground (arith, h, f.lock));
              own = append_assoc part piece (joined rest) ∙ f.own;
              logs = f.logs;
            };
            left = refl;
            same = λ h. absurd (ground (arith, h, f.alone));
          })

    pub advance-Goes :
        (place : Place) (calls : List Call)
        → Fitting (view S level path base l held place calls) other written part
        → Going
            (view S level path base l held place calls)
            (advance S place (view S level path base l held place calls))
            other
            written
            part
    unfolding advance
    advance-Goes idle calls f = begin-Goes S level path base other written part l held calls f
    advance-Goes (entered e) calls f =
        quiet S level path base (view S level path base l held (entered e) calls)
          (view S level path base l held (stamped e) calls) other written part refl
          (record {
            stream = f.stream;
            filter = f.filter;
            file = f.file;
            lock = f.lock;
            alone = refl;
            free = f.free;
            own = tt;
            logs = f.logs;
          })
    advance-Goes (stamped e) calls f =
        acquire-Goes S level path base other written part l held e calls f
    advance-Goes (locked e) calls f =
        look-Goes S level path base other written part l held e calls f
    advance-Goes (writing e rest) calls f = put-Goes e rest calls f
