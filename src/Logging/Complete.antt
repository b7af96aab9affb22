-- ===== src/Logging/Complete.antt =====
-- Two threads that log in turns through Logger of logging/logger.hpp write all their lines.
use silicon.Prelude.{
  ℕ, zero, suc, ◌+◌, ◌*◌, ◌≤◌, ◌≡◌, sym, ap, subst, ◌∙◌, true, false, ◌||◌, inl, inr, some, List,
  [], ◌++◌, map, arith, All, length, append_nil,
}
use silicon.Text.{Str}
use silicon.Logging.Levels.{LogLevel}
use silicon.Logging.Logger.{FileStore, Logger, Call}
use silicon.Logging.Reading.{Entry, read_file}
use silicon.Logging.Journal.{text_of, OneLine}
use silicon.Logging.Refinement.{IsStore}
use silicon.Logging.Interleaving.{Merge, Logs, entries_of}
use silicon.Logging.Threads.{
  idle, Thread, System, advance, turn, turns, view_first, view_second, starting,
}
use silicon.Logging.Untorn.{inside, pending}
use silicon.Logging.Schedules.{turn-Written, turns-Written, starting-Written, turns-Merge}
use silicon.Logging.Rounds.{
  rounds, weight, costless, callless, total, Fine, round-lighter, first_Advances, second_Advances,
  never_heavier,
}

-- A thread that has nothing left to do.
abbrev pub ended : Thread
ended = record { place = idle; calls = [] }

weightless : (t : Thread) → weight t ≤ 0 → t ≡ ended
weightless t h =
    let p = costless t.place (omega (arith, h)) in
    let c = callless t.calls (omega (arith, h)) in
    ap (λ q. record { place = q; calls = t.calls }) p
    ∙ ap (λ cs. record { place = idle; calls = cs }) c

module _ (S : FileStore) (laws : IsStore S) (level : LogLevel) (path base : Str)
    (xs ys : List Call) where
  abbrev sum : System S → ℕ
  sum s = total S laws level path base xs ys s

  round-no_heavier :
      (s : System S)
      → Fine S laws level path base xs ys s
      → sum (turn S false (turn S true s)) ≤ sum s
  unfolding turn
  round-no_heavier s h =
      let t = turn S true s in
      omega (
        arith,
        never_heavier S level path base (view_first S s) (advance S s.first.place (view_first S s))
            (first_Advances S laws level path base xs ys s h),
        never_heavier S level path base (view_second S t)
            (advance S t.second.place (view_second S t))
            (second_Advances S laws level path base xs ys t
              (turn-Written S laws level path base xs ys true s h)),
      )

  rounds-ended :
      (n : ℕ) (s : System S)
      → Fine S laws level path base xs ys s
      → sum s ≤ n
      → sum (turns S (rounds n) s) ≤ 0
  unfolding turns
  rounds-ended zero s h l = l
  rounds-ended (suc n) s h l =
      let t = turn S false (turn S true s) in
      let fine =
        turn-Written S laws level path base xs ys false (turn S true s)
          (turn-Written S laws level path base xs ys true s h) in
      rounds-ended n t fine (elim (round-lighter S laws level path base xs ys s h) [
        | inl lighter ↦ omega (arith, lighter, l)
        | inr over ↦ omega (arith, over, round-no_heavier s h)
      ])

-- Two threads that log messages of one line and take their steps in turns, eleven for each message
-- of either, come to their end, with the lock free: neither waits for ever. Where every path can be
-- opened and the open log held the lines of some entries, the file then reads back as those and
-- behind them an interleaving of all that each thread logs and that passes the filter, in its order.
pub rounds-Merge :
    (S : FileStore) (laws : IsStore S) (level : LogLevel) (path : Str) (es : List Entry)
    (l : Logger S) (xs ys : List Call) (n : ℕ)
    → l.stream ≡ some path
    → l.min_level ≡ level
    → S.contents l.disk path ≡ text_of es
    → All OneLine es
    → All Logs xs
    → All Logs ys
    → 11 * length xs + 11 * length ys ≤ n
    → let s = turns S (rounds n) (starting S l xs ys) in
      (merged : List Entry) × (s.held ≡ false)
      × (s.first ≡ ended)
      × (s.second ≡ ended)
      × (read_file (S.contents s.logger.disk path) ≡ map some (es ++ merged))
      × Merge (entries_of level xs) (entries_of level ys) merged
rounds-Merge S laws level path es l xs ys n stream filter file lines x_logs y_logs enough =
    let begun =
      starting-Written S laws level path (text_of es) xs ys l stream filter file x_logs y_logs in
    let s = turns S (rounds n) (starting S l xs ys) in
    let over : weight s.first + weight s.second ≤ 0 =
      rounds-ended S laws level path (text_of es) xs ys n (starting S l xs ys) begun
        (omega (arith, enough)) in
    let first = weightless s.first (omega (arith, over)) in
    let second = weightless s.second (omega (arith, over)) in
    let w =
      turns-Written S laws level path (text_of es) xs ys (rounds n) (starting S l xs ys) begun in
    let unlocked : s.held ≡ false =
      w.first_fits.lock
      ∙ ap (λ (t : Thread). inside t.place || inside s.second.place) first
      ∙ ap (λ (t : Thread). inside t.place) second in
    let (firsts, seconds, merged, decoded, merge, xs_split, ys_split) =
      turns-Merge S laws level path es l xs ys (rounds n) stream filter file lines x_logs y_logs
        unlocked in
    let all_first : firsts ≡ entries_of level xs =
      sym (append_nil firsts)
      ∙ ap (λ (t : Thread). firsts ++ pending level t) (sym first)
      ∙ sym xs_split in
    let all_second : seconds ≡ entries_of level ys =
      sym (append_nil seconds)
      ∙ ap (λ (t : Thread). seconds ++ pending level t) (sym second)
      ∙ sym ys_split in
    (
      merged,
      unlocked,
      first,
      second,
      decoded,
      subst (λ ps. Merge ps (entries_of level ys) merged) all_first
          (subst (λ ps. Merge firsts ps merged) all_second merge),
    )
