-- ===== src/Logging/Rounds.antt =====
-- Two threads that log at the same time through Logger of logging/logger.hpp come to an end: neither
-- waits for the lock for ever.
use silicon.Prelude.{
  ℕ, zero, suc, ◌+◌, ◌*◌, ◌≤◌, ◌≡◌, refl, sym, ap, subst, Bool, true, false, ◌⊎◌, inl, inr, some,
  List, [], ◌∷◌, arith, All, length, if_cases,
}
use silicon.Text.{Str}
use silicon.Logging.Levels.{LogLevel, is_enabled}
use silicon.Logging.Logger.{
  FileStore, Logger, Call, moving, filtering, saying, formatting, message_of,
}
use silicon.Logging.Reading.{Entry}
use silicon.Logging.Refinement.{IsStore}
use silicon.Logging.Interleaving.{Logs}
use silicon.Logging.Threads.{
  Place, idle, entered, stamped, locked, writing, Thread, View, System, enter_line, begin, acquire,
  put, advance, turn, view_first, view_second,
}
use silicon.Logging.Untorn.{inside, view, look_lem}
use silicon.Logging.Schedules.{Written, turn-Written}

-- The steps of a thread to the end of its call, and of all its calls, the waiting left out.
abbrev pub cost : Place → ℕ
cost idle = 0
cost (entered e) = 10
cost (stamped e) = 9
cost (locked e) = 8
cost (writing e rest) = 1 + length rest

abbrev pub weight : Thread → ℕ
weight t = cost t.place + 11 * length t.calls

-- The two threads take turns.
abbrev pub rounds : ℕ → List Bool
rounds zero = []
rounds (suc n) = true ∷ false ∷ rounds n

pub costless : (p : Place) → cost p ≤ 0 → p ≡ idle
costless idle h = refl
costless (entered e) h = absurd (omega (arith, h))
costless (stamped e) h = absurd (omega (arith, h))
costless (locked e) h = absurd (omega (arith, h))
costless (writing e rest) h = absurd (omega (arith, h))

pub callless : (calls : List Call) → 11 * length calls ≤ 0 → calls ≡ []
callless [] h = refl
callless (call ∷ calls) h = absurd (omega (arith, h))

weightless-outside : (t : Thread) → weight t ≤ 0 → inside t.place ≡ false
weightless-outside t h = ap inside (costless t.place (omega (arith, h)))

module _ (S : FileStore) (level : LogLevel) (path base : Str) where
  abbrev seen : Logger S → Bool → Place → List Call → View S
  seen l held place calls = view S level path base l held place calls

  -- A step brings the thread nearer to its end; if not, it changes nothing, and the thread has ended
  -- or waits for a lock that is held.
  abbrev Advances : View S → View S → Type 0
  Advances v w =
      (weight w.thread + 1 ≤ weight v.thread)
      ⊎ ((w ≡ v) × ((weight v.thread ≤ 0) ⊎ ((inside v.thread.place ≡ false) × (v.held ≡ true))))

  entering :
      (l : Logger S) (held : Bool) (e : Entry) (call : Call) (calls : List Call)
      → Advances
          (seen l held idle (call ∷ calls))
          (enter_line S e calls (seen l held idle (call ∷ calls)))
  unfolding enter_line
  entering l held e call calls = inl (
      if_cases (λ (q : Place). cost q + 11 * length calls + 1 ≤ 0 + 11 * length (call ∷ calls))
        (is_enabled l.min_level e.level) (omega arith) (omega arith))

  advance-Advances :
      (l : Logger S) (held : Bool) (place : Place) (calls : List Call)
      → l.stream ≡ some path
      → All Logs calls
      → Advances (seen l held place calls) (advance S place (seen l held place calls))
  unfolding advance begin acquire put
  advance-Advances l held idle [] stream logs = inr (refl, inl (omega arith))
  advance-Advances l held idle (moving p ∷ calls) stream logs = absurd logs.0
  advance-Advances l held idle (filtering m ∷ calls) stream logs = absurd logs.0
  advance-Advances l held idle (saying now m message ∷ calls) stream logs =
      entering l held (record { time = now; level = m; message = message }) (saying now m message)
        calls
  advance-Advances l held idle (formatting now m outcome ∷ calls) stream logs =
      entering l held (record { time = now; level = m; message = message_of outcome })
        (formatting now m outcome) calls
  advance-Advances l held (entered e) calls stream logs = inl (omega arith)
  advance-Advances l true (stamped e) calls stream logs = inr (refl, inr (refl, refl))
  advance-Advances l false (stamped e) calls stream logs = inl (omega arith)
  advance-Advances l held (locked e) calls stream logs =
      subst (Advances (seen l held (locked e) calls))
        (sym (look_lem S level path base l held e calls stream)) (inl (omega arith))
  advance-Advances l held (writing e []) calls stream logs = inl (omega arith)
  advance-Advances l held (writing e (piece ∷ rest)) calls stream logs = inl (omega arith)

  pub never_heavier : (v w : View S) → Advances v w → weight w.thread ≤ weight v.thread
  never_heavier v w (inl lighter) = omega (arith, lighter)
  never_heavier v w (inr (same, why)) = omega (arith, ap (λ (u : View S). weight u.thread) same)

module _ (S : FileStore) (laws : IsStore S) (level : LogLevel) (path base : Str)
    (xs ys : List Call) where
  abbrev pub Fine : System S → Type 0
  Fine s = Written S laws level path base xs ys s

  abbrev pub total : System S → ℕ
  total s = weight s.first + weight s.second

  pub first_Advances :
      (s : System S)
      → Fine s
      → Advances S level path base (view_first S s) (advance S s.first.place (view_first S s))
  first_Advances s h =
      advance-Advances S level path base s.logger s.held s.first.place s.first.calls
        h.first_fits.stream h.first_fits.logs

  pub second_Advances :
      (s : System S)
      → Fine s
      → Advances S level path base (view_second S s) (advance S s.second.place (view_second S s))
  second_Advances s h =
      advance-Advances S level path base s.logger s.held s.second.place s.second.calls
        h.second_fits.stream h.second_fits.logs

  -- One turn of the second thread where the first one is at its end or waits.
  second_alone :
      (s : System S)
      → Fine s
      → (weight s.first ≤ 0) ⊎ ((inside s.first.place ≡ false) × (s.held ≡ true))
      → (total (turn S false s) + 1 ≤ total s) ⊎ (total s ≤ 0)
  unfolding turn
  second_alone s h why = go (second_Advances s h) why
    where
      go :
          Advances S level path base (view_second S s) (advance S s.second.place (view_second S s))
          → (weight s.first ≤ 0) ⊎ ((inside s.first.place ≡ false) × (s.held ≡ true))
          → (total (turn S false s) + 1 ≤ total s) ⊎ (total s ≤ 0)
      go (inl lighter) why = inl (omega (arith, lighter))
      go (inr (same, inl done)) (inl over) = inr (omega (arith, done, over))
      go (inr (same, inl done)) (inr (out, held)) =
          absurd (ground (arith, weightless-outside s.second done, out, held, h.first_fits.lock))
      go (inr (same, inr (waits, held))) (inl over) =
          absurd (ground (arith, weightless-outside s.first over, waits, held, h.first_fits.lock))
      go (inr (same, inr (waits, held))) (inr (out, held')) =
          absurd (ground (arith, out, waits, held, h.first_fits.lock))

  -- A turn of each brings the two nearer to their end, unless both have ended.
  pub round-lighter :
      (s : System S) → Fine s → (total (turn S false (turn S true s)) + 1 ≤ total s) ⊎ (total s ≤ 0)
  unfolding turn
  round-lighter s h = go (first_Advances s h)
    where
      go :
          Advances S level path base (view_first S s) (advance S s.first.place (view_first S s))
          → (total (turn S false (turn S true s)) + 1 ≤ total s) ⊎ (total s ≤ 0)
      go (inl lighter) =
          let t = turn S true s in
          inl (
            omega (
              arith,
              lighter,
              never_heavier S level path base (view_second S t)
                  (advance S t.second.place (view_second S t))
                  (second_Advances t (turn-Written S laws level path base xs ys true s h)),
            ))
      go (inr (same, why)) =
          subst
            (λ (v : View S).
              (total
                    (turn S false (record s { logger = v.logger; held = v.held; first = v.thread }))
                  + 1
                ≤ total s)
              ⊎ (total s ≤ 0))
            (sym same) (second_alone s h why)
