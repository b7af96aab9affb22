-- ===== src/Agent/Shutdown.antt =====
-- When Agent::run of agent/Agent.hpp returns, and what it has logged by then.
use silicon.Prelude.{
  ℕ, ◌≡◌, ◌≢◌, refl, sym, ap, ◌∙◌, Bool, true, false, not, ◌||◌, List, [], ◌∷◌, ◌++◌, map, ◌==◌,
  arith, is_empty, if◌then◌else◌, Bool-cases, inl, inr, append_nil, append_assoc, if_cases,
}
use silicon.Agent.Signals.{
  Signal, sigint, sigterm, number, Flags, no_signal, handle_signal, deliver,
}
use silicon.Agent.Run.{turn, heartbeats}
use silicon.Agent.Loop.{
  Agent, running, shutting_down, starting, AgentLine, entered, heartbeat, requested_by_signal, Wake,
  Progress, set_state, shut_down, loop, run,
}

-- The number of the last of some signals.
abbrev pub last_number : ℕ → List Signal → ℕ
last_number n [] = n
last_number n (signal ∷ signals) = last_number (number signal) signals

last_number-append :
    (n : ℕ) (xs ys : List Signal) → last_number n (xs ++ ys) ≡ last_number (last_number n xs) ys
last_number-append n [] ys = refl
last_number-append n (x ∷ xs) ys = last_number-append (number x) xs ys

-- The turns up to the first in which a signal comes.
abbrev pub until_signal : List Wake → List Wake
until_signal [] = []
until_signal (wake ∷ wakes) =
    let rest = until_signal wakes in if is_empty wake.signals then wake ∷ rest else wake ∷ []

-- The signals of that turn.
abbrev pub first_signals : List Wake → List Signal
first_signals [] = []
first_signals (wake ∷ wakes) =
    let rest = first_signals wakes in if is_empty wake.signals then rest else wake.signals

-- Whether a signal comes at all.
abbrev pub is_signalled : List Wake → Bool
is_signalled [] = false
is_signalled (wake ∷ wakes) = not (is_empty wake.signals) || is_signalled wakes

-- What run has logged when it returns.
abbrev pub whole_log : ℕ → ℕ → List Wake → List Signal → List AgentLine
whole_log interval next_heartbeat turns signals =
    entered starting
    ∷ entered running
    ∷ (map heartbeat (heartbeats interval next_heartbeat (map (λ (w : Wake). w.now) turns))
        ++ requested_by_signal (last_number 0 signals) ∷ entered shutting_down ∷ [])

deliver_lem :
    (signals : List Signal) (flags : Flags)
    → deliver signals flags ≡ record {
      shutdown_requested = if is_empty signals then flags.shutdown_requested else true;
      last_signal = last_number flags.last_signal signals;
    }
unfolding deliver handle_signal
deliver_lem [] flags = refl
deliver_lem (signal ∷ signals) flags =
    deliver_lem signals (record { shutdown_requested = true; last_signal = number signal })
    ∙ ap (λ b. record { shutdown_requested = b; last_signal = last_number (number signal) signals })
        (if_cases (λ b. b ≡ true) (is_empty signals) refl refl)

last_number-positive : (n : ℕ) (signals : List Signal) → n ≢ 0 → last_number n signals ≢ 0
last_number-positive n [] h = h
last_number-positive n (sigint ∷ signals) h = last_number-positive 2 signals (ground arith)
last_number-positive n (sigterm ∷ signals) h = last_number-positive 15 signals (ground arith)

-- The flags after the signals of the turn in which one comes.
signalled :
    (signals : List Signal) (flags : Flags)
    → is_empty signals ≡ false
    → deliver signals flags
      ≡ record { shutdown_requested = true; last_signal = last_number 0 signals }
signalled [] flags h = absurd (ground (arith, h))
signalled (signal ∷ signals) flags h = deliver_lem (signal ∷ signals) flags

last_number-signalled :
    (signals : List Signal) → is_empty signals ≡ false → (last_number 0 signals == 0) ≡ false
last_number-signalled [] h = absurd (ground (arith, h))
last_number-signalled (sigint ∷ signals) h =
    ground (arith, last_number-positive 2 signals (ground arith))
last_number-signalled (sigterm ∷ signals) h =
    ground (arith, last_number-positive 15 signals (ground arith))

not_signalled :
    (signals : List Signal) (flags : Flags)
    → is_empty signals ≡ true
    → deliver signals flags ≡ flags
unfolding deliver
not_signalled [] flags h = refl
not_signalled (signal ∷ signals) flags h = absurd (ground (arith, h))

abbrev ended : ℕ → List AgentLine
ended n = requested_by_signal n ∷ entered shutting_down ∷ []

-- The loop's end, the last signal being n.
abbrev finished : Agent → ℕ → List AgentLine → Progress
finished agent n log = record {
  agent = record agent { state = shutting_down };
  flags = record { shutdown_requested = true; last_signal = n };
  log = log ++ ended n;
  returned = true;
}

late_lem :
    (n : ℕ) (late : List Signal)
    → deliver late (record { shutdown_requested = true; last_signal = n })
      ≡ record { shutdown_requested = true; last_signal = last_number n late }
late_lem n late =
    deliver_lem late (record { shutdown_requested = true; last_signal = n })
    ∙ ap (λ b. record { shutdown_requested = b; last_signal = last_number n late })
        (if_cases (λ b. b ≡ true) (is_empty late) refl refl)

last_number-nonzero :
    (n : ℕ) (late : List Signal) → (n == 0) ≡ false → (last_number n late == 0) ≡ false
last_number-nonzero n late h = ground (arith, last_number-positive n late (ground (arith, h)))

loop-requested :
    (late : List Signal) (agent : Agent) (next n : ℕ) (wakes : List Wake) (log : List AgentLine)
    → (n == 0) ≡ false
    → loop true late agent next (record { shutdown_requested = true; last_signal = n }) wakes log
      ≡ finished agent (last_number n late) log
unfolding loop shut_down set_state
loop-requested late agent next n [] log h = rw (late_lem n late, last_number-nonzero n late h) refl
loop-requested late agent next n (wake ∷ wakes) log h =
    rw (late_lem n late, last_number-nonzero n late h) refl

beat_log :
    (beats : Bool) (now : ℕ) (rest : List ℕ) (log : List AgentLine)
    → (if beats then log ++ heartbeat now ∷ [] else log) ++ map heartbeat rest
      ≡ log ++ map heartbeat (if beats then now ∷ rest else rest)
beat_log true now rest log = append_assoc log (heartbeat now ∷ []) (map heartbeat rest)
beat_log false now rest log = refl

after_beat :
    (beats : Bool) (now : ℕ) (log : List AgentLine)
    → (if beats then log ++ heartbeat now ∷ [] else log)
      ≡ log ++ map heartbeat (if beats then now ∷ [] else [])
after_beat true now log = refl
after_beat false now log = sym (append_nil log)

loop-signalled :
    (late : List Signal) (agent : Agent) (next n : ℕ) (wakes : List Wake) (log : List AgentLine)
    → is_signalled wakes ≡ true
    → loop true late agent next (record { shutdown_requested = false; last_signal = n }) wakes log
      ≡ finished agent (last_number (last_number 0 (first_signals wakes)) late) (
          log
          ++ map heartbeat (
              heartbeats agent.heartbeat_interval next
                (map (λ (w : Wake). w.now) (until_signal wakes))))
unfolding loop heartbeats
loop-signalled late agent next n [] log h = absurd (ground (arith, h))
loop-signalled late agent next n (wake ∷ wakes) log h =
    let interval = agent.heartbeat_interval in
    let t = turn interval wake.now next in
    let log' = if t.beats then log ++ heartbeat wake.now ∷ [] else log in
    elim (Bool-cases (is_empty wake.signals)) [
      | inl quiet ↦
          rw
            (
              not_signalled wake.signals (record { shutdown_requested = false; last_signal = n })
                  quiet,
              quiet,
            )
            (loop-signalled late agent t.next_heartbeat n wakes log' (ground (arith, h, quiet))
              ∙ ap (λ l. finished agent (last_number (last_number 0 (first_signals wakes)) late) l)
                  (beat_log t.beats wake.now
                    (heartbeats interval t.next_heartbeat
                      (map (λ (w : Wake). w.now) (until_signal wakes)))
                    log))
      | inr some ↦
          rw
            (
              signalled wake.signals (record { shutdown_requested = false; last_signal = n }) some,
              some,
            )
            (loop-requested late agent t.next_heartbeat (last_number 0 wake.signals) wakes log'
                (last_number-signalled wake.signals some)
              ∙ ap (λ l. finished agent (last_number (last_number 0 wake.signals) late) l)
                  (after_beat t.beats wake.now log))
    ]

-- run, given a last_signal_ and started before any signal, returns in the turn in which the first
-- signal comes: it has gone to the shutting-down state, and its log is the two states that it
-- entered, the heartbeats of the turns up to that one, the last signal of that turn or, where
-- more come before last_signal_ is read, of those, and the shutdown.
pub run-signalled :
    (late : List Signal) (agent : Agent) (clock : ℕ) (wakes : List Wake)
    → is_signalled wakes ≡ true
    → let p = run true late clock no_signal wakes agent in
      (p.returned ≡ true)
      × (p.agent.state ≡ shutting_down)
      × (p.log
          ≡ whole_log agent.heartbeat_interval clock
              (until_signal wakes)
              (first_signals wakes ++ late))
unfolding run set_state
run-signalled late agent clock wakes h =
    let e =
      loop-signalled late (record agent { state = running }) clock 0 wakes
        (entered starting ∷ entered running ∷ []) h in
    rw (e, last_number-append 0 (first_signals wakes) late) (refl, refl, refl)

-- Where a signal came before, run logs it and makes no turn.
run-early :
    (late : List Signal) (agent : Agent) (clock : ℕ) (signals : List Signal) (wakes : List Wake)
    → is_empty signals ≡ false
    → let p = run true late clock (deliver signals no_signal) wakes agent in
      (p.returned ≡ true)
      × (p.agent.state ≡ shutting_down)
      × (p.log ≡ whole_log agent.heartbeat_interval clock [] (signals ++ late))
unfolding run set_state heartbeats
run-early late agent clock signals wakes h =
    rw
      (
        signalled signals no_signal h,
        last_number-append 0 signals late,
        loop-requested late (record agent { state = running }) clock (last_number 0 signals) wakes
            (entered starting ∷ entered running ∷ []) (last_number-signalled signals h),
      )
      (refl, refl, refl)

-- The turns that run makes and the signals that end it, with those before it.
abbrev pub turns_of : List Signal → List Wake → List Wake
turns_of early wakes = if is_empty early then until_signal wakes else []

abbrev pub signals_of : List Signal → List Wake → List Signal
signals_of early wakes = if is_empty early then first_signals wakes else early

pub run-returns :
    (late : List Signal) (agent : Agent) (clock : ℕ) (early : List Signal) (wakes : List Wake)
    → (not (is_empty early) || is_signalled wakes) ≡ true
    → let p = run true late clock (deliver early no_signal) wakes agent in
      (p.returned ≡ true)
      × (p.log
          ≡ whole_log agent.heartbeat_interval clock
              (turns_of early wakes)
              (signals_of early wakes ++ late))
unfolding deliver
run-returns late agent clock [] wakes h =
    let r = run-signalled late agent clock wakes (ground (arith, h)) in (r.0, r.2)
run-returns late agent clock (signal ∷ signals) wakes h =
    let r = run-early late agent clock (signal ∷ signals) wakes refl in (r.0, r.2)
