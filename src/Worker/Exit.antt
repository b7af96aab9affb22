-- ===== src/Worker/Exit.antt =====
-- That a requested stop ends the worker thread of src/process/process_enforcer.cpp.
use silicon.Prelude.{ℕ, ◌+◌, ◌≤◌, true, false, ◌≡◌, refl, ◌⊎◌, inl, inr, arith, Bool-cases}
use silicon.Worker.Steps.{
  Place, gone, testing, scanning, waiting, leaving, exiting, Lifecycle, constructed, start,
  stop_first, request_stop, stop_last, work, Step, starts, stops_first, requests, stops_last, works,
  Steps, stay, then_step,
}
use silicon.Worker.Safety.{alive, IsConsistent, Step-IsConsistent, reachable-IsConsistent}

-- The steps of the thread to its end once a stop is requested.
abbrev pub distance : Place → ℕ
distance gone = 0
distance exiting = 1
distance leaving = 2
distance testing = 3
distance waiting = 4
distance scanning = 5

-- The steps that the thread itself takes in a sequence.
abbrev step_count : {s t : Lifecycle} → Step s t → ℕ
step_count (works throws) = 1
step_count (starts present created) = 0
step_count stops_first = 0
step_count requests = 0
step_count stops_last = 0

abbrev pub work_count : {s t : Lifecycle} → Steps s t → ℕ
work_count stay = 0
work_count (then_step run step) = work_count run + step_count step

-- At some time in a sequence no thread runs.
abbrev pub EndsWithin : {s t : Lifecycle} → Steps s t → Type 0
EndsWithin {s} stay = alive s.place ≡ false
EndsWithin {s} {t = u} (then_step run step) = EndsWithin run ⊎ (alive u.place ≡ false)

-- A thread that was asked to stop and runs.
record IsStopping (s : Lifecycle) : Type 0 where
  requested : s.stop_requested ≡ true
  running : alive s.place ≡ true

advance :
    (s t : Lifecycle) (step : Step s t)
    → IsConsistent s
    → IsStopping s
    → (alive t.place ≡ false)
      ⊎ ((t.stop_requested ≡ true) × (distance t.place + step_count step ≤ distance s.place))
unfolding start stop_first request_stop stop_last work
advance s t (starts present created) c h = inr (
  ground (arith, c.joinable, h.running, h.requested),
  ground (arith, c.joinable, h.running, h.requested),
)
advance s t stops_first c h = inr (ground (arith, h.requested), ground (arith, h.requested))
advance s t requests c h = inr (refl, omega arith)
advance s t stops_last c h = inr (ground (arith, h.requested), ground (arith, h.requested))
advance s t (works throws) c h = ground (arith, h.requested, h.running)

-- Until the thread ends, the request stands and each of the thread's steps brings the end nearer.
progress :
    (s t : Lifecycle) (run : Steps s t)
    → IsConsistent s
    → IsStopping s
    → EndsWithin run
      ⊎ (IsConsistent t × IsStopping t × (distance t.place + work_count run ≤ distance s.place))
progress s t stay c h = inr (c, h, omega arith)
progress s t (then_step {t = u} run step) c h = elim (progress s u run c h) [
  | inl ended ↦ inl (inl ended)
  | inr (c', h', l) ↦ elim (advance u t step c' h') [
    | inl ended ↦ inl (inr ended)
    | inr (requested, l') ↦ elim (Bool-cases (alive t.place)) [
      | inl running ↦ inr (
        Step-IsConsistent u t step c',
        record { requested = requested; running = running },
        omega (arith, l, l'),
      )
      | inr ended ↦ inl (inr ended)
    ]
  ]
]

alive-distance : (p : Place) → alive p ≡ true → 1 ≤ distance p
alive-distance gone h = ground (arith, h)
alive-distance testing h = omega arith
alive-distance scanning h = omega arith
alive-distance waiting h = omega arith
alive-distance leaving h = omega arith
alive-distance exiting h = omega arith

pub distance_le : (p : Place) → distance p ≤ 5
distance_le gone = omega arith
distance_le testing = omega arith
distance_le scanning = omega arith
distance_le waiting = omega arith
distance_le leaving = omega arith
distance_le exiting = omega arith

ended-EndsWithin : (s t : Lifecycle) (run : Steps s t) → alive s.place ≡ false → EndsWithin run
ended-EndsWithin s t stay h = h
ended-EndsWithin s t (then_step {t = u} run step) h = inl (ended-EndsWithin s u run h)

-- From a reachable state on, once a stop is requested the thread ends by the time it has taken five
-- steps of its own, whatever calls of start and stop other threads make in between.
pub request_stop-EndsWithin :
    (s t : Lifecycle) (run : Steps (request_stop s) t)
    → Steps constructed s
    → 5 ≤ work_count run
    → EndsWithin run
unfolding request_stop
request_stop-EndsWithin s t run reach enough =
    let c : IsConsistent (request_stop s) =
      Step-IsConsistent s (request_stop s) requests (reachable-IsConsistent s reach) in
    elim (Bool-cases (alive s.place)) [
      | inl running ↦
          elim (progress (request_stop s) t run c
            (record { requested = refl; running = running })) [
              | inl ended ↦ ended
              | inr (c', h, l) ↦
                  ground (arith, l, enough, distance_le s.place, alive-distance t.place h.running)
            ]
      | inr ended ↦ ended-EndsWithin (request_stop s) t run ended
    ]
