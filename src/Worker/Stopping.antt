-- ===== src/Worker/Stopping.antt =====
-- What stop() of src/process/process_enforcer.cpp leaves when the thread has time to end.
use silicon.Prelude.{
  ℕ, suc, Bool, List, [], ◌∷◌, length, ◌≤◌, true, false, ◌≡◌, refl, inl, inr, none, some, arith,
  Bool-cases,
}
use silicon.Worker.Steps.{
  Place, Lifecycle, constructed, start, stop_first, request_stop, stop_last, work, work_all,
  stop_after, stop, requests, works, Steps,
}
use silicon.Worker.Safety.{alive, past, IsConsistent, Step-IsConsistent, reachable-IsConsistent}
use silicon.Worker.Exit.{distance, distance_le}

pub work-requested :
    (throws : Bool) (s : Lifecycle)
    → s.stop_requested ≡ true
    → (work throws s).stop_requested ≡ true
unfolding work
work-requested throws s h = ground (arith, h)

pub work-nearer :
    (throws : Bool) (n : ℕ) (s : Lifecycle)
    → s.stop_requested ≡ true
    → distance s.place ≤ suc n
    → distance (work throws s).place ≤ n
unfolding work
work-nearer throws n s h l = ground (arith, h, l)

pub distance-alive : (p : Place) → distance p ≤ 0 → alive p ≡ false
distance-alive p l = ground (arith, l)

work_all-ends :
    (steps : List Bool) (s : Lifecycle)
    → IsConsistent s
    → s.stop_requested ≡ true
    → distance s.place ≤ length steps
    → IsConsistent (work_all steps s) × (alive (work_all steps s).place ≡ false)
unfolding work_all
work_all-ends [] s c h l = (c, distance-alive s.place l)
work_all-ends (throws ∷ steps) s c h l =
    work_all-ends steps (work throws s) (Step-IsConsistent s (work throws s) (works throws) c)
      (work-requested throws s h) (work-nearer throws (length steps) s h l)

pub past-alive : (p : Place) → alive p ≡ false → past p ≡ true
past-alive p h = ground (arith, h)

-- What a stop that succeeds leaves.
pub record IsStopped (s : Lifecycle) : Type 0 where
  pub no_thread : alive s.place ≡ false
  pub not_joinable : s.worker_joinable ≡ false
  pub not_running : s.running ≡ false

requested_lem : (s : Lifecycle) → (request_stop s).stop_requested ≡ true
unfolding request_stop
requested_lem s = refl

near_lem : (s : Lifecycle) (n : ℕ) → 5 ≤ n → distance (request_stop s).place ≤ n
unfolding request_stop
near_lem s n l = omega (arith, distance_le s.place)

joined :
    (t : Lifecycle)
    → IsConsistent t
    → alive t.place ≡ false
    → ((stop_last t).1 ≡ true) × IsStopped (stop_last t).0
unfolding stop_last
joined t c e =
    let exited = c.exited in
    let p = past-alive t.place e in
    let idle = c.idle in
    (
      ground (arith, e, exited),
      record {
        no_thread = ground (arith, e);
        not_joinable = ground (arith, e, exited);
        not_running = ground (arith, p, idle);
      },
    )

pub none_to_join :
    (s : Lifecycle)
    → IsConsistent s
    → s.worker_joinable ≡ false
    → (stop_first s
        ≡ (record s { running = false; stop_requested = true; worker_exited = true }, some true))
      × (alive s.place ≡ false)
unfolding stop_first
none_to_join s c j = (ground (arith, j), ground (arith, c.joinable, j))

pub some_to_join : (s : Lifecycle) → s.worker_joinable ≡ true → stop_first s ≡ (s, none)
unfolding stop_first
some_to_join s j = ground (arith, j)

-- In every reachable state, a stop during whose wait the thread takes at least five steps, scans that
-- throw among them, returns true; then no thread runs, none is left to join, and running_ is reset.
pub stop-IsStopped :
    (s : Lifecycle) (steps : List Bool)
    → Steps constructed s
    → 5 ≤ length steps
    → ((stop steps s).1 ≡ true) × IsStopped (stop steps s).0
unfolding stop stop_after
stop-IsStopped s steps reach enough =
    let c = reachable-IsConsistent s reach in
    elim (Bool-cases s.worker_joinable) [
      | inl j ↦
          let c' : IsConsistent (request_stop s) =
            Step-IsConsistent s (request_stop s) requests c in
          let (c'', ended) =
            work_all-ends steps (request_stop s) c' (requested_lem s)
              (near_lem s (length steps) enough) in
          rw (some_to_join s j) (joined (work_all steps (request_stop s)) c'' ended)
      | inr j ↦
          let (e, ended) = none_to_join s c j in
          rw e (refl, record { no_thread = ended; not_joinable = j; not_running = refl })
    ]

stopped_start : (s : Lifecycle) → IsStopped s → (start true true s).1 ≡ true
unfolding start
stopped_start s h = ground (arith, h.not_joinable, h.not_running)

-- In every reachable state, an enforcer that was stopped, with at least five steps of its thread
-- during the wait, can be started again when its dependencies and a new thread are there.
pub start-stop :
    (s : Lifecycle) (steps : List Bool)
    → Steps constructed s
    → 5 ≤ length steps
    → (start true true (stop steps s).0).1 ≡ true
start-stop s steps reach enough =
    stopped_start (stop steps s).0 (stop-IsStopped s steps reach enough).1
