-- ===== src/Worker/Safety.antt =====
-- What holds of the worker thread in every interleaving of start, stop and scan_loop.
use silicon.Prelude.{Bool, true, false, not, ◌||◌, ◌&&◌, ◌≡◌, refl, some, List, [], ◌∷◌, arith}
use silicon.Worker.Steps.{
  Place, gone, testing, scanning, waiting, leaving, exiting, Lifecycle, constructed, start,
  stop_first, request_stop, stop_last, work, work_all, Step, starts, stops_first, requests,
  stops_last, works, Steps, stay, then_step, Stops, at_once, after_wait,
}

-- Whether the thread is somewhere.
abbrev pub alive : Place → Bool
alive gone = false
alive testing = true
alive scanning = true
alive waiting = true
alive leaving = true
alive exiting = true

-- Whether the thread is past the store of running_ in scan_loop, or there is none.
abbrev pub past : Place → Bool
past gone = true
past exiting = true
past testing = false
past scanning = false
past waiting = false
past leaving = false

-- The thread's object is joinable and worker_exited_ is not set as long as the thread
-- runs, and running_ is reset when it ends.
pub record IsConsistent (s : Lifecycle) : Type 0 where
  pub joinable : (not (alive s.place) || s.worker_joinable) ≡ true
  pub exited : s.worker_exited ≡ not (alive s.place)
  pub idle : (past s.place && s.running) ≡ false

constructed-IsConsistent : IsConsistent constructed
constructed-IsConsistent = record { joinable = refl; exited = refl; idle = refl }

start-IsConsistent :
    (present created : Bool) (s : Lifecycle)
    → IsConsistent s
    → IsConsistent (start present created s).0
unfolding start
start-IsConsistent present created s c = record {
  joinable = ground (arith, c.joinable);
  exited = ground (arith, c.joinable, c.exited);
  idle = ground (arith, c.idle);
}

stop_first-IsConsistent : (s : Lifecycle) → IsConsistent s → IsConsistent (stop_first s).0
unfolding stop_first
stop_first-IsConsistent s c = record {
  joinable = ground (arith, c.joinable);
  exited = ground (arith, c.joinable, c.exited);
  idle = ground (arith, c.idle);
}

stop_last-IsConsistent : (s : Lifecycle) → IsConsistent s → IsConsistent (stop_last s).0
unfolding stop_last
stop_last-IsConsistent s c = record {
  joinable = ground (arith, c.joinable, c.exited);
  exited = ground (arith, c.joinable, c.exited);
  idle = ground (arith, c.idle);
}

work-IsConsistent : (throws : Bool) (s : Lifecycle) → IsConsistent s → IsConsistent (work throws s)
unfolding work
work-IsConsistent throws s c = record {
  joinable = ground (arith, c.joinable);
  exited = ground (arith, c.joinable, c.exited);
  idle = ground (arith, c.idle);
}

pub Step-IsConsistent : (s t : Lifecycle) → Step s t → IsConsistent s → IsConsistent t
unfolding request_stop
Step-IsConsistent s t (starts present created) c = start-IsConsistent present created s c
Step-IsConsistent s t stops_first c = stop_first-IsConsistent s c
Step-IsConsistent s t requests c = record {
  joinable = c.joinable;
  exited = c.exited;
  idle = c.idle;
}
Step-IsConsistent s t stops_last c = stop_last-IsConsistent s c
Step-IsConsistent s t (works throws) c = work-IsConsistent throws s c

pub steps-IsConsistent : (s t : Lifecycle) → Steps s t → IsConsistent s → IsConsistent t
steps-IsConsistent s t stay c = c
steps-IsConsistent s t (then_step run step) c =
    Step-IsConsistent _ t step (steps-IsConsistent s _ run c)

-- However the calls of start and stop and the steps of the thread are interleaved after the
-- construction, the thread object is joinable while the thread runs, and worker_exited_ tells
-- whether it has ended, with running_ reset by then.
pub reachable-IsConsistent : (s : Lifecycle) → Steps constructed s → IsConsistent s
reachable-IsConsistent s run = steps-IsConsistent constructed s run constructed-IsConsistent

-- In every reachable state, a start that succeeds finds no thread running, so that there are never
-- two workers.
pub start-no_worker :
    (s : Lifecycle) (present created : Bool)
    → Steps constructed s
    → (start present created s).1 ≡ true
    → alive s.place ≡ false
unfolding start
start-no_worker s present created run h = ground (arith, (reachable-IsConsistent s run).joinable)

pub work_all-IsConsistent :
    (steps : List Bool) (s : Lifecycle) → IsConsistent s → IsConsistent (work_all steps s)
unfolding work_all
work_all-IsConsistent [] s c = c
work_all-IsConsistent (throws ∷ steps) s c =
    work_all-IsConsistent steps (work throws s) (work-IsConsistent throws s c)

stop_last-no_worker :
    (s : Lifecycle) → IsConsistent s → (stop_last s).1 ≡ true → alive (stop_last s).0.place ≡ false
unfolding stop_last
stop_last-no_worker s c h = ground (arith, c.exited)

stop_first-no_worker :
    (s : Lifecycle) (result : Bool)
    → IsConsistent s
    → (stop_first s).1 ≡ some result
    → alive (stop_first s).0.place ≡ false
unfolding stop_first
stop_first-no_worker s result c h = ground (arith, c.joinable, h)

-- In every reachable state, a stop that returns true, at once or after its wait, leaves no thread
-- running: whatever scans of the thread throw and whatever calls of start and stop come between.
pub stop-no_worker :
    (s t : Lifecycle) (result : Bool)
    → Steps constructed s
    → Stops s t result
    → result ≡ true
    → alive t.place ≡ false
stop-no_worker s t result run (at_once first) h =
    stop_first-no_worker s result (reachable-IsConsistent s run) first
stop-no_worker s t result run (after_wait {t = v} {u = u} first before behind) h =
    let c =
      steps-IsConsistent constructed (stop_first s).0 (then_step run stops_first)
        constructed-IsConsistent in
    let c' : IsConsistent (request_stop v) =
      Step-IsConsistent v (request_stop v) requests (steps-IsConsistent _ v before c) in
    stop_last-no_worker u (steps-IsConsistent (request_stop v) u behind c') h
