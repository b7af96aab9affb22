-- ===== src/Filesystem/Lifespan.antt =====
-- How long the event stream of src/filesystem/filesystem_enforcer.cpp lives.
use silicon.Prelude.{
  ℕ, ◌≡◌, refl, sym, ap, ◌∙◌, Bool, true, false, not, ◌||◌, Option, none, some, List, [], ◌∷◌,
  arith, if◌then◌else◌, if_cases,
}
use silicon.Text.{Str}
use silicon.Worker.Safety.{alive, IsConsistent, reachable-IsConsistent}
use silicon.Filesystem.Types.{FilesystemEnforcer}
use silicon.Filesystem.Events.{enqueue_path_event}
use silicon.Filesystem.Policy.{load_monitored_paths}
use silicon.Filesystem.Stream.{Handles, stop_event_stream, handle_callback, take, fsevents_callback}
use silicon.Filesystem.Scan.{perform_scan}
use silicon.Filesystem.Handles.{IsBalanced, start-IsBalanced, stop-IsBalanced}
use silicon.Filesystem.Backend.{perform_scan-backend}
use silicon.Filesystem.Lifecycle.{
  Place, absent, opening, testing, scanning, waiting, closing, leaving, exiting, Worker, no_handles,
  construct, start, stop_first, request_stop, stop_last, Input, work_at, work, call_back, Step,
  starts, stops_first, requests, stops_last, works, calls_back, Steps, stay, then_step,
}
use silicon.Filesystem.Simulation.{forget_place, forget, Steps-forget}

-- Where the thread may have a stream.
abbrev pub may_hold : Place → Bool
may_hold absent = false
may_hold opening = false
may_hold testing = true
may_hold scanning = true
may_hold waiting = true
may_hold closing = true
may_hold leaving = false
may_hold exiting = false

-- The handles alive are a stream and a queue, exactly while there is a backend, and there is one at
-- most between the start and the end of the loop.
pub record IsContained (s : Worker) : Type 0 where
  pub balanced : IsBalanced s.enforcer s.handles
  pub within : (may_hold s.place || not s.enforcer.event_backend) ≡ true

-- With the same backend and handles.
IsBalanced-same :
    (e e' : FilesystemEnforcer) (h : Handles)
    → e'.event_backend ≡ e.event_backend
    → IsBalanced e h
    → IsBalanced e' h
IsBalanced-same e e' h same b = record {
  no_arrays = b.no_arrays;
  no_strings = b.no_strings;
  one_stream = b.one_stream ∙ ap (λ k. if k then 1 else 0) (sym same);
  one_queue = b.one_queue ∙ ap (λ k. if k then 1 else 0) (sym same);
  no_excess = b.no_excess;
}

enqueue-backend :
    (e : FilesystemEnforcer) (path : Str)
    → (enqueue_path_event e path).event_backend ≡ e.event_backend
unfolding enqueue_path_event
enqueue-backend e path = ground arith

handle_callback-backend :
    (events : List (Option Str × Bool)) (e : FilesystemEnforcer)
    → (handle_callback events e).event_backend ≡ e.event_backend
unfolding handle_callback
handle_callback-backend [] e = refl
handle_callback-backend ((none, rescan) ∷ events) e = handle_callback-backend events e
handle_callback-backend ((some path, rescan) ∷ events) e =
    let queued = enqueue_path_event e path in
    handle_callback-backend events
      (if rescan then enqueue_path_event queued queued.volumes_root else queued)
    ∙ if_cases (λ (f : FilesystemEnforcer). f.event_backend ≡ e.event_backend) rescan
        (enqueue-backend queued queued.volumes_root ∙ enqueue-backend e path)
        (enqueue-backend e path)

fsevents_callback-backend :
    (n : ℕ) (events : List (Option Str × Bool)) (e : FilesystemEnforcer)
    → (fsevents_callback n events e).event_backend ≡ e.event_backend
unfolding fsevents_callback
fsevents_callback-backend n events e = handle_callback-backend (take n events) e

stop-backend :
    (e : FilesystemEnforcer) (h : Handles) → (stop_event_stream e h).0.event_backend ≡ false
unfolding stop_event_stream
stop-backend e h = ground arith

construct-IsContained : (volumes_root : Str) → IsContained (construct volumes_root)
unfolding construct
construct-IsContained volumes_root = record {
  balanced = record {
    no_arrays = refl;
    no_strings = refl;
    one_stream = refl;
    one_queue = refl;
    no_excess = refl;
  };
  within = refl;
}

start-keeps :
    (a b c : Bool) (s : Worker)
    → IsBalanced s.enforcer s.handles
    → IsBalanced (start a b c s).0.enforcer (start a b c s).0.handles
unfolding start
start-keeps a b c s i =
    let P = λ (r : Worker × Bool). IsBalanced r.0.enforcer r.0.handles in
    if_cases P (not a || not b) i (if_cases P (s.worker_joinable || s.running) i (if_cases P c i i))

start-within :
    (a b c : Bool) (s : Worker) (p : Place)
    → s.place ≡ p
    → (not (alive (forget_place s.place)) || s.worker_joinable) ≡ true
    → (may_hold s.place || not s.enforcer.event_backend) ≡ true
    → (may_hold (start a b c s).0.place || not (start a b c s).0.enforcer.event_backend) ≡ true
unfolding start
start-within a b c s p e joinable within = ground (arith, e, joinable, within)

-- A new thread is made only where there is no thread, and so no stream.
start-IsContained :
    (a b c : Bool) (s : Worker)
    → IsConsistent (forget s)
    → IsContained s
    → IsContained (start a b c s).0
start-IsContained a b c s k i =
    let within = i.within in
    let joinable = k.joinable in
    record {
      balanced = start-keeps a b c s i.balanced;
      within = start-within a b c s s.place refl joinable within;
    }

work_at-IsContained :
    (p : Place) (i : Input) (s : Worker) → s.place ≡ p → IsContained s → IsContained (work_at p i s)
unfolding work_at
work_at-IsContained absent i s e c = c
work_at-IsContained opening i s e c = record {
  balanced =
      start-IsBalanced i.core (load_monitored_paths i.surroundings.config) s.enforcer s.handles
        c.balanced;
  within = refl;
}
work_at-IsContained testing i s e c = record {
  balanced = c.balanced;
  within = ground (arith, e, c.within);
}
work_at-IsContained scanning i s e c =
    let scanned = (perform_scan i.surroundings s.enforcer).enforcer in
    if_cases IsContained i.throws (record { balanced = c.balanced; within = refl })
      (record {
        balanced =
            IsBalanced-same s.enforcer scanned s.handles
              (perform_scan-backend i.surroundings s.enforcer) c.balanced;
        within = refl;
      })
work_at-IsContained waiting i s e c = record { balanced = c.balanced; within = refl }
work_at-IsContained closing i s e c = record {
  balanced = stop-IsBalanced s.enforcer s.handles c.balanced;
  within = ground (arith, stop-backend s.enforcer s.handles);
}
work_at-IsContained leaving i s e c = record {
  balanced = c.balanced;
  within = ground (arith, e, c.within);
}
work_at-IsContained exiting i s e c = record {
  balanced = c.balanced;
  within = ground (arith, e, c.within);
}

Step-IsContained :
    (s t : Worker) → IsConsistent (forget s) → Step s t → IsContained s → IsContained t
unfolding stop_first request_stop stop_last work call_back
Step-IsContained s t k (starts a b c) i = start-IsContained a b c s k i
Step-IsContained s t k stops_first i =
    if_cases (λ (r : Worker × Option Bool). IsContained r.0) (not s.worker_joinable)
      (record { balanced = i.balanced; within = i.within }) i
Step-IsContained s t k requests i = record { balanced = i.balanced; within = i.within }
Step-IsContained s t k stops_last i =
    if_cases (λ (r : Worker × Bool). IsContained r.0) s.worker_exited
      (record { balanced = i.balanced; within = i.within }) i
Step-IsContained s t k (works input) i = work_at-IsContained s.place input s refl i
Step-IsContained s t k (calls_back n events) i =
    let same = fsevents_callback-backend n events s.enforcer in
    if_cases IsContained s.enforcer.event_backend
      (record {
        balanced =
            IsBalanced-same s.enforcer (fsevents_callback n events s.enforcer) s.handles same
              i.balanced;
        within = ap (λ k. may_hold s.place || not k) same ∙ i.within;
      })
      i

-- However the calls, the steps of the thread and the callbacks are interleaved after the
-- construction, and whatever the system answers, the handles alive are one stream and one queue,
-- exactly while there is a backend, no handle was released that was not alive, and there is a backend
-- only while the thread is between the start and the end of its loop.
pub reachable-IsContained :
    (volumes_root : Str) (s : Worker) → Steps (construct volumes_root) s → IsContained s
reachable-IsContained volumes_root s stay = construct-IsContained volumes_root
reachable-IsContained volumes_root s (then_step {t} run step) =
    Step-IsContained t s (reachable-IsConsistent (forget t) (Steps-forget volumes_root t run)) step
      (reachable-IsContained volumes_root t run)

exited_place :
    (s : Worker) (p : Place)
    → s.place ≡ p
    → s.worker_exited ≡ not (alive (forget_place s.place))
    → s.worker_exited ≡ true
    → may_hold s.place ≡ false
exited_place s p e exited h = ground (arith, e, exited, h)

-- In every reachable state in which worker_exited_ is set, as stop sees it where it returns true, no
-- handle of the event stream is left and there is no backend.
pub exited-no_handles :
    (volumes_root : Str) (s : Worker)
    → Steps (construct volumes_root) s
    → s.worker_exited ≡ true
    → (s.handles ≡ no_handles) × (s.enforcer.event_backend ≡ false)
exited-no_handles volumes_root s run h =
    let c = reachable-IsContained volumes_root s run in
    let k = reachable-IsConsistent (forget s) (Steps-forget volumes_root s run) in
    let out = exited_place s s.place refl k.exited h in
    let none : s.enforcer.event_backend ≡ false = ground (arith, c.within, out) in
    let b = c.balanced in
    (ground (arith, none, b.no_arrays, b.no_strings, b.one_stream, b.one_queue, b.no_excess), none)
