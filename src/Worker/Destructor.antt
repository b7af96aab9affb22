-- ===== src/Worker/Destructor.antt =====
-- ~ProcessEnforcer of src/process/process_enforcer.cpp and ~FilesystemEnforcer of
-- src/filesystem/filesystem_enforcer.cpp.
use silicon.Prelude.{
  ◌≤◌, ◌≡◌, refl, ap, List, [], ◌∷◌, length, ◌⊎◌, ◌&&◌, Bool, true, false, none, some, Option,
  arith, Bool-cases, inl, inr, if◌then◌else◌,
}
use silicon.Worker.Steps.{
  Lifecycle, constructed, stop_first, request_stop, stop_last, work_all, stop_after, stop, work,
  requests, stops_first, stops_last, Steps,
}
use silicon.Worker.Safety.{
  past, IsConsistent, Step-IsConsistent, reachable-IsConsistent, work_all-IsConsistent,
}
use silicon.Worker.Exit.{distance, distance_le}
use silicon.Worker.Stopping.{
  IsStopped, work-requested, work-nearer, distance-alive, past-alive, none_to_join, some_to_join,
}

-- The thread moved out of worker_ and joined, given the steps that it takes until join() returns.
unfoldable pub join_moved : List Bool → Lifecycle → Lifecycle
join_moved steps s = work_all steps (record s { worker_joinable = false })

-- The destructor, given the steps of the thread during the wait of stop and during the join.
unfoldable pub destroy : List Bool → List Bool → Lifecycle → Lifecycle
destroy wait_steps join_steps s =
    let (t, stopped) = stop wait_steps s in
    if stopped then t else join_moved join_steps (request_stop t)

stop_last-IsStopped :
    (s : Lifecycle) → IsConsistent s → (stop_last s).1 ≡ true → IsStopped (stop_last s).0
unfolding stop_last
stop_last-IsStopped s c h =
    let exited = c.exited in
    let idle = c.idle in
    record {
      no_thread = ground (arith, exited, h);
      not_joinable = ground (arith, h);
      not_running = ground (arith, exited, idle, h);
    }

stop_after-IsStopped :
    (steps : List Bool) (r : Lifecycle × Option Bool)
    → IsConsistent r.0
    → (r.1 ≡ none) ⊎ IsStopped r.0
    → (stop_after steps r).1 ≡ true
    → IsStopped (stop_after steps r).0
unfolding stop_after
stop_after-IsStopped steps (s, some b) c (inl e) h = absurd (ground (arith, e))
stop_after-IsStopped steps (s, some b) c (inr i) h = i
stop_after-IsStopped steps (s, none) c i h =
    stop_last-IsStopped (work_all steps (request_stop s))
      (work_all-IsConsistent steps (request_stop s)
        (Step-IsConsistent s (request_stop s) requests c))
      h

stop_first-IsStopped :
    (s : Lifecycle) → IsConsistent s → ((stop_first s).1 ≡ none) ⊎ IsStopped (stop_first s).0
stop_first-IsStopped s c = elim (Bool-cases s.worker_joinable) [
  | inl j ↦ inl (ap (λ (r : Lifecycle × Option Bool). r.1) (some_to_join s j))
  | inr j ↦
      let (e, ended) = none_to_join s c j in
      rw e (inr (record { no_thread = ended; not_joinable = j; not_running = refl }))
]

-- A stop that returns true leaves nothing.
stop_true :
    (steps : List Bool) (s : Lifecycle)
    → IsConsistent s
    → (stop steps s).1 ≡ true
    → IsStopped (stop steps s).0
unfolding stop
stop_true steps s c h =
    stop_after-IsStopped steps (stop_first s) (Step-IsConsistent s (stop_first s).0 stops_first c)
      (stop_first-IsStopped s c) h

stop_after-IsConsistent :
    (steps : List Bool) (r : Lifecycle × Option Bool)
    → IsConsistent r.0
    → IsConsistent (stop_after steps r).0
unfolding stop_after
stop_after-IsConsistent steps (s, some b) c = c
stop_after-IsConsistent steps (s, none) c =
    let t = work_all steps (request_stop s) in
    Step-IsConsistent t (stop_last t).0 stops_last (
      work_all-IsConsistent steps (request_stop s)
        (Step-IsConsistent s (request_stop s) requests c))

pub stop-IsConsistent :
    (steps : List Bool) (s : Lifecycle) → IsConsistent s → IsConsistent (stop steps s).0
unfolding stop
stop-IsConsistent steps s c =
    stop_after-IsConsistent steps (stop_first s)
      (Step-IsConsistent s (stop_first s).0 stops_first c)

-- The thread alone, with worker_ moved away: it ends, and running_ is reset by then.
moved_ends :
    (steps : List Bool) (s : Lifecycle)
    → s.stop_requested ≡ true
    → s.worker_joinable ≡ false
    → (past s.place && s.running) ≡ false
    → distance s.place ≤ length steps
    → IsStopped (work_all steps s)
unfolding work_all work
moved_ends [] s h j idle l =
    let gone = distance-alive s.place l in
    let over = past-alive s.place gone in
    record { no_thread = gone; not_joinable = j; not_running = ground (arith, over, idle) }
moved_ends (throws ∷ steps) s h j idle l =
    moved_ends steps (work throws s) (work-requested throws s h) (ground (arith, j))
      (ground (arith, idle)) (work-nearer throws (length steps) s h l)

-- In every reachable state the destructor leaves no thread running and none to join, however short
-- the wait of its stop, when the thread takes its last five steps, scans that throw among them, during
-- the join.
pub destroy-IsStopped :
    (s : Lifecycle) (wait_steps join_steps : List Bool)
    → Steps constructed s
    → 5 ≤ length join_steps
    → IsStopped (destroy wait_steps join_steps s)
unfolding destroy join_moved request_stop
destroy-IsStopped s m n reach enough =
    let c = reachable-IsConsistent s reach in
    let t : Lifecycle = (stop m s).0 in
    let idle = (stop-IsConsistent m s c).idle in
    elim (Bool-cases (stop m s).1) [
      | inl e ↦ rw e (stop_true m s c e)
      | inr e ↦ rw e (
          moved_ends n (record t { stop_requested = true; worker_joinable = false }) refl refl idle
            (omega (arith, distance_le t.place, enough)))
    ]

-- Destroying an enforcer that was stopped needs no join.
pub destroy_again-IsStopped :
    (s : Lifecycle) (m n : List Bool) → IsConsistent s → IsStopped s → IsStopped (destroy m n s)
unfolding destroy stop stop_after
destroy_again-IsStopped s m n c i =
    let (e, ended) = none_to_join s c i.not_joinable in
    rw e (record { no_thread = ended; not_joinable = i.not_joinable; not_running = refl })
