-- ===== src/Worker/Steps.antt =====
-- start, stop and scan_loop of src/process/process_enforcer.cpp, cut where a thread takes or
-- releases lifecycle_mutex_, and their interleavings.
use silicon.Prelude.{
  ◌≡◌, Bool, true, false, not, ◌||◌, Option, none, some, List, [], ◌∷◌, if◌then◌else◌,
}

-- Where the thread of scan_loop is. `gone`: there is none, or it has done all but notify.
pub data Place : Type 0 where
  gone : Place
  testing : Place  -- at the loop's condition
  scanning : Place
  waiting : Place  -- in wake_cv_.wait_for
  leaving : Place  -- past the loop, running_ still set
  exiting : Place  -- running_ reset, worker_exited_ not yet set

pub record Lifecycle : Type 0 where
  pub running : Bool
  pub stop_requested : Bool
  pub worker_joinable : Bool
  pub worker_exited : Bool
  pub place : Place

abbrev pub constructed : Lifecycle
constructed = record {
  running = false;
  stop_requested = false;
  worker_joinable = false;
  worker_exited = true;
  place = gone;
}

-- start(), given whether the dependencies are there and whether std::thread can be made.
unfoldable pub start : Bool → Bool → Lifecycle → Lifecycle × Bool
start present created s =
    if not present || (s.worker_joinable || s.running)
    then (s, false)
    else if created
    then (
      record {
        running = true;
        stop_requested = false;
        worker_joinable = true;
        worker_exited = false;
        place = testing;
      },
      true,
    )
    else (record s { running = false; stop_requested = false; worker_exited = true }, false)

-- The first locked block of stop(): the result true if it returns there.
unfoldable pub stop_first : Lifecycle → Lifecycle × Option Bool
stop_first s =
    if not s.worker_joinable
    then (record s { running = false; stop_requested = true; worker_exited = true }, some true)
    else (s, none)

-- stop_requested_.store(true), outside the lock.
unfoldable pub request_stop : Lifecycle → Lifecycle
request_stop s = record s { stop_requested = true }

-- The end of the wait in stop(): true when worker_exited_ is seen, and then the thread is joined;
-- false on a timeout.
unfoldable pub stop_last : Lifecycle → Lifecycle × Bool
stop_last s = if s.worker_exited then (record s { worker_joinable = false }, true) else (s, false)

-- The next step of the thread; it may leave the loop also where perform_scan throws.
unfoldable pub work : Bool → Lifecycle → Lifecycle
work throws s = elim s.place [
  | gone ↦ s
  | testing ↦ record s { place = if s.stop_requested then leaving else scanning }
  | scanning ↦ record s { place = if throws then leaving else waiting }
  | waiting ↦ record s { place = testing }
  | leaving ↦ record s { running = false; place = exiting }
  | exiting ↦ record s { worker_exited = true; place = gone }
]

-- Some steps of the thread, each with whether it throws if it is a scan.
unfoldable pub work_all : List Bool → Lifecycle → Lifecycle
work_all [] s = s
work_all (throws ∷ rest) s = work_all rest (work throws s)

-- stop(timeout) of one thread with no call in between, given the steps that the thread takes before
-- the timeout.
unfoldable pub stop_after : List Bool → Lifecycle × Option Bool → Lifecycle × Bool
stop_after steps (s, some result) = (s, result)
stop_after steps (s, none) = stop_last (work_all steps (request_stop s))

unfoldable pub stop : List Bool → Lifecycle → Lifecycle × Bool
stop steps s = stop_after steps (stop_first s)

-- A call of any thread, or a step of the worker.
pub data Step (s : Lifecycle) : Lifecycle → Type 0 where
  starts : (present created : Bool) → Step s (start present created s).0
  stops_first : Step s (stop_first s).0
  requests : Step s (request_stop s)
  stops_last : Step s (stop_last s).0
  works : (throws : Bool) → Step s (work throws s)

-- A sequence of steps.
pub data Steps (s : Lifecycle) : Lifecycle → Type 0 where
  stay : Steps s s
  then_step : {t u : Lifecycle} → Steps s t → Step t u → Steps s u

-- A whole call of stop() with its result, among other calls and steps of the thread.
pub data Stops (s : Lifecycle) : Lifecycle → Bool → Type 0 where
  at_once : {result : Bool} → (stop_first s).1 ≡ some result → Stops s (stop_first s).0 result
  after_wait :
      {t u : Lifecycle}
      → (stop_first s).1 ≡ none
      → Steps (stop_first s).0 t
      → Steps (request_stop t) u
      → Stops s (stop_last u).0 (stop_last u).1
