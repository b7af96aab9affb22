-- ===== src/Filesystem/Lifecycle.antt =====
-- The constructor, start, stop and scan_loop of src/filesystem/filesystem_enforcer.cpp, cut where a
-- thread takes or releases lifecycle_mutex_, with the event stream that the loop starts and stops.
use silicon.Prelude.{
  ℕ, Bool, true, false, not, ◌||◌, Option, none, some, List, [], if◌then◌else◌, is_empty,
}
use silicon.Text.{Str, codes}
use silicon.Filesystem.Types.{FilesystemEnforcer, new_stats}
use silicon.Filesystem.Policy.{load_monitored_paths}
use silicon.Filesystem.Scan.{Surroundings, perform_scan}
use silicon.Filesystem.Stream.{
  CoreServices, Handles, start_event_stream, stop_event_stream, fsevents_callback,
}

-- Where the thread of scan_loop is. `absent`: there is none, or it has done all but notify.
pub data Place : Type 0 where
  absent : Place
  opening : Place  -- before start_event_stream
  testing : Place  -- at the loop's condition
  scanning : Place
  waiting : Place  -- in wake_cv_.wait_for
  closing : Place  -- past the loop, before stop_event_stream
  leaving : Place  -- running_ still set
  exiting : Place  -- running_ reset, worker_exited_ not yet set

pub record Worker : Type 0 where
  pub running : Bool
  pub stop_requested : Bool
  pub worker_joinable : Bool
  pub worker_exited : Bool
  pub place : Place
  pub enforcer : FilesystemEnforcer
  pub handles : Handles

abbrev pub no_handles : Handles
no_handles = record { arrays = 0; strings = 0; streams = 0; queues = 0; excess = 0 }

-- The members' initialisers, and the volumes root that the constructor is given.
unfoldable pub construct : Str → Worker
construct volumes_root = record {
  running = false;
  stop_requested = false;
  worker_joinable = false;
  worker_exited = true;
  place = absent;
  enforcer = record {
    volumes_root = if is_empty volumes_root then codes "/Volumes" else volumes_root;
    last_scan_stats = new_stats 0;
    event_backend = false;
    pending_event_paths = [];
    volumes_event_pending = false;
    has_pending_events = false;
    known_mounts_initialized = false;
    known_mounts = [];
    known_path_snapshot_initialized = false;
    known_path_snapshot = [];
    has_last_volume_resync = false;
    last_volume_resync = 0;
    has_notification_time = false;
    last_notification_time = 0;
    has_next_clipboard_deadline = false;
    next_clipboard_deadline = 0;
    clipboard_hook_disabled = false;
    clipboard_disable_logged = false;
  };
  handles = no_handles;
}

-- Given whether config_ and file_system_ are there, and whether std::thread can be made.
unfoldable pub start : Bool → Bool → Bool → Worker → Worker × Bool
start config_present file_system_present created s =
    if not config_present || not file_system_present
    then (s, false)
    else if s.worker_joinable || s.running
    then (s, false)
    else if created
    then (
      record s {
        running = true;
        stop_requested = false;
        worker_joinable = true;
        worker_exited = false;
        place = opening;
      },
      true,
    )
    else (record s { running = false; stop_requested = false; worker_exited = true }, false)

-- The first locked block of stop(): the result true if it returns there.
unfoldable pub stop_first : Worker → Worker × Option Bool
stop_first s =
    if not s.worker_joinable
    then (record s { running = false; stop_requested = true; worker_exited = true }, some true)
    else (s, none)

unfoldable pub request_stop : Worker → Worker
request_stop s = record s { stop_requested = true }

-- The end of the wait in stop(): true when worker_exited_ is seen, and then the thread is joined.
unfoldable pub stop_last : Worker → Worker × Bool
stop_last s = if s.worker_exited then (record s { worker_joinable = false }, true) else (s, false)

-- What a step of the thread meets: the system's answers, a scan's surroundings, and whether the scan
-- throws, which is taken to happen before it changes anything.
pub record Input : Type 0 where
  pub core : CoreServices
  pub surroundings : Surroundings
  pub throws : Bool

abbrev pub opened : Worker → FilesystemEnforcer × Handles × Bool → Worker
opened s (e, h, events_enabled) = record s { enforcer = e; handles = h; place = testing }

abbrev pub closed : Worker → FilesystemEnforcer × Handles → Worker
closed s (e, h) = record s { enforcer = e; handles = h; place = leaving }

unfoldable pub work_at : Place → Input → Worker → Worker
work_at absent i s = s
work_at opening i s =
    opened s
      (start_event_stream i.core (load_monitored_paths i.surroundings.config) s.enforcer s.handles)
work_at testing i s = record s { place = if s.stop_requested then closing else scanning }
work_at scanning i s =
    if i.throws
    then record s { place = closing }
    else record s { place = waiting; enforcer = (perform_scan i.surroundings s.enforcer).enforcer }
work_at waiting i s = record s { place = testing }
work_at closing i s = closed s (stop_event_stream s.enforcer s.handles)
work_at leaving i s = record s { running = false; place = exiting }
work_at exiting i s = record s { worker_exited = true; place = absent }

-- The next step of the thread.
unfoldable pub work : Input → Worker → Worker
work i s = work_at s.place i s

-- The callback of the stream, which runs while there is one.
unfoldable pub call_back : ℕ → List (Option Str × Bool) → Worker → Worker
call_back num_events events s =
    if s.enforcer.event_backend
    then record s { enforcer = fsevents_callback num_events events s.enforcer }
    else s

-- A call of any thread, a step of the worker or a callback.
pub data Step (s : Worker) : Worker → Type 0 where
  starts :
      (config_present file_system_present created : Bool)
      → Step s (start config_present file_system_present created s).0
  stops_first : Step s (stop_first s).0
  requests : Step s (request_stop s)
  stops_last : Step s (stop_last s).0
  works : (i : Input) → Step s (work i s)
  calls_back :
      (num_events : ℕ) (events : List (Option Str × Bool)) → Step s (call_back num_events events s)

-- A sequence of steps.
pub data Steps (s : Worker) : Worker → Type 0 where
  stay : Steps s s
  then_step : {t u : Worker} → Steps s t → Step t u → Steps s u
