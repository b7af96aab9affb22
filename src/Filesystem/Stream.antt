-- ===== src/Filesystem/Stream.antt =====
-- The FSEvents stream of src/filesystem/filesystem_enforcer.cpp: start_event_stream,
-- stop_event_stream and fsevents_callback, with the handles that they create and release.
use silicon.Prelude.{
  ℕ, zero, suc, ◌+◌, ◌-◌, ◌==◌, Bool, true, false, not, ◌||◌, Option, none, some, List, [], ◌∷◌,
  ◌++◌, if◌then◌else◌, is_empty,
}
use silicon.Text.{Str, mem, set_insert}
use silicon.Filesystem.Types.{FilesystemEnforcer}
use silicon.Filesystem.Events.{enqueue_path_event}

-- What CoreFoundation, CoreServices and libdispatch answer: true where a handle is made.
pub record CoreServices : Type 0 where
  pub array_create : Bool
  pub string_create : Str → Bool
  pub stream_create : Bool
  pub queue_create : Bool
  pub stream_start : Bool

-- The handles that are created and not released, and how often one was released that was not there.
pub record Handles : Type 0 where
  pub arrays : ℕ
  pub strings : ℕ
  pub streams : ℕ
  pub queues : ℕ
  pub excess : ℕ

abbrev pub misses : ℕ → ℕ
misses alive = if alive == 0 then 1 else 0

-- CFRelease of an array and of a string, FSEventStreamRelease and dispatch_release.
abbrev pub release_array : Handles → Handles
release_array h = record h { arrays = h.arrays - 1; excess = h.excess + misses h.arrays }

abbrev pub release_string : Handles → Handles
release_string h = record h { strings = h.strings - 1; excess = h.excess + misses h.strings }

abbrev pub release_stream : Handles → Handles
release_stream h = record h { streams = h.streams - 1; excess = h.excess + misses h.streams }

abbrev pub release_queue : Handles → Handles
release_queue h = record h { queues = h.queues - 1; excess = h.excess + misses h.queues }

-- The watch roots without empty ones and repeats, given those that came before.
unfoldable pub distinct_roots : List Str → List Str → List Str
unfolding mem set_insert
distinct_roots dedupe [] = []
distinct_roots dedupe (root ∷ roots) =
    let rest = distinct_roots (if is_empty root then dedupe else set_insert root dedupe) roots in
    if is_empty root || mem root dedupe then rest else root ∷ rest

abbrev pub with_stream : FilesystemEnforcer → FilesystemEnforcer
with_stream e = record e { event_backend = true }

module _ (core : CoreServices) where
  -- The loop that fills the array, with the number of its elements.
  unfoldable pub append_root : Str → ℕ × Handles → ℕ × Handles
  append_root root (count, h) =
      let made = record h { strings = h.strings + 1 } in
      let released = release_string made in
      if core.string_create root then (count + 1, released) else (count, h)

  unfoldable pub append_roots : List Str → ℕ × Handles → ℕ × Handles
  append_roots [] acc = acc
  append_roots (root ∷ roots) acc = append_roots roots (append_root root acc)

  -- Once there is a stream and a queue.
  unfoldable pub start_stream : FilesystemEnforcer → Handles → FilesystemEnforcer × Handles × Bool
  start_stream e h =
      if core.stream_start
      then (with_stream e, h, true)
      else (e, release_queue (release_stream h), false)

  unfoldable pub with_queue : FilesystemEnforcer → Handles → FilesystemEnforcer × Handles × Bool
  with_queue e h =
      if core.queue_create
      then start_stream e (record h { queues = h.queues + 1 })
      else (e, release_stream h, false)

  -- From the array of the roots on.
  unfoldable pub create_stream :
      FilesystemEnforcer → ℕ × Handles → FilesystemEnforcer × Handles × Bool
  create_stream e (count, h) =
      let released = release_array h in
      if count == 0
      then (e, released, false)
      else if core.stream_create
      then with_queue e (record released { streams = released.streams + 1 })
      else (e, released, false)

  unfoldable pub start_event_stream :
      List Str → FilesystemEnforcer → Handles → FilesystemEnforcer × Handles × Bool
  start_event_stream monitored_paths e h =
      let roots = distinct_roots [] (monitored_paths ++ e.volumes_root ∷ []) in
      if e.event_backend
      then (e, h, true)
      else if is_empty roots || not core.array_create
      then (e, h, false)
      else create_stream e (append_roots roots (0, record h { arrays = h.arrays + 1 }))

unfoldable pub stop_event_stream : FilesystemEnforcer → Handles → FilesystemEnforcer × Handles
stop_event_stream e h = if not e.event_backend then (e, h) else (
  record e {
    event_backend = false;
    pending_event_paths = [];
    volumes_event_pending = false;
    has_pending_events = false;
  },
  release_queue (release_stream h),
)

-- The loop of the callback: each event is the text of its path, `none` where the reference is null,
-- empty or cannot be converted, and whether its flags ask for a rescan.
unfoldable pub handle_callback : List (Option Str × Bool) → FilesystemEnforcer → FilesystemEnforcer
handle_callback [] e = e
handle_callback ((none, rescan) ∷ events) e = handle_callback events e
handle_callback ((some path, rescan) ∷ events) e =
    let queued = enqueue_path_event e path in
    handle_callback events
      (if rescan then enqueue_path_event queued queued.volumes_root else queued)

unfoldable pub take : ℕ → List (Option Str × Bool) → List (Option Str × Bool)
take zero events = []
take (suc n) [] = []
take (suc n) (event ∷ events) = event ∷ take n events

-- `bounded_events` is the smaller of num_events and the length of the array.
unfoldable pub fsevents_callback :
    ℕ → List (Option Str × Bool) → FilesystemEnforcer → FilesystemEnforcer
fsevents_callback num_events events e = handle_callback (take num_events events) e
