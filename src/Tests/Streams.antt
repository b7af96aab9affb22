-- ===== src/Tests/Streams.antt =====
-- The theorems on the event stream (src/filesystem) at concrete calls.
use silicon.Prelude.{◌≡◌, refl, ◌++◌, Bool, true, false, Option, none, some, List, [], ◌∷◌, take}
use silicon.Text.{Str, codes}
use silicon.Filesystem.Types.{FilesystemEnforcer}
use silicon.Filesystem.Stream.{CoreServices, fsevents_callback}
use silicon.Filesystem.Callback.{queued_by, fsevents_callback-pending}
use silicon.Filesystem.Lifecycle.{
  Worker, Input, no_handles, construct, start, request_stop, work, work_at, call_back, Steps, stay,
  then_step, works, requests, calls_back,
}
use silicon.Filesystem.Lifecycle as L
use silicon.Filesystem.Simulation.{forget, Steps-forget}
use silicon.Filesystem.Lifespan.{IsContained, reachable-IsContained, exited-no_handles}
use silicon.Worker.Steps as W
use silicon.Tests.{exam}
use silicon.Tests.Monitors.{enforcer}

abbrev willing : CoreServices
willing = record {
  array_create = true;
  string_create = λ root. true;
  stream_create = true;
  queue_create = true;
  stream_start = true;
}

abbrev idle : FilesystemEnforcer
idle = record enforcer { event_backend = false }

abbrev changes : List (Option Str × Bool)
changes = (some (codes "/exam/a"), true) ∷ (none, false) ∷ (some (codes "/exam/b"), false) ∷ []

fsevents_callback-pending_example :
    (fsevents_callback 2 changes idle).pending_event_paths
    ≡ idle.pending_event_paths ++ queued_by idle.volumes_root (take 2 changes)
fsevents_callback-pending_example = fsevents_callback-pending 2 changes idle

-- A worker that is started on a system with a stream, scans once, and is asked to stop.
abbrev input : Input
input = record {
  core = willing;
  surroundings = record {
    config = some exam;
    file_system = record {
      now = λ n. n;
      list_directories =
          λ root. record { listed = true; directories = []; error_code = 0; permission_errors = 0 };
      snapshot_tree =
          λ root. record { ok = true; snapshot = []; error_code = 0; permission_errors = 0 };
    };
    stop = λ n. false;
    clipboard = (true, []);
  };
  throws = false;
}

abbrev made : Worker
made = construct []

abbrev scanned : Worker
scanned = call_back 2 changes (work input (work input (work input (start true true true made).0)))

abbrev scanned_run : Steps made scanned
scanned_run =
    then_step
      (then_step
        (then_step (then_step (then_step stay (L.starts true true true)) (works input))
          (works input))
        (works input))
      (calls_back 2 changes)

-- One that is asked to stop before its thread opens the stream.
abbrev asked : Worker
asked = request_stop (start true true true made).0

abbrev asked_run : Steps made asked
asked_run = then_step (then_step stay (L.starts true true true)) requests

abbrev over : Worker
over = work input (work input (work input (work input (work input asked))))

abbrev over_run : Steps made over
over_run =
    then_step
      (then_step
        (then_step (then_step (then_step asked_run (works input)) (works input)) (works input))
        (works input))
      (works input)

over_exited : over.worker_exited ≡ true
unfolding construct start work work_at request_stop
over_exited = refl

Steps-forget_example : W.Steps W.constructed (forget over)
Steps-forget_example = Steps-forget [] over over_run

reachable-IsContained_example : IsContained scanned
reachable-IsContained_example = reachable-IsContained [] scanned scanned_run

exited-no_handles_example : (over.handles ≡ no_handles) × (over.enforcer.event_backend ≡ false)
exited-no_handles_example = exited-no_handles [] over over_run over_exited
