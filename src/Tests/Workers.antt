-- ===== src/Tests/Workers.antt =====
-- The theorems on the worker threads and on the agent (agent) at concrete runs.
use silicon.Prelude.{
  Bool, List, ◌*◌, ◌≡◌, refl, true, false, [], ◌∷◌, ◌++◌, map, none, some, if◌then◌else◌, arith,
}
use silicon.Tests.{Small, OneFile}
use silicon.Text.{codes}
use silicon.Config.State.{ConfigManager}
use silicon.Config.Load.{construct, load}
use silicon.Worker.Steps.{
  Lifecycle, constructed, start, stop_first, stop_last, request_stop, stop, after_wait, starts,
  works, Steps, stay, then_step, work,
}
use silicon.Worker.Safety.{
  alive, IsConsistent, reachable-IsConsistent, start-no_worker, stop-no_worker,
}
use silicon.Worker.Exit.{EndsWithin, request_stop-EndsWithin}
use silicon.Worker.Stopping.{IsStopped, stop-IsStopped}
use silicon.Worker.Destructor.{destroy, destroy-IsStopped}
use silicon.Agent.Signals.{sigint, sigterm}
use silicon.Agent.Shutdown.{whole_log}
use silicon.Agent.Main.{Waits, World, path_of, reload_failed, by_agent, complete, main}
use silicon.Agent.Exit.{main-exit}
use silicon.Agent.Coordinator.{EnforcementCoordinator}
use silicon.Agent.Run.{heartbeat_seconds, ticks_per_second, heartbeats}
use silicon.Agent.Heartbeats.{heartbeats-Spread}
use silicon.Filesystem.RateLimit.{Spread}

-- A worker that was started.
abbrev started : Lifecycle
started = (start true true constructed).0

abbrev start_run : Steps constructed started
start_run = then_step stay (starts true true)

-- Its thread ends after a request.
abbrev stopping : Lifecycle
stopping = request_stop started

abbrev end_run :
    Steps stopping (work false (work false (work false (work false (work false stopping)))))
end_run =
    then_step
      (then_step (then_step (then_step (then_step stay (works false)) (works false)) (works false))
        (works false))
      (works false)

reachable-IsConsistent_example : IsConsistent started
reachable-IsConsistent_example = reachable-IsConsistent started start_run

first_start : (start true true constructed).1 ≡ true
unfolding start
first_start = refl

start-no_worker_example : alive constructed.place ≡ false
start-no_worker_example = start-no_worker constructed true true stay first_start

-- Five steps, in the second of which a scan throws.
abbrev five : List Bool
five = false ∷ true ∷ false ∷ false ∷ false ∷ []

stop-IsStopped_example : ((stop five started).1 ≡ true) × IsStopped (stop five started).0
stop-IsStopped_example = stop-IsStopped started five start_run (omega arith)

-- The state behind a stop during whose wait another start comes, a scan throws and the thread ends.
abbrev waited : Lifecycle
waited =
    work false (
      work false (work true (work false (start true true (request_stop (stop_first started).0)).0)))

abbrev wait_run : Steps (request_stop (stop_first started).0) waited
wait_run =
    then_step
      (then_step
        (then_step (then_step (then_step stay (starts true true)) (works false)) (works true))
        (works false))
      (works false)

joinable_start : (stop_first started).1 ≡ none
unfolding stop_first start
joinable_start = refl

ended_stop : (stop_last waited).1 ≡ true
unfolding stop_last start request_stop stop_first work
ended_stop = refl

stop-no_worker_example : alive (stop_last waited).0.place ≡ false
stop-no_worker_example =
    stop-no_worker started (stop_last waited).0 (stop_last waited).1 start_run
      (after_wait {t = (stop_first started).0} {u = waited} joinable_start stay wait_run) ended_stop

request_stop-EndsWithin_example : EndsWithin end_run
request_stop-EndsWithin_example =
    request_stop-EndsWithin started
      (work false (work false (work false (work false (work false stopping))))) end_run start_run
      (omega arith)

abbrev coordinator : EnforcementCoordinator
coordinator = record { process_enforcer = started; filesystem_enforcer = started }

heartbeats-Spread_example :
    Spread (60 * ticks_per_second) (heartbeats 60 0 (0 ∷ 5 ∷ 60000000001 ∷ []))
heartbeats-Spread_example = heartbeats-Spread 60 0 (0 ∷ 5 ∷ 60000000001 ∷ [])

destroy-IsStopped_example : IsStopped (destroy (false ∷ true ∷ []) five started)
destroy-IsStopped_example =
    destroy-IsStopped started (false ∷ true ∷ []) five start_run (omega arith)

abbrev waits : Waits
waits = record { stop_steps = five; destructor_steps = []; join_steps = [] }

-- A run with a scan that throws and one that works, two signals in the second turn and one more behind it.
abbrev short_run : World OneFile
short_run = record {
  argument = none;
  disk = some (codes "cheat");
  process_created = true;
  filesystem_created = true;
  process_work = false ∷ true ∷ [];
  filesystem_work = false ∷ false ∷ [];
  early = [];
  clock = 7;
  wakes =
      record { now = 7; signals = [] } ∷ record { now = 8; signals = sigterm ∷ sigint ∷ [] } ∷ [];
  late = sigterm ∷ [];
  process_waits = waits;
  filesystem_waits = waits;
}

abbrev short_config : OneFile.Disk × ConfigManager Small
short_config = construct Small OneFile short_run.disk (path_of short_run.argument)

main-exit_example :
    let (loaded, ok) = load Small OneFile short_config.0 short_config.1 in
    let f = main Small OneFile short_run in
    (f.exit_code ≡ some 0)
    × (f.log
        ≡ (if ok then [] else reload_failed ∷ [])
          ++ []
          ++ map by_agent (
              whole_log
                (heartbeat_seconds loaded.settings)
                7
                short_run.wakes
                (sigterm ∷ sigint ∷ sigterm ∷ []))
          ++ complete ∷ [])
    × IsStopped f.coordinator.process_enforcer
    × IsStopped f.coordinator.filesystem_enforcer
main-exit_example = main-exit Small OneFile short_run refl (omega arith) (omega arith)
