-- ===== src/Agent/Main.antt =====
-- main of agent/main.cpp, to its end: what it does from the arguments on, with the destructors of
-- its locals.
use silicon.Prelude.{ℕ, Bool, true, Option, none, some, List, [], ◌∷◌, ◌++◌, map, if◌then◌else◌}
use silicon.Text.{Str}
use silicon.Platform.{JsonLib, Os}
use silicon.Config.Load.{construct, load}
use silicon.Worker.Steps.{constructed, work_all}
use silicon.Worker.Destructor.{destroy}
use silicon.Agent.Coordinator.{EnforcementCoordinator, start_both, stop_both}
use silicon.Agent.Signals.{Signal, no_signal, deliver}
use silicon.Agent.Run.{heartbeat_seconds}
use silicon.Agent.Loop.{AgentLine, Wake, new_agent, run}

-- The lines that main logs itself, and those of Agent::run.
pub data MainLine : Type 0 where
  reload_failed start_failed stop_failed complete : MainLine
  by_agent : AgentLine → MainLine

-- What the threads do around a stop: the steps during its wait, then those during the wait of the
-- destructor's stop and during its join, each with whether it throws if it is a scan.
pub record Waits : Type 0 where
  pub stop_steps : List Bool
  pub destructor_steps : List Bool
  pub join_steps : List Bool

-- What a run of main meets: argv[1], whether the threads can be made, what they do until the run
-- ends (true where a scan throws), the signals before the loop, during it and behind its last test of the flag, and the
-- clock.
pub record World (O : Os) : Type 0 where
  pub argument : Option Str
  pub disk : O.Disk
  pub process_created : Bool
  pub filesystem_created : Bool
  pub process_work : List Bool
  pub filesystem_work : List Bool
  pub early : List Signal
  pub clock : ℕ
  pub wakes : List Wake
  pub late : List Signal
  pub process_waits : Waits
  pub filesystem_waits : Waits

-- The value that main returns, if it does; what it has logged; and the enforcers at the end.
pub record Finish : Type 0 where
  pub exit_code : Option ℕ
  pub log : List MainLine
  pub coordinator : EnforcementCoordinator

abbrev pub path_of : Option Str → Str
path_of none = []
path_of (some argument) = argument

abbrev pub new_coordinator : EnforcementCoordinator
new_coordinator = record { process_enforcer = constructed; filesystem_enforcer = constructed }

abbrev pub worked : List Bool → List Bool → EnforcementCoordinator → EnforcementCoordinator
worked process_work filesystem_work c = record {
  process_enforcer = work_all process_work c.process_enforcer;
  filesystem_enforcer = work_all filesystem_work c.filesystem_enforcer;
}

-- The destructor of the coordinator destroys its members, the last one first.
unfoldable pub destroy_both : Waits → Waits → EnforcementCoordinator → EnforcementCoordinator
destroy_both p f c = record {
  process_enforcer = destroy p.destructor_steps p.join_steps c.process_enforcer;
  filesystem_enforcer = destroy f.destructor_steps f.join_steps c.filesystem_enforcer;
}

module _ (J : JsonLib) (O : Os) where
  -- From the return of Agent::run on.
  unfoldable pub shut_down : World O → List MainLine → EnforcementCoordinator → Finish
  shut_down w log c =
      let (c', stopped) = stop_both w.filesystem_waits.stop_steps w.process_waits.stop_steps c in
      record {
        exit_code = some 0;
        log = log ++ (if stopped then [] else stop_failed ∷ []) ++ complete ∷ [];
        coordinator = destroy_both w.process_waits w.filesystem_waits c';
      }

  -- From the start of the enforcers on, with the heartbeat interval and the lines so far.
  unfoldable pub serve : World O → ℕ → List MainLine → Finish
  serve w heartbeat_interval log =
      let (c, started) =
        start_both true true w.process_created w.filesystem_created new_coordinator in
      let p =
        run true w.late w.clock (deliver w.early no_signal) w.wakes
          (new_agent heartbeat_interval) in
      let log' = log ++ (if started then [] else start_failed ∷ []) ++ map by_agent p.log in
      let c' = worked w.process_work w.filesystem_work c in
      if p.returned
      then shut_down w log' c'
      else record { exit_code = none; log = log'; coordinator = c' }

  unfoldable pub main : World O → Finish
  main w =
      let (disk, config_manager) = construct J O w.disk (path_of w.argument) in
      let (loaded, ok) = load J O disk config_manager in
      serve w (heartbeat_seconds loaded.settings) (if ok then [] else reload_failed ∷ [])
