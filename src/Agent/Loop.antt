-- ===== src/Agent/Loop.antt =====
-- The class Agent of agent/Agent.hpp: its life cycle and run.
use silicon.Prelude.{ℕ, Bool, true, false, not, ◌&&◌, List, [], ◌∷◌, ◌++◌, ◌==◌, if◌then◌else◌}
use silicon.Agent.Signals.{Signal, Flags, deliver}
use silicon.Agent.Run.{turn}

pub data LifecycleState : Type 0 where
  starting running shutting_down : LifecycleState

pub record Agent : Type 0 where
  pub state : LifecycleState
  pub heartbeat_interval : ℕ

abbrev pub new_agent : ℕ → Agent
new_agent heartbeat_interval = record { state = starting; heartbeat_interval = heartbeat_interval }

unfoldable pub set_state : LifecycleState → Agent → Agent
set_state state agent = record agent { state = state }

-- The lines that run logs: the states, a heartbeat with the time of its turn, and the signal.
pub data AgentLine : Type 0 where
  entered : LifecycleState → AgentLine
  heartbeat : ℕ → AgentLine
  requested_by_signal : ℕ → AgentLine

-- One turn of the loop: what the clock reads, and the signals before the next test of the flag.
pub record Wake : Type 0 where
  pub now : ℕ
  pub signals : List Signal

-- The agent, the flags and the lines so far, and whether run has returned.
pub record Progress : Type 0 where
  pub agent : Agent
  pub flags : Flags
  pub log : List AgentLine
  pub returned : Bool

-- Behind the loop; the Boolean tells whether run was given a last_signal_, and the signals come between
-- the last test of the flag and the load of last_signal_.
unfoldable pub shut_down : Bool → List Signal → Agent → Flags → List AgentLine → Progress
unfolding set_state
shut_down with_signal late agent flags log =
    let ended = entered shutting_down ∷ [] in
    let signalled = deliver late flags in
    record {
      agent = set_state shutting_down agent;
      flags = signalled;
      log =
          log
          ++ (if with_signal && not (signalled.last_signal == 0)
              then requested_by_signal signalled.last_signal ∷ ended
              else ended);
      returned = true;
    }

-- The loop from a test of the flag on, for as many turns as are given.
unfoldable pub loop : Bool → List Signal → Agent → ℕ → Flags → List Wake → List AgentLine → Progress
unfolding shut_down
loop with_signal late agent next_heartbeat flags [] log =
    if flags.shutdown_requested
    then shut_down with_signal late agent flags log
    else record { agent = agent; flags = flags; log = log; returned = false }
loop with_signal late agent next_heartbeat flags (wake ∷ wakes) log =
    let t = turn agent.heartbeat_interval wake.now next_heartbeat in
    let rest =
      loop with_signal late agent t.next_heartbeat (deliver wake.signals flags) wakes
        (if t.beats then log ++ heartbeat wake.now ∷ [] else log) in
    if flags.shutdown_requested then shut_down with_signal late agent flags log else rest

-- The number is what the clock reads before the loop.
unfoldable pub run : Bool → List Signal → ℕ → Flags → List Wake → Agent → Progress
unfolding set_state
run with_signal late next_heartbeat flags wakes agent =
    loop with_signal late (set_state running (set_state starting agent)) next_heartbeat flags wakes
      (entered starting ∷ entered running ∷ [])
