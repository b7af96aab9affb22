-- ===== src/Agent/Run.antt =====
-- Agent::run of agent/Agent.hpp and what agent/main.cpp calls around it.
use silicon.Prelude.{ℕ, ◌+◌, ◌-◌, ◌*◌, Bool, List, [], ◌∷◌, ltb, leb, if◌then◌else◌}
use silicon.Prelude.Int.{max_int, to_nat}
use silicon.Config.State.{Settings}
use silicon.Config.Queries.{get_heartbeat_interval}

-- `heartbeat_seconds` of main.
unfoldable pub heartbeat_seconds : Settings → ℕ
heartbeat_seconds config = to_nat (max_int (get_heartbeat_interval config) 1)

-- steady_clock counts nanoseconds.
abbrev pub ticks_per_second : ℕ
ticks_per_second = 1000000000

-- What the loop does in one turn: the next heartbeat, whether it logs one now, and the sleep.
pub record Turn : Type 0 where
  pub next_heartbeat : ℕ
  pub beats : Bool
  pub sleep_for : ℕ

unfoldable pub pause : ℕ → ℕ → ℕ
pause now next_heartbeat =
    let remaining = next_heartbeat - now in
    if leb remaining 0
    then 100000000
    else if ltb ticks_per_second remaining
    then ticks_per_second
    else remaining

unfoldable pub turn : ℕ → ℕ → ℕ → Turn
turn interval now next_heartbeat =
    let beats = leb next_heartbeat now in
    let next = if beats then now + interval * ticks_per_second else next_heartbeat in
    record { next_heartbeat = next; beats = beats; sleep_for = pause now next }

-- The heartbeats that run logs: the loop with the clock's readings until shutdown_requested_, from
-- the time that next_heartbeat has before it.
unfoldable pub heartbeats : ℕ → ℕ → List ℕ → List ℕ
heartbeats interval next_heartbeat [] = []
heartbeats interval next_heartbeat (now ∷ readings) =
    let t = turn interval now next_heartbeat in
    let rest = heartbeats interval t.next_heartbeat readings in if t.beats then now ∷ rest else rest
