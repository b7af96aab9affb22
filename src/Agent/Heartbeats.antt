-- ===== src/Agent/Heartbeats.antt =====
-- The heartbeats and the sleeps of Agent::run of agent/Agent.hpp.
use silicon.Prelude.{ℕ, ◌+◌, ◌*◌, ◌≤◌, inl, inr, List, [], ◌∷◌, leb, arith, Bool-cases}
use silicon.Config.State.{Settings}
use silicon.Filesystem.RateLimit.{Spaced, Spread}
use silicon.Agent.Run.{heartbeat_seconds, ticks_per_second, pause, turn, heartbeats}

heartbeats-Spaced :
    (interval from next_heartbeat : ℕ) (readings : List ℕ)
    → from + interval * ticks_per_second ≤ next_heartbeat
    → Spaced (interval * ticks_per_second) from (heartbeats interval next_heartbeat readings)
unfolding heartbeats turn
heartbeats-Spaced interval from next [] l = tt
heartbeats-Spaced interval from next (now ∷ readings) l = elim (Bool-cases (leb next now)) [
  | inl due ↦ rw due (
    ground (arith, due, l),
    heartbeats-Spaced interval now (now + interval * ticks_per_second) readings (omega arith),
  )
  | inr early ↦ rw early (heartbeats-Spaced interval from next readings l)
]

-- Any two successive heartbeats are at least the heartbeat interval apart.
pub heartbeats-Spread :
    (interval next_heartbeat : ℕ) (readings : List ℕ)
    → Spread (interval * ticks_per_second) (heartbeats interval next_heartbeat readings)
unfolding heartbeats turn
heartbeats-Spread interval next [] = tt
heartbeats-Spread interval next (now ∷ readings) = elim (Bool-cases (leb next now)) [
  | inl due ↦
      rw due
        (heartbeats-Spaced interval now (now + interval * ticks_per_second) readings (omega arith))
  | inr early ↦ rw early (heartbeats-Spread interval next readings)
]

heartbeat_seconds-positive : (config : Settings) → 1 ≤ heartbeat_seconds config
unfolding heartbeat_seconds
heartbeat_seconds-positive config = ground arith

-- With the interval that main passes, each turn of the loop sleeps for at least one tick, at most a
-- second and never past the next heartbeat.
pub turn-sleep_for :
    (config : Settings) (now next_heartbeat : ℕ)
    → let t = turn (heartbeat_seconds config) now next_heartbeat in
      (1 ≤ t.sleep_for) × (t.sleep_for ≤ ticks_per_second) × (now + t.sleep_for ≤ t.next_heartbeat)
unfolding turn pause
turn-sleep_for config now next =
    let p = heartbeat_seconds-positive config in
    (ground (arith, p), ground (arith, p), ground (arith, p))
