-- ===== src/Agent/Coordinator.antt =====
-- EnforcementCoordinator of agent/enforcement_coordinator.cpp: both enforcers are started and
-- stopped, whatever the other one answers.
use silicon.Prelude.{List, length, ◌≤◌, ◌≡◌, Bool, true, ◌&&◌, arith}
use silicon.Worker.Steps.{Lifecycle, constructed, start, stop, Steps}
use silicon.Worker.Stopping.{IsStopped, stop-IsStopped}

pub record EnforcementCoordinator : Type 0 where
  pub process_enforcer : Lifecycle
  pub filesystem_enforcer : Lifecycle

-- Whether the policy is there, the process enforcer's only dependency; whether the file system's
-- are; and whether the two threads can be made.
unfoldable pub start_both :
    Bool → Bool → Bool → Bool → EnforcementCoordinator → EnforcementCoordinator × Bool
start_both process_present filesystem_present process_created filesystem_created c =
    let (p, process_started) = start process_present process_created c.process_enforcer in
    let (f, filesystem_started) =
      start filesystem_present filesystem_created c.filesystem_enforcer in
    (
      record { process_enforcer = p; filesystem_enforcer = f },
      process_started && filesystem_started,
    )

-- The steps that the threads take during the two waits: the file system's enforcer is stopped first.
unfoldable pub stop_both :
    List Bool → List Bool → EnforcementCoordinator → EnforcementCoordinator × Bool
stop_both filesystem_steps process_steps c =
    let (f, filesystem_stopped) = stop filesystem_steps c.filesystem_enforcer in
    let (p, process_stopped) = stop process_steps c.process_enforcer in
    (
      record { process_enforcer = p; filesystem_enforcer = f },
      filesystem_stopped && process_stopped,
    )

-- A stop of the coordinator during whose waits each thread takes at least five steps returns true
-- and leaves no thread of either enforcer.
pub stop_both-IsStopped :
    (c : EnforcementCoordinator) (filesystem_steps process_steps : List Bool)
    → Steps constructed c.process_enforcer
    → Steps constructed c.filesystem_enforcer
    → 5 ≤ length filesystem_steps
    → 5 ≤ length process_steps
    → let r = stop_both filesystem_steps process_steps c in
      (r.1 ≡ true) × IsStopped r.0.process_enforcer × IsStopped r.0.filesystem_enforcer
unfolding stop_both
stop_both-IsStopped c m n p f l l' =
    let (e, h) = stop-IsStopped c.process_enforcer n p l' in
    let (e', h') = stop-IsStopped c.filesystem_enforcer m f l in (ground (arith, e, e'), h, h')
