-- ===== src/Agent/Exit.antt =====
-- What main of agent/main.cpp has done when it returns.
use silicon.Prelude.{
  ℕ, ◌≤◌, ◌≡◌, refl, Bool, true, false, not, ◌&&◌, ◌||◌, some, List, [], ◌∷◌, ◌++◌, map, arith,
  is_empty, length, if◌then◌else◌, append_nil,
}
use silicon.Platform.{JsonLib, Os}
use silicon.Config.Load.{construct, load}
use silicon.Worker.Steps.{
  Lifecycle, constructed, start, stop, work, work_all, Steps, stay, then_step, starts, works,
}
use silicon.Worker.Safety.{reachable-IsConsistent}
use silicon.Worker.Stopping.{IsStopped}
use silicon.Worker.Destructor.{destroy_again-IsStopped, stop-IsConsistent}
use silicon.Agent.Coordinator.{EnforcementCoordinator, start_both, stop_both, stop_both-IsStopped}
use silicon.Agent.Run.{heartbeat_seconds}
use silicon.Agent.Loop.{new_agent}
use silicon.Agent.Shutdown.{is_signalled, whole_log, turns_of, signals_of, run-returns}
use silicon.Agent.Main.{
  MainLine, reload_failed, start_failed, stop_failed, complete, by_agent, World, path_of,
  new_coordinator, worked, destroy_both, shut_down, serve, main,
}

work_all-reachable :
    (s : Lifecycle) (work_steps : List Bool)
    → Steps constructed s
    → Steps constructed (work_all work_steps s)
unfolding work_all
work_all-reachable s [] h = h
work_all-reachable s (throws ∷ rest) h =
    work_all-reachable (work throws s) rest (then_step h (works throws))

-- Both enforcers are in a state that calls and threads can lead to.
abbrev IsReachable : EnforcementCoordinator → Type 0
IsReachable c = Steps constructed c.process_enforcer × Steps constructed c.filesystem_enforcer

abbrev AreStopped : EnforcementCoordinator → Type 0
AreStopped c = IsStopped c.process_enforcer × IsStopped c.filesystem_enforcer

served-IsReachable :
    (a b : Bool) (xs ys : List Bool)
    → IsReachable (worked xs ys (start_both true true a b new_coordinator).0)
unfolding start_both
served-IsReachable a b xs ys = (
  work_all-reachable _ xs (then_step stay (starts true a)),
  work_all-reachable _ ys (then_step stay (starts true b)),
)

start_both-created : (a b : Bool) → (start_both true true a b new_coordinator).1 ≡ (a && b)
unfolding start_both start
start_both-created true true = refl
start_both-created true false = refl
start_both-created false true = refl
start_both-created false false = refl

stopped_log :
    (log : List MainLine) (stopped : Bool)
    → stopped ≡ true
    → log ++ (if stopped then [] else stop_failed ∷ []) ++ complete ∷ [] ≡ log ++ complete ∷ []
stopped_log log true h = simp append_nil refl
stopped_log log false h = absurd (ground (arith, h))

module _ (J : JsonLib) (O : Os) (w : World O) where
  shut_down-AreStopped :
      (log : List MainLine) (c : EnforcementCoordinator)
      → IsReachable c
      → 5 ≤ length w.filesystem_waits.stop_steps
      → 5 ≤ length w.process_waits.stop_steps
      → let f = shut_down J O w log c in
        (f.exit_code ≡ some 0) × (f.log ≡ log ++ complete ∷ []) × AreStopped f.coordinator
  unfolding shut_down destroy_both stop_both
  shut_down-AreStopped log c (p, q) l l' =
      let m = w.filesystem_waits.stop_steps in
      let n = w.process_waits.stop_steps in
      let (e, a, b) = stop_both-IsStopped c m n p q l l' in
      (
        refl,
        stopped_log log _ e,
        (
          destroy_again-IsStopped (stop n c.process_enforcer).0 _ _
              (stop-IsConsistent n c.process_enforcer (reachable-IsConsistent c.process_enforcer p))
              a,
          destroy_again-IsStopped (stop m c.filesystem_enforcer).0 _ _
              (stop-IsConsistent m c.filesystem_enforcer
                (reachable-IsConsistent c.filesystem_enforcer q))
              b,
        ),
      )

  -- What serve has logged before the stop.
  abbrev served_log : ℕ → List MainLine → List MainLine
  served_log interval log =
      log
      ++ (if w.process_created && w.filesystem_created then [] else start_failed ∷ [])
      ++ map by_agent (
          whole_log interval w.clock (turns_of w.early w.wakes)
            (signals_of w.early w.wakes ++ w.late))

  serve-AreStopped :
      (interval : ℕ) (log : List MainLine)
      → (not (is_empty w.early) || is_signalled w.wakes) ≡ true
      → 5 ≤ length w.filesystem_waits.stop_steps
      → 5 ≤ length w.process_waits.stop_steps
      → let f = serve J O w interval log in
        (f.exit_code ≡ some 0)
        × (f.log ≡ served_log interval log ++ complete ∷ [])
        × AreStopped f.coordinator
  unfolding serve
  serve-AreStopped interval log h l l' =
      let (returned, lines) = run-returns w.late (new_agent interval) w.clock w.early w.wakes h in
      rw (returned, lines, start_both-created w.process_created w.filesystem_created)
        (shut_down-AreStopped (served_log interval log)
          (worked w.process_work w.filesystem_work
            (start_both true true w.process_created w.filesystem_created new_coordinator).0)
          (served-IsReachable w.process_created w.filesystem_created w.process_work
            w.filesystem_work)
          l l')

-- When a signal comes, before the loop or in some turn of it, and each thread takes five steps
-- during the wait for it, main returns 0: it has logged a failed load or start if there was one,
-- then what Agent::run logs with the policy's heartbeat interval, then the end; no thread of either
-- enforcer is left.
pub main-exit :
    (J : JsonLib) (O : Os) (w : World O)
    → (not (is_empty w.early) || is_signalled w.wakes) ≡ true
    → 5 ≤ length w.filesystem_waits.stop_steps
    → 5 ≤ length w.process_waits.stop_steps
    → let c = construct J O w.disk (path_of w.argument) in
      let (loaded, ok) = load J O c.0 c.1 in
      let f = main J O w in
      (f.exit_code ≡ some 0)
      × (f.log
          ≡ (if ok then [] else reload_failed ∷ [])
            ++ (if w.process_created && w.filesystem_created then [] else start_failed ∷ [])
            ++ map by_agent (
                whole_log
                  (heartbeat_seconds loaded.settings)
                  w.clock
                  (turns_of w.early w.wakes)
                  (signals_of w.early w.wakes ++ w.late))
            ++ complete ∷ [])
      × IsStopped f.coordinator.process_enforcer
      × IsStopped f.coordinator.filesystem_enforcer
unfolding main
main-exit J O w h l l' =
    let c = construct J O w.disk (path_of w.argument) in
    let (loaded, ok) = load J O c.0 c.1 in
    let (a, b, pq) =
      serve-AreStopped J O w (heartbeat_seconds loaded.settings)
        (if ok then [] else reload_failed ∷ []) h l l' in
    (a, b, pq.0, pq.1)
