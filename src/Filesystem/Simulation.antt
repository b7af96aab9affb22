-- ===== src/Filesystem/Simulation.antt =====
-- The worker thread of src/filesystem/filesystem_enforcer.cpp behaves as the thread that both
-- enforcers have, when its event stream is forgotten.
use silicon.Prelude.{ℕ, ◌≡◌, refl, sym, subst, ◌⊎◌, inl, inr, Bool, ◌&&◌, Option, List, arith}
use silicon.Text.{Str}
use silicon.Worker.Steps as W
use silicon.Filesystem.Lifecycle.{
  Place, absent, opening, testing, scanning, waiting, closing, leaving, exiting, Worker, construct,
  start, stop_first, request_stop, stop_last, Input, work_at, work, call_back, Step, starts,
  stops_first, requests, stops_last, works, calls_back, Steps, stay, then_step,
}

abbrev pub forget_place : Place → W.Place
forget_place absent = W.gone
forget_place opening = W.testing
forget_place testing = W.testing
forget_place scanning = W.scanning
forget_place waiting = W.waiting
forget_place closing = W.leaving
forget_place leaving = W.leaving
forget_place exiting = W.exiting

abbrev pub forget : Worker → W.Lifecycle
forget s = record {
  running = s.running;
  stop_requested = s.stop_requested;
  worker_joinable = s.worker_joinable;
  worker_exited = s.worker_exited;
  place = forget_place s.place;
}

start-forget :
    (a b c : Bool) (s : Worker) → forget (start a b c s).0 ≡ (W.start (a && b) c (forget s)).0
unfolding start W.start
start-forget a b c s = ground arith

-- A step of the thread is one of the forgetful thread, or none where the stream is started or stopped.
work_at-forget :
    (p : Place) (i : Input) (s : Worker)
    → s.place ≡ p
    → (forget (work_at p i s) ≡ forget s) ⊎ (forget (work_at p i s) ≡ W.work i.throws (forget s))
unfolding work_at W.work
work_at-forget absent i s e = inl refl
work_at-forget opening i s e = inl (ground (arith, e))
work_at-forget testing i s e = inr (ground (arith, e))
work_at-forget scanning i s e = inr (ground (arith, e))
work_at-forget waiting i s e = inr (ground (arith, e))
work_at-forget closing i s e = inl (ground (arith, e))
work_at-forget leaving i s e = inr (ground (arith, e))
work_at-forget exiting i s e = inr (ground (arith, e))

call_back-forget :
    (n : ℕ) (events : List (Option Str × Bool)) (s : Worker)
    → forget (call_back n events s) ≡ forget s
unfolding call_back
call_back-forget n events s = ground arith

-- A step as a sequence of steps of the forgetful thread.
Step-forget : (s t : Worker) → Step s t → (forget t ≡ forget s) ⊎ W.Step (forget s) (forget t)
unfolding stop_first request_stop stop_last W.stop_first W.request_stop W.stop_last work
Step-forget s t (starts a b c) =
    inr (subst (W.Step (forget s)) (sym (start-forget a b c s)) (W.starts (a && b) c))
Step-forget s t stops_first = inr (subst (W.Step (forget s)) (ground arith) W.stops_first)
Step-forget s t requests = inr W.requests
Step-forget s t stops_last = inr (subst (W.Step (forget s)) (ground arith) W.stops_last)
Step-forget s t (works i) = elim (work_at-forget s.place i s refl) [
  | inl e ↦ inl e
  | inr e ↦ inr (subst (W.Step (forget s)) (sym e) (W.works i.throws))
]
Step-forget s t (calls_back n events) = inl (call_back-forget n events s)

construct-forget : (volumes_root : Str) → forget (construct volumes_root) ≡ W.constructed
unfolding construct
construct-forget volumes_root = refl

-- However the calls, the steps of the thread and the callbacks of its stream are interleaved after
-- the construction, what they do to the life cycle is a sequence of the steps that both enforcers
-- share, so that all that holds in every reachable state of those holds here.
pub Steps-forget :
    (volumes_root : Str) (s : Worker)
    → Steps (construct volumes_root) s
    → W.Steps W.constructed (forget s)
Steps-forget volumes_root s stay =
    subst (W.Steps W.constructed) (sym (construct-forget volumes_root)) W.stay
Steps-forget volumes_root s (then_step {t} run step) = elim (Step-forget t s step) [
  | inl e ↦ subst (W.Steps W.constructed) (sym e) (Steps-forget volumes_root t run)
  | inr next ↦ W.then_step (Steps-forget volumes_root t run) next
]
