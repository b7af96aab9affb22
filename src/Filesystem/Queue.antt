-- ===== src/Filesystem/Queue.antt =====
-- The queue between the callback of the event stream and the scans of
-- src/filesystem/filesystem_enforcer.cpp, under any order of the two.
use silicon.Prelude.{
  ◌≡◌, refl, sym, ap, subst, ◌∙◌, Bool, true, false, not, List, [], ◌∷◌, ◌++◌, arith, keep,
  is_empty, exists_in, if◌then◌else◌, append_nil, append_assoc,
}
use silicon.Text.{Str}
use silicon.Filesystem.Types.{FilesystemEnforcer}
use silicon.Filesystem.Helpers.{has_directory_prefix}
use silicon.Filesystem.Events.{enqueue_path_event, drain_pending_events}

-- A call of enqueue_path_event, or the drain at the start of a scan: each holds events_mutex_.
pub data Turn : Type 0 where
  arrives : Str → Turn
  drains : Turn

abbrev pub is_volume : Str → Str → Bool
is_volume root path = has_directory_prefix path root

-- The flags tell what the queue holds.
pub record IsCoherent (e : FilesystemEnforcer) : Type 0 where
  pub volumes : e.volumes_event_pending ≡ exists_in (is_volume e.volumes_root) e.pending_event_paths
  pub some_pending : e.has_pending_events ≡ not (is_empty e.pending_event_paths)

-- The enforcer after some turns, and the batches that the drains returned, with their flags.
abbrev pub turns : List Turn → FilesystemEnforcer → FilesystemEnforcer × List (List Str × Bool)
turns [] e = (e, [])
turns (arrives path ∷ rest) e = turns rest (enqueue_path_event e path)
turns (drains ∷ rest) e =
    let (e', batch, volume_event_pending) = drain_pending_events e in
    let later = turns rest e' in (later.0, (batch, volume_event_pending) ∷ later.1)

-- The paths that arrive.
abbrev pub arrivals : List Turn → List Str
arrivals [] = []
arrivals (arrives path ∷ rest) = path ∷ arrivals rest
arrivals (drains ∷ rest) = arrivals rest

abbrev pub drained : List (List Str × Bool) → List Str
drained [] = []
drained ((batch, flag) ∷ batches) = batch ++ drained batches

-- Each batch comes with the flag that says whether it holds an event on the volumes root.
abbrev pub AreFlagged : Str → List (List Str × Bool) → Type 0
AreFlagged root [] = Unit
AreFlagged root ((batch, flag) ∷ batches) =
    (flag ≡ exists_in (is_volume root) batch) × AreFlagged root batches

exists_in-append :
    (p : Str → Bool) (xs ys : List Str)
    → exists_in p (xs ++ ys) ≡ (if exists_in p xs then true else exists_in p ys)
unfolding exists_in
exists_in-append p [] ys = refl
exists_in-append p (x ∷ xs) ys = ground (arith, exists_in-append p xs ys)

not_empty-append : (xs : List Str) (x : Str) → is_empty (xs ++ x ∷ []) ≡ false
not_empty-append [] x = refl
not_empty-append (y ∷ xs) x = refl

enqueue-IsCoherent :
    (e : FilesystemEnforcer) (path : Str) → IsCoherent e → IsCoherent (enqueue_path_event e path)
unfolding enqueue_path_event exists_in
enqueue-IsCoherent e path c =
    let volumes = c.volumes in
    let flag = c.some_pending in
    record {
      volumes = ground (
        arith,
        volumes,
        exists_in-append (is_volume e.volumes_root) e.pending_event_paths (path ∷ []),
      );
      some_pending = ground (arith, flag, not_empty-append e.pending_event_paths path);
    }

enqueue_root :
    (e : FilesystemEnforcer) (path : Str)
    → (enqueue_path_event e path).volumes_root ≡ e.volumes_root
unfolding enqueue_path_event
enqueue_root e path = ground arith

enqueue_pending :
    (e : FilesystemEnforcer) (path : Str) (paths : List Str)
    → (enqueue_path_event e path).pending_event_paths ++ keep (λ p. not (is_empty p)) paths
      ≡ e.pending_event_paths ++ keep (λ p. not (is_empty p)) (path ∷ paths)
unfolding enqueue_path_event keep
enqueue_pending e [] paths = refl
enqueue_pending e (c ∷ cs) paths =
    append_assoc e.pending_event_paths ((c ∷ cs) ∷ []) (keep (λ p. not (is_empty p)) paths)

-- In any order of arrivals and drains, no event is lost, repeated or moved before another: what the
-- drains have returned, and behind it what is still pending, are the events pending at first and
-- behind them those that arrived with a path; each batch is flagged when an event of it lies on the
-- volumes root, and the flags tell what the queue holds at the end if they did at first.
pub turns-IsCoherent :
    (rest : List Turn) (e : FilesystemEnforcer)
    → IsCoherent e
    → let (e', batches) = turns rest e in
      IsCoherent e'
      × AreFlagged e.volumes_root batches
      × (drained batches ++ e'.pending_event_paths
          ≡ e.pending_event_paths ++ keep (λ p. not (is_empty p)) (arrivals rest))
unfolding drain_pending_events exists_in
turns-IsCoherent [] e c = (c, tt, unfold keep in sym (append_nil e.pending_event_paths))
turns-IsCoherent (arrives path ∷ rest) e c =
    let (a, b, d) =
      turns-IsCoherent rest (enqueue_path_event e path) (enqueue-IsCoherent e path c) in
    (
      a,
      subst (λ root. AreFlagged root (turns rest (enqueue_path_event e path)).1)
          (enqueue_root e path) b,
      d ∙ enqueue_pending e path (arrivals rest),
    )
turns-IsCoherent (drains ∷ rest) e c =
    let e' = (drain_pending_events e).0 in
    let (a, b, d) = turns-IsCoherent rest e' (record { volumes = refl; some_pending = refl }) in
    (
      a,
      (c.volumes, b),
      append_assoc e.pending_event_paths (drained (turns rest e').1)
            (turns rest e').0.pending_event_paths
          ∙ ap (λ paths. e.pending_event_paths ++ paths) d,
    )
