-- ===== src/Filesystem/Callback.antt =====
-- What fsevents_callback of src/filesystem/filesystem_enforcer.cpp queues.
use silicon.Prelude.{
  ℕ, ◌≡◌, refl, append_nil, append_assoc, sym, ap, ap₂, ◌∙◌, Bool, true, false, Option, none, some,
  zero, suc, take, List, [], ◌∷◌, ◌++◌, if◌then◌else◌, is_empty,
}
use silicon.Text.{Str}
use silicon.Filesystem.Types.{FilesystemEnforcer}
use silicon.Filesystem.Events.{enqueue_path_event}
use silicon.Filesystem.Stream.{handle_callback, fsevents_callback}
use silicon.Filesystem.Stream as Stream

-- A path alone, unless it is empty.
abbrev pub queued : Str → List Str
queued path = if is_empty path then [] else path ∷ []

-- What the events of one call add: each path that could be read, and after it the volumes root where
-- a rescan is asked for.
abbrev pub queued_by : Str → List (Option Str × Bool) → List Str
queued_by root [] = []
queued_by root ((none, rescan) ∷ events) = queued_by root events
queued_by root ((some path, rescan) ∷ events) =
    (queued path ++ (if rescan then queued root else [])) ++ queued_by root events

enqueue-pending :
    (e : FilesystemEnforcer) (path : Str)
    → ((enqueue_path_event e path).pending_event_paths ≡ e.pending_event_paths ++ queued path)
      × ((enqueue_path_event e path).volumes_root ≡ e.volumes_root)
unfolding enqueue_path_event
enqueue-pending e [] = (sym (append_nil e.pending_event_paths), refl)
enqueue-pending e (c ∷ path) = (refl, refl)

-- The queue after one event that could be read.
event-pending :
    (e : FilesystemEnforcer) (path : Str) (rescan : Bool)
    → let once = enqueue_path_event e path in
      let twice = if rescan then enqueue_path_event once once.volumes_root else once in
      (twice.pending_event_paths
        ≡ e.pending_event_paths ++ (queued path ++ (if rescan then queued e.volumes_root else [])))
      × (twice.volumes_root ≡ e.volumes_root)
event-pending e path false =
    let (a, b) = enqueue-pending e path in
    (a ∙ ap (λ q. e.pending_event_paths ++ q) (sym (append_nil (queued path))), b)
event-pending e path true =
    let (a, b) = enqueue-pending e path in
    let once = enqueue_path_event e path in
    let (c, d) = enqueue-pending once once.volumes_root in
    (
      c
          ∙ ap₂ (λ (p q : List Str). p ++ q) a (ap queued b)
          ∙ append_assoc e.pending_event_paths (queued path) (queued e.volumes_root),
      d ∙ b,
    )

handle_callback-pending :
    (events : List (Option Str × Bool)) (e : FilesystemEnforcer)
    → (handle_callback events e).pending_event_paths
      ≡ e.pending_event_paths ++ queued_by e.volumes_root events
unfolding handle_callback
handle_callback-pending [] e = sym (append_nil e.pending_event_paths)
handle_callback-pending ((none, rescan) ∷ events) e = handle_callback-pending events e
handle_callback-pending ((some path, rescan) ∷ events) e =
    let once = enqueue_path_event e path in
    let twice = if rescan then enqueue_path_event once once.volumes_root else once in
    let (a, b) = event-pending e path rescan in
    handle_callback-pending events twice
    ∙ ap₂ (λ (p q : List Str). p ++ q) a (ap (λ (r : Str). queued_by r events) b)
    ∙ append_assoc e.pending_event_paths
        (queued path ++ (if rescan then queued e.volumes_root else []))
        (queued_by e.volumes_root events)

take_lem : (n : ℕ) (events : List (Option Str × Bool)) → Stream.take n events ≡ take n events
unfolding Stream.take
take_lem zero events = refl
take_lem (suc n) [] = refl
take_lem (suc n) (event ∷ events) = ap (λ es. event ∷ es) (take_lem n events)

-- The callback appends to the queue, in order and whatever is in it, the paths of its events that
-- could be read and are not empty, each followed by the volumes root where its flags ask for a
-- rescan, and looks at no event past the number that it is given.
pub fsevents_callback-pending :
    (num_events : ℕ) (events : List (Option Str × Bool)) (e : FilesystemEnforcer)
    → (fsevents_callback num_events events e).pending_event_paths
      ≡ e.pending_event_paths ++ queued_by e.volumes_root (take num_events events)
unfolding fsevents_callback
fsevents_callback-pending num_events events e =
    handle_callback-pending (Stream.take num_events events) e
    ∙ ap (λ es. e.pending_event_paths ++ queued_by e.volumes_root es) (take_lem num_events events)
