-- ===== src/Filesystem/Handles.antt =====
-- The handles of the FSEvents stream of src/filesystem/filesystem_enforcer.cpp over its life.
use silicon.Prelude.{
  ℕ, ◌+◌, ◌≡◌, refl, ◌∙◌, false, List, [], ◌∷◌, ◌++◌, if◌then◌else◌, arith, Bool-cases, inl, inr,
}
use silicon.Text.{Str}
use silicon.Filesystem.Types.{FilesystemEnforcer}
use silicon.Filesystem.Stream.{
  CoreServices, Handles, distinct_roots, append_root, append_roots, start_stream, with_queue,
  create_stream, start_event_stream, stop_event_stream,
}

-- A stream and a queue are alive exactly while the enforcer has a backend, nothing else is, and nothing
-- was released that was not alive.
pub record IsBalanced (e : FilesystemEnforcer) (h : Handles) : Type 0 where
  pub no_arrays : h.arrays ≡ 0
  pub no_strings : h.strings ≡ 0
  pub one_stream : h.streams ≡ (if e.event_backend then 1 else 0)
  pub one_queue : h.queues ≡ (if e.event_backend then 1 else 0)
  pub no_excess : h.excess ≡ 0

-- The same handles are alive.
record SameHandles (h t : Handles) : Type 0 where
  arrays : t.arrays ≡ h.arrays
  strings : t.strings ≡ h.strings
  streams : t.streams ≡ h.streams
  queues : t.queues ≡ h.queues
  excess : t.excess ≡ h.excess

append_root-SameHandles :
    (core : CoreServices) (root : Str) (acc : ℕ × Handles)
    → SameHandles acc.1 (append_root core root acc).1
unfolding append_root
append_root-SameHandles core root (count, h) = record {
  arrays = ground arith;
  strings = ground arith;
  streams = ground arith;
  queues = ground arith;
  excess = ground arith;
}

append_roots-SameHandles :
    (core : CoreServices) (roots : List Str) (acc : ℕ × Handles)
    → SameHandles acc.1 (append_roots core roots acc).1
unfolding append_roots
append_roots-SameHandles core [] acc = record {
  arrays = refl;
  strings = refl;
  streams = refl;
  queues = refl;
  excess = refl;
}
append_roots-SameHandles core (root ∷ roots) acc =
    let one = append_root-SameHandles core root acc in
    let rest = append_roots-SameHandles core roots (append_root core root acc) in
    record {
      arrays = rest.arrays ∙ one.arrays;
      strings = rest.strings ∙ one.strings;
      streams = rest.streams ∙ one.streams;
      queues = rest.queues ∙ one.queues;
      excess = rest.excess ∙ one.excess;
    }

create_stream-IsBalanced :
    (core : CoreServices) (e : FilesystemEnforcer) (acc : ℕ × Handles)
    → e.event_backend ≡ false
    → acc.1.arrays ≡ 1
    → acc.1.strings ≡ 0
    → acc.1.streams ≡ 0
    → acc.1.queues ≡ 0
    → acc.1.excess ≡ 0
    → IsBalanced (create_stream core e acc).0 (create_stream core e acc).1
unfolding create_stream with_queue start_stream
create_stream-IsBalanced core e (count, h) b a s t q x = record {
  no_arrays = ground (arith, a);
  no_strings = ground (arith, s);
  one_stream = ground (arith, b, t);
  one_queue = ground (arith, b, q);
  no_excess = ground (arith, a, t, q, x);
}

pub start-IsBalanced :
    (core : CoreServices) (roots : List Str) (e : FilesystemEnforcer) (h : Handles)
    → IsBalanced e h
    → IsBalanced (start_event_stream core roots e h).0 (start_event_stream core roots e h).1
unfolding start_event_stream
start-IsBalanced core roots e h b =
    let made : ℕ × Handles = (0, record h { arrays = h.arrays + 1 }) in
    let named : List Str = distinct_roots [] (roots ++ e.volumes_root ∷ []) in
    let same = append_roots-SameHandles core named made in
    elim (Bool-cases e.event_backend) [
      | inl k ↦ record {
        no_arrays = ground (arith, k, b.no_arrays);
        no_strings = ground (arith, k, b.no_strings);
        one_stream = ground (arith, k, b.one_stream);
        one_queue = ground (arith, k, b.one_queue);
        no_excess = ground (arith, k, b.no_excess);
      }
      | inr k ↦
          let c =
            create_stream-IsBalanced core e (append_roots core named made) k
              (omega (arith, same.arrays, b.no_arrays)) (omega (arith, same.strings, b.no_strings))
              (ground (arith, k, same.streams, b.one_stream))
              (ground (arith, k, same.queues, b.one_queue))
              (omega (arith, same.excess, b.no_excess)) in
          record {
            no_arrays = ground (arith, k, b.no_arrays, c.no_arrays);
            no_strings = ground (arith, k, b.no_strings, c.no_strings);
            one_stream = ground (arith, k, b.one_stream, c.one_stream);
            one_queue = ground (arith, k, b.one_queue, c.one_queue);
            no_excess = ground (arith, k, b.no_excess, c.no_excess);
          }
    ]

pub stop-IsBalanced :
    (e : FilesystemEnforcer) (h : Handles)
    → IsBalanced e h
    → IsBalanced (stop_event_stream e h).0 (stop_event_stream e h).1
unfolding stop_event_stream
stop-IsBalanced e h b = record {
  no_arrays = ground (arith, b.no_arrays);
  no_strings = ground (arith, b.no_strings);
  one_stream = ground (arith, b.one_stream);
  one_queue = ground (arith, b.one_queue);
  no_excess = ground (arith, b.one_stream, b.one_queue, b.no_excess);
}
