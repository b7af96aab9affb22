-- ===== src/Filesystem/RateLimit.antt =====
-- The rate limit of notifications in src/filesystem/filesystem_enforcer.cpp.
use silicon.Prelude.{
  ℕ, ◌+◌, ◌-◌, ◌*◌, ◌≤◌, ◌<◌, ◌≡◌, refl, ◌↔◌, ◌⊎◌, inl, inr, true, false, List, [], ◌∷◌, leb,
  if◌then◌else◌, arith, Bool-cases,
}
use silicon.Filesystem.Types.{Time, ticks_per_second, FilesystemEnforcer}
use silicon.Filesystem.Notify.{should_emit_notification}

module _ (e : FilesystemEnforcer) (now : Time) (minimum_interval : ℕ) where
  -- No notification was sent, or the clock went back, or the interval has passed.
  abbrev pub IsDue : Type 0
  IsDue =
      (e.has_notification_time ≡ false)
      ⊎ ((now < e.last_notification_time)
          ⊎ (e.last_notification_time + minimum_interval * ticks_per_second ≤ now))

  due_sound : (should_emit_notification e now minimum_interval).1 ≡ true → IsDue
  unfolding should_emit_notification
  due_sound h = grind arith

  due_complete : IsDue → (should_emit_notification e now minimum_interval).1 ≡ true
  unfolding should_emit_notification
  due_complete h = grind arith

  -- A notification may go out exactly when none went out before, or the clock went back since the
  -- last one, or at least the interval has passed since then.
  pub should_emit_notification_iff :
      ((should_emit_notification e now minimum_interval).1 ≡ true) ↔ IsDue
  should_emit_notification_iff = (due_sound, due_complete)

-- The times, out of those asked for, at which a notification goes out.
pub emission_times : FilesystemEnforcer → ℕ → List Time → List Time
emission_times e minimum_interval [] = []
emission_times e minimum_interval (now ∷ times) =
    let (e', due) = should_emit_notification e now minimum_interval in
    let rest = emission_times e' minimum_interval times in if due then now ∷ rest else rest

-- The clock does not go back, from a time on.
abbrev pub NeverBack : Time → List Time → Type 0
NeverBack from [] = Unit {0}
NeverBack from (now ∷ times) = (from ≤ now) × NeverBack now times

-- Each time is at least `gap` after the one before it, the first at least `gap` after `from`.
abbrev pub Spaced : ℕ → Time → List Time → Type 0
Spaced gap from [] = Unit {0}
Spaced gap from (now ∷ times) = (from + gap ≤ now) × Spaced gap now times

-- The verdict on a clock that has not gone back since the last notification.
decision :
    (e : FilesystemEnforcer) (minimum_interval : ℕ) (now : Time)
    → e.has_notification_time ≡ true
    → e.last_notification_time ≤ now
    → (should_emit_notification e now minimum_interval ≡ (e, false))
      ⊎ ((should_emit_notification e now minimum_interval
            ≡ (record e { last_notification_time = now }, true))
          × (e.last_notification_time + minimum_interval * ticks_per_second ≤ now))
unfolding should_emit_notification
decision e n now h l =
    elim (Bool-cases (leb (n * ticks_per_second) (now - e.last_notification_time))) [
      | inl due ↦ inr (ground arith, ground arith)
      | inr early ↦ inl (ground arith)
    ]

later_times :
    (e : FilesystemEnforcer) (minimum_interval : ℕ) (times : List Time) (from : Time)
    → e.has_notification_time ≡ true
    → e.last_notification_time ≤ from
    → NeverBack from times
    → Spaced
        (minimum_interval * ticks_per_second)
        e.last_notification_time
        (emission_times e minimum_interval times)
unfolding emission_times
later_times e n [] from h l b = tt
later_times e n (now ∷ times) from h l b = elim (decision e n now h (omega arith)) [
  | inl early ↦ rw early (later_times e n times now h (omega arith) b.1)
  | inr (due, apart) ↦ rw due (
    apart,
    later_times (record e { last_notification_time = now }) n times now h (omega arith) b.1,
  )
]

-- Any two successive times are at least `gap` apart.
abbrev pub Spread : ℕ → List Time → Type 0
Spread gap [] = Unit {0}
Spread gap (now ∷ times) = Spaced gap now times

Spaced-Spread :
    (gap : ℕ) (from : Time) (times : List Time) → Spaced gap from times → Spread gap times
Spaced-Spread gap from [] h = tt
Spaced-Spread gap from (now ∷ times) h = h.1

first_time :
    (e : FilesystemEnforcer) (minimum_interval : ℕ) (now : Time)
    → e.has_notification_time ≡ false
    → should_emit_notification e now minimum_interval
      ≡ (record e { has_notification_time = true; last_notification_time = now }, true)
unfolding should_emit_notification
first_time e n now h = ground arith

fresh_times :
    (e : FilesystemEnforcer) (minimum_interval : ℕ) (times : List Time)
    → e.has_notification_time ≡ false
    → NeverBack e.last_notification_time times
    → Spread (minimum_interval * ticks_per_second) (emission_times e minimum_interval times)
unfolding emission_times
fresh_times e n [] h b = tt
fresh_times e n (now ∷ times) h b = rw (first_time e n now h) (
    later_times (record e { has_notification_time = true; last_notification_time = now }) n times
      now refl (omega arith) b.1)

-- While the clock does not go back, any two successive notifications are at least the rate limit
-- apart.
pub emission_times-Spread :
    (e : FilesystemEnforcer) (minimum_interval : ℕ) (times : List Time)
    → NeverBack e.last_notification_time times
    → Spread (minimum_interval * ticks_per_second) (emission_times e minimum_interval times)
emission_times-Spread e n times b = elim (Bool-cases e.has_notification_time) [
  | inl h ↦
      Spaced-Spread _ e.last_notification_time _
        (later_times e n times e.last_notification_time h (omega arith) b)
  | inr h ↦ fresh_times e n times h b
]
