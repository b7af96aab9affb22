-- ===== src/Agent/Signals.antt =====
-- The signal handler of agent/main.cpp and the two flags that it sets.
use silicon.Prelude.{ℕ, Bool, true, false, List, [], ◌∷◌}

-- The signals for which install_signal_handlers sets the handler.
pub data Signal : Type 0 where
  sigint sigterm : Signal

abbrev pub number : Signal → ℕ
number sigint = 2
number sigterm = 15

-- g_shutdown_requested_ and g_last_signal_.
pub record Flags : Type 0 where
  pub shutdown_requested : Bool
  pub last_signal : ℕ

abbrev pub no_signal : Flags
no_signal = record { shutdown_requested = false; last_signal = 0 }

unfoldable pub handle_signal : ℕ → Flags → Flags
handle_signal signal flags = record { shutdown_requested = true; last_signal = signal }

-- Some signals, one after the other.
unfoldable pub deliver : List Signal → Flags → Flags
deliver [] flags = flags
deliver (signal ∷ signals) flags = deliver signals (handle_signal (number signal) flags)
