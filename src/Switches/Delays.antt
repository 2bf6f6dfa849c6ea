-- ===== src/Switches/Delays.antt =====
-- The trip and reset delays of a switch, over runs of ticks in true time.
use power_monitoring.Base.{ℕ, ◌-◌, ◌≤◌, ◌≡◌, Bool, List, [], ◌∷◌, if◌then◌else◌, u32}
use power_monitoring.Switches.Rule.{SwitchChannel}
use power_monitoring.Switches.System.{System, Hardware}
use power_monitoring.Switches.Evaluate.{advance}

-- Times that do not go back.
abbrev pub IsAscending : ℕ → List ℕ → Type 0
IsAscending start [] = Unit
IsAscending start (t ∷ ts) = (start ≤ t) × IsAscending t ts

abbrev pub last_of : ℕ → List ℕ → ℕ
last_of start [] = start
last_of start (t ∷ ts) = last_of t ts

module _ {S : Type 0} (hw : Hardware) (i : ℕ) (met : Bool) (trip reset : ℕ)
    (ch : SwitchChannel) where
  -- Ticks at true times in ms, of which the clock has the lowest 32 bits.
  abbrev pub advance_all : List ℕ → System S → System S
  advance_all [] s = s
  advance_all (t ∷ ts) s = advance_all ts (advance hw (u32 t) i met trip reset ch s)

  -- The timer has run since `start`, and the switch has followed only after the delay.
  record IsTimed (start now : ℕ) (s : System S) : Type 0 where
    active : (s.states i).condition_active ≡ met
    since : (s.states i).condition_start_ms ≡ u32 start
    followed : (s.states i).energized ≡ met → (if met then trip else reset) ≤ now - start
