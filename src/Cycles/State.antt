-- ===== src/Cycles/State.antt =====
-- The state of the cycle counter, and what its tick reads.
use power_monitoring.Base.{ℕ, Bool, true, false, Option}
use power_monitoring.Sensors.{SensorSnapshot}
use power_monitoring.Battery.{BatteryState, Battery}
use power_monitoring.Profiles.{Registry}
use power_monitoring.Settings.{BatteryConfig}
use power_monitoring.Coulomb.{Coulomb}

pub data Direction : Type 0 where
  idle charge discharge : Direction

-- Whether the two are a charge and a discharge.
abbrev pub is_flip : Direction → Direction → Bool
is_flip charge discharge = true
is_flip discharge charge = true
is_flip last new = false

-- `g_last_dir[ch] == 0 && new_dir != 0`.
abbrev pub is_first : Direction → Direction → Bool
is_first idle charge = true
is_first idle discharge = true
is_first last new = false

-- The last direction that was not idle.
abbrev pub next_direction : Direction → Direction → Direction
next_direction last idle = last
next_direction last new = new

-- `battery` has the bindings, and the rows of the states.
pub record Cycles (F : Type 0) : Type 0 where
  pub state : ℕ → BatteryState F
  pub loaded : ℕ → Bool
  pub last_dir : ℕ → Direction
  pub last_persist_ms : ℕ
  pub initialized : Bool
  pub battery : Battery

-- What the tick reads elsewhere. For each channel, `takes` is whether the store takes the row that a
-- change of direction writes, and `takes_later` whether it takes the one of the write of all channels
-- that may follow in the same tick.
pub record Inputs (F : Type 0) : Type 0 where
  pub snap : SensorSnapshot F
  pub registry : Registry F
  pub coulomb : Coulomb F
  pub config : ℕ → Option (BatteryConfig F)
  pub takes : ℕ → Bool
  pub takes_later : ℕ → Bool

-- The same tick, at its second write.
abbrev pub later : {F : Type 0} → Inputs F → Inputs F
later i = record i { takes = i.takes_later }
