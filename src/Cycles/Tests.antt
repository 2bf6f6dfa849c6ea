-- ===== src/Cycles/Tests.antt =====
-- Runs of the cycle counter over numbers in millionths, and witnesses.
-- A number in four cells: its sign, its size and two that are free.
use power_monitoring.Base.{
  ℕ, ◌≡◌, refl, sym, ◌∙◌, Bool, true, false, Option, none, List, [], ◌∷◌, arith, leb, ◌==◌,
  if◌then◌else◌, length, get_or, set, replicate, if_keeps,
}
use power_monitoring.Floats.{clamp, ℤ, pos, negsuc, millionths, ℤ-IsOrdered}
use power_monitoring.Sensors.{ina226, SensorSnapshot}
use power_monitoring.Battery.{
  max_logical_channels, BatteryState, Layout, state_get, empty_state, battery_state_load,
}
use power_monitoring.Battery.Stored.{IsLayout}
use power_monitoring.Profiles.{Registry, lead_acid_builtin, with_defaults}
use power_monitoring.Cycles.State.{idle, Cycles, Inputs}
use power_monitoring.Cycles.Legs.{update_soh, session_delta, end_leg}
use power_monitoring.Cycles.Range.{IsScale}
use power_monitoring.Cycles.Tick.{IsHealthy, empty-IsSound}
use power_monitoring.Cycles.Health.{Call, tick, get, reset, call_all, call_all-IsHealthy}

abbrev cells : ℤ → List ℕ
cells (pos n) = 0 ∷ n ∷ 0 ∷ 0 ∷ []
cells (negsuc n) = 1 ∷ n ∷ 0 ∷ 0 ∷ []

abbrev of_cells : List ℕ → ℤ
of_cells bs = if get_or bs 0 0 == 0 then pos (get_or bs 1 0) else negsuc (get_or bs 1 0)

abbrev word_cells : ℕ → List ℕ
word_cells n = n ∷ 0 ∷ 0 ∷ 0 ∷ []

abbrev layout : Layout ℤ
layout = record {
  bytes = cells;
  of_bytes = of_cells;
  word_bytes = word_cells;
  word_of_bytes = λ bs. get_or bs 0 0;
  zero_float = pos 0;
  hundred = pos 100000000;
}

layout-IsLayout : IsLayout layout
layout-IsLayout = record {
  length_bytes = length_cells;
  length_word = λ n. refl;
  of_bytes-bytes = of_cells-cells;
  word-word = λ n h. refl;
}
  where
    length_cells : (x : ℤ) → length (cells x) ≡ 4
    length_cells (pos n) = refl
    length_cells (negsuc n) = refl

    of_cells-cells : (x : ℤ) → of_cells (cells x) ≡ x
    of_cells-cells (pos n) = refl
    of_cells-cells (negsuc n) = refl

ℤ-IsScale : IsScale ℤ
ℤ-IsScale = record { hundred = refl; sentinel = refl }

-- One pod with a channel that carries a current, and channel 0 bound to profile 0.
abbrev reading : ℤ → SensorSnapshot ℤ
reading amps = record {
  timestamp_ms = 0;
  num_pods = 1;
  total_logical_channels = 1;
  pods =
      record {
        id = 1;
        type = ina226;
        name = [];
        num_channels = 1;
        channels =
            record {
              pod_id = 1;
              pod_channel = 0;
              voltage = pos 12000000;
              current = amps;
              power = pos 0;
              energy_wh = pos 0;
              coulomb_mah = pos 0;
              meta = record { stddev = pos 0; spike = false };
            }
            ∷ [];
      }
      ∷ [];
}

abbrev registry : Registry ℤ
registry =
    with_defaults
      (record { profiles = []; populated = 0; store = record { version = none; blob = none } })

abbrev inputs : ℤ → Inputs ℤ
inputs amps = record {
  snap = reading amps;
  registry = registry;
  coulomb = record {
    accumulated_mah = λ ch. negsuc 99999999;
    last_persist_ms = 0;
    rows = λ ch. pos 0;
  };
  config = λ ch. none;
  takes = λ ch. true;
  takes_later = λ ch. true;
}

abbrev powered_on : Cycles ℤ
powered_on = record {
  state = λ ch. empty_state layout;
  loaded = λ ch. false;
  last_dir = λ ch. idle;
  last_persist_ms = 0;
  initialized = false;
  battery = record {
    bindings = set (replicate 16 255) 0 0;
    bind_row = none;
    bind_version_row = none;
    state_rows = λ ch. none;
  };
}

abbrev calls : List (Call ℤ)
calls =
    tick (inputs (pos 1000000)) 1000 (pos 1000000)
    ∷ tick (inputs (negsuc 999999)) 2000 (pos 1000000)
    ∷ get 0
    ∷ reset (inputs (pos 0)) 0
    ∷ []

nothing_stored : (ch : ℕ) → battery_state_load layout ch powered_on.battery ≡ none
unfolding battery_state_load state_get
nothing_stored ch =
    if_keeps (λ (r : Option (BatteryState ℤ)). r ≡ none) (leb max_logical_channels ch) none none
      refl refl

call_all-IsHealthy_example : IsHealthy layout (call_all layout calls powered_on)
call_all-IsHealthy_example =
    call_all-IsHealthy ℤ-IsOrdered ℤ-IsScale layout layout-IsLayout refl calls powered_on
      (omega arith, (omega arith, (tt, (tt, tt))))
      (record {
        cached = λ ch. empty-IsSound ℤ-IsOrdered ℤ-IsScale layout layout-IsLayout refl;
        stored = λ ch st e. absurd (ground (arith, sym (nothing_stored ch) ∙ e));
      })

abbrev at_ninety : BatteryState ℤ
at_ninety = record (empty_state layout) {
  last_soc_pct = pos 90000000;
  last_session_start_pct = pos 90000000;
}

-- From 90 to 85 percent and then to 40: the first leg is not counted, and the second counts as 0.45
-- cycles, so the first is not part of it.
abbrev first_leg : Bool × BatteryState ℤ
first_leg = end_leg lead_acid_builtin (record at_ninety { last_soc_pct = pos 85000000 })

legs :
    let second = end_leg lead_acid_builtin (record first_leg.1 { last_soc_pct = pos 40000000 }) in
    (first_leg.0 ≡ false) × ((second.0 ≡ true) × (second.1.equivalent_full_cycles ≡ pos 450000))
unfolding end_leg session_delta update_soh clamp
legs = (refl, (refl, refl))

-- The health after a first leg of 10 percent is 10, whatever the battery.
shallow :
    (end_leg lead_acid_builtin (record at_ninety { last_soc_pct = pos 80000000 })).1.soh_pct
    ≡ pos 10000000
unfolding end_leg session_delta update_soh clamp
shallow = refl
