-- ===== src/Switches/Tests.antt =====
-- Runs of the controller, over numbers in millionths and a store that takes every write.
use power_monitoring.Base.{
  ℕ, zero, suc, ◌+◌, ◌*◌, ◌<◌, ◌≡◌, refl, ◌≢◌, true, false, not, none, some, List, [], ◌∷◌, arith,
  if◌then◌else◌, replicate, update, u32,
}
use power_monitoring.Floats.{ℤ, pos, millionths, ℤ-IsOrdered}
use power_monitoring.Sensors.{PhysicalChannel, ina226, PodState, SensorSnapshot, logical_channel}
use power_monitoring.Settings.Store.{Store, store_settings, Store-Retains}
use power_monitoring.Expander.{power_on}
use power_monitoring.Switches.Rule.{
  relay, expander, SwitchChannel, any_of, all_of, zero_condition, default_rule,
}
use power_monitoring.Switches.Board.{esp32c3, gpio_in_range}
use power_monitoring.Switches.Conditions.{
  Inputs, trips_above, read_condition_value, trip_value, eval_condition,
}
use power_monitoring.Switches.System.{
  idle, System, Hardware, is_expander, switch_set, switch_pulse, switch_pulse_tick, switch_set_auto,
  get_switch_state,
}
use power_monitoring.Switches.Evaluate.{judge, tally_rule, combine, evaluate_switches}
use power_monitoring.Switches.Frame.{SameAt}
use power_monitoring.Switches.Latching.{IsOverloaded, IsWaiting}
use power_monitoring.Switches.Overload.{run_ticks, overload-never_trips}
use power_monitoring.Switches.Pulse.{evaluate_switches-pulsing, pulse-runs, pulse-ends}
use power_monitoring.Switches.AutoOff.{drives, switch_set_auto-off}
use power_monitoring.Switches.Pins.{
  Operation, tick, pulse, auto, boot, perform_all, perform_all-reserved,
}
use power_monitoring.Switches.ReadBack.{get-switch_set, get-switch_set_expander}
use power_monitoring.Switches.Timing.{combine-tally_rule}
use power_monitoring.Switches.Drive.{Fits}
use power_monitoring.Switches.Driven.{perform_all-level}

abbrev amps : ℕ → ℤ
amps n = pos (n * 1000000)

abbrev reading : ℕ → PhysicalChannel ℤ
reading n = record {
  pod_id = 0;
  pod_channel = 0;
  voltage = amps 12;
  current = amps n;
  power = amps 72;
  energy_wh = amps 0;
  coulomb_mah = amps 0;
  meta = record { stddev = amps 0; spike = false };
}

abbrev pod : ℕ → PodState ℤ
pod n = record { id = 0; type = ina226; name = []; num_channels = 1; channels = reading n ∷ [] }

abbrev snapshot : ℕ → SensorSnapshot ℤ
snapshot n = record {
  timestamp_ms = 0;
  num_pods = 1;
  pods = pod n ∷ [];
  total_logical_channels = 1;
}

abbrev inputs : ℕ → Inputs ℤ
inputs n = record {
  snapshot = snapshot n;
  coulomb_mah = λ _. amps 0;
  epoch_valid = false;
  epoch_time = 0;
  localtime = λ _. none;
}

abbrev hw : Hardware
hw = record { board = esp32c3; wire = λ n a b. 0 }

abbrev relay_zero : SwitchChannel
relay_zero = record {
  idx = 0;
  type = relay;
  gpio_pin = 1;
  active_high = true;
  enabled = true;
  is_energized = false;
  name = [];
}

abbrev store : SwitchChannel → Store ℤ
store ch = record {
  switch_count = 1;
  channels = update (λ _. none) 0 (some ch);
  rules = update (λ _. none) 0 (some (default_rule 0 0));
  auto_enabled = true;
  batteries = λ _. none;
}

abbrev system : SwitchChannel → System (Store ℤ)
system ch = record {
  states = λ _. idle;
  auto_enabled = true;
  nvs = store ch;
  pin_modes = λ _. true;
  levels = λ _. false;
  port = power_on;
  published = [];
}

abbrev ticks : List (ℕ × Inputs ℤ)
ticks = (1000, inputs 6) ∷ (2000, inputs 7) ∷ (9000, inputs 6) ∷ []

-- Six amperes are above the five of the default rule.
overload : (n : ℕ) → 5 < n → IsOverloaded (default_rule 0 0) (amps 5) (replicate 21 0) (inputs n)
unfolding default_rule trip_value logical_channel trips_above
overload n h = record {
  channel = reading n;
  counted = omega arith;
  found = refl;
  above = ground arith;
}

waiting :
    IsWaiting store_settings 0
      (default_rule 0 0)
      (amps 5)
      (replicate 21 0)
      (replicate 3 zero_condition)
      (replicate 3 false)
      (system relay_zero)
unfolding default_rule
waiting = record {
  channel = relay_zero;
  latch = false;
  channel_found = refl;
  channel_enabled = refl;
  rule_found = refl;
  no_pulse = refl;
  is_off = refl;
  in_step = refl;
}

overload-never_trips_example :
    ((run_ticks store_settings hw ticks (system relay_zero)).states 0).energized ≡ false
overload-never_trips_example =
    overload-never_trips ℤ-IsOrdered refl store_settings Store-Retains hw 0 (default_rule 0 0)
      (amps 5) (replicate 21 0) (replicate 3 zero_condition) (replicate 3 false) ticks
      (system relay_zero)
      (overload 6 (omega arith), (overload 7 (omega arith), (overload 6 (omega arith), tt))) waiting

pulse-runs_example :
    let s =
      evaluate_switches store_settings hw
        (inputs 1)
        (u32 (100 + 40))
        (switch_pulse store_settings hw 100 0 50 (system relay_zero)) in
    ((s.states 0).energized ≡ true) × ((s.states 0).pulse_active ≡ true)
pulse-runs_example =
    pulse-runs store_settings Store-Retains hw 0 100 50 40 relay_zero (inputs 1) (system relay_zero)
      (omega arith) refl (omega arith) (omega arith)

pulse-ends_example :
    let s =
      switch_pulse_tick store_settings hw
        (u32 (4294967290 + 50))
        (switch_pulse store_settings hw 4294967290 0 50 (system relay_zero)) in
    ((s.states 0).energized ≡ false) × ((s.states 0).pulse_active ≡ false)
pulse-ends_example =
    pulse-ends store_settings Store-Retains hw 0 4294967290 50 50 relay_zero (system relay_zero)
      (omega arith) refl (omega arith) (omega arith)

evaluate_switches-pulsing_example :
    SameAt store_settings 0
      (record (system relay_zero) {
        states = λ _. record idle { pulse_active = true; pulse_off_at_ms = 900 };
      })
      (evaluate_switches store_settings hw (inputs 6) 800 (record (system relay_zero) {
        states = λ _. record idle { pulse_active = true; pulse_off_at_ms = 900 };
      }))
evaluate_switches-pulsing_example =
    evaluate_switches-pulsing store_settings Store-Retains hw 0 (inputs 6) 800
      (record (system relay_zero) {
        states = λ _. record idle { pulse_active = true; pulse_off_at_ms = 900 };
      })
      (record { active = refl; early = refl })

abbrev energized_system : System (Store ℤ)
energized_system = record (system relay_zero) {
  states = λ _. record idle { energized = true; was_energized = true };
}

abbrev driven : System (Store ℤ)
driven = record energized_system { levels = λ _. true }

switch_set_auto-off_example :
    let s = switch_set_auto store_settings hw false driven in
    (s.auto_enabled ≡ false) × (((s.states 0).energized ≡ false) × (s.levels 1 ≡ false))
unfolding default_rule is_expander gpio_in_range
switch_set_auto-off_example =
    switch_set_auto-off store_settings Store-Retains hw 0 relay_zero driven (omega arith)
      (omega arith) refl refl
      (record {
        channel = relay_zero;
        rule = default_rule 0 0;
        channel_found = refl;
        rule_found = refl;
        rule_enabled = refl;
      })
      (record { found = refl; level = refl; alone = none_other })
  where
    none_other :
        (j : ℕ) (c : SwitchChannel)
        → j ≢ 0
        → store_settings.load_switch driven.nvs j ≡ some c
        → drives 1 c ≡ false
    none_other j c ne e = ground (arith, ne, e)

abbrev calls : List (Operation ℤ)
calls = boot ∷ Operation.set 0 true ∷ pulse 10 0 50 ∷ tick 100 (inputs 6) ∷ auto false ∷ []

-- Pin 9 is a strapping pin of this board.
perform_all-reserved_example :
    let s = perform_all store_settings hw calls (system (record relay_zero { gpio_pin = 9 })) in
    (s.levels 9 ≡ false) × (s.pin_modes 9 ≡ true)
unfolding gpio_in_range
perform_all-reserved_example =
    perform_all-reserved store_settings hw 9 calls (system (record relay_zero { gpio_pin = 9 }))
      refl

wired_zero :
    (j : ℕ) (c : SwitchChannel)
    → store_settings.load_switch (store relay_zero) j ≡ some c
    → Fits 0 1 true j c
unfolding is_expander
wired_zero zero c e = record { own = ground (arith, e); polarity = λ _. ground (arith, e) }
wired_zero (suc j) c e = absurd (ground (arith, e))

abbrev running : List (Operation ℤ)
running =
    Operation.set 0 true
    ∷ tick 100 (inputs 6)
    ∷ pulse 110 0 50
    ∷ tick 170 (inputs 1)
    ∷ auto false
    ∷ []

perform_all-level_example :
    let s = perform_all store_settings hw running (system relay_zero) in
    s.levels 1 ≡ (if true then (s.states 0).energized else not (s.states 0).energized)
unfolding gpio_in_range
perform_all-level_example =
    perform_all-level store_settings Store-Retains hw 0 1 true refl running (system relay_zero)
      (tt, (tt, (tt, (tt, (tt, tt))))) wired_zero refl

get-switch_set_example :
    get_switch_state store_settings hw 0 (switch_set store_settings hw 0 true (system relay_zero))
    ≡ true
unfolding gpio_in_range is_expander
get-switch_set_example =
    get-switch_set store_settings Store-Retains hw 0 true relay_zero (system relay_zero)
      (record { in_range = omega arith; found = refl; is_enabled = refl }) refl refl

abbrev port_zero : SwitchChannel
port_zero = record relay_zero { type = expander }

get-switch_set_expander_example :
    get_switch_state store_settings hw 0 (switch_set store_settings hw 0 true (system port_zero))
    ≡ false
unfolding is_expander
get-switch_set_expander_example =
    get-switch_set_expander store_settings Store-Retains hw 0 true port_zero (system port_zero)
      (record { in_range = omega arith; found = refl; is_enabled = refl }) refl

combine-tally_rule_example :
    (combine all_of 1 (tally_rule (inputs 6) (λ _. none) (default_rule 0 0)) ≡ true)
    × (combine any_of 1 (tally_rule (inputs 6) (λ _. none) (default_rule 0 0)) ≡ true)
unfolding default_rule judge eval_condition read_condition_value logical_channel
combine-tally_rule_example = combine-tally_rule (inputs 6) (λ _. none) (default_rule 0 0)
