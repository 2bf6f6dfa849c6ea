-- ===== src/Switches/System.antt =====
-- The state of the controller, and the operations that callers outside of the rules use.
use power_monitoring.Base.{
  ℕ, ◌+◌, Bool, true, false, not, ◌&&◌, ◌||◌, none, some, List, ◌∷◌, ltb, leb, if◌then◌else◌,
  update, u32, sub32, for_range,
}
use Prim.Native.Nat.{min}
use power_monitoring.Expander
use power_monitoring.Expander.{Expander, Wire}
use power_monitoring.Settings.{Settings}
use power_monitoring.Switches.Board.{Board, gpio_in_range}
use power_monitoring.Switches.Rule.{SwitchType, expander, SwitchChannel}

pub record SwitchState : Type 0 where
  pub energized : Bool
  pub was_energized : Bool
  pub condition_start_ms : ℕ
  pub condition_active : Bool
  pub pulse_active : Bool
  pub pulse_off_at_ms : ℕ

abbrev pub idle : SwitchState
idle = record {
  energized = false;
  was_energized = false;
  condition_start_ms = 0;
  condition_active = false;
  pulse_active = false;
  pulse_off_at_ms = 0;
}

abbrev pub max_switches : ℕ
max_switches = 8

-- The static variables, the settings, the pins (which are outputs, and their levels), the expander,
-- and the calls of `publish_switch_state`, newest first.
pub record System (S : Type 0) : Type 0 where
  pub states : ℕ → SwitchState
  pub auto_enabled : Bool
  pub nvs : S
  pub pin_modes : ℕ → Bool
  pub levels : ℕ → Bool
  pub port : Expander
  pub published : List (ℕ × Bool)

-- What is fixed at build time, and the I2C bus.
pub record Hardware : Type 0 where
  pub board : Board
  pub wire : Wire

-- The level at which a channel is as wanted.
abbrev pub pin_high : SwitchChannel → Bool → Bool
pin_high ch energized = if ch.active_high then energized else not energized

unfoldable pub is_expander : SwitchType → Bool
is_expander expander = true
is_expander _ = false

module _ {S : Type 0} where
  unfoldable pub digital_write : ℕ → Bool → System S → System S
  digital_write pin high s = record s { levels = update s.levels pin high }

  unfoldable pub pin_mode_output : ℕ → System S → System S
  pin_mode_output pin s = record s { pin_modes = update s.pin_modes pin true }

  unfoldable pub publish_switch_state : ℕ → Bool → System S → System S
  publish_switch_state i on s = record s { published = (i, on) ∷ s.published }

  abbrev pub set_state : ℕ → SwitchState → System S → System S
  set_state i st s = record s { states = update s.states i st }

  -- The logs are left out: a failed write of the expander has no other effect.
  unfoldable pub set_switch_pin : Hardware → SwitchChannel → Bool → System S → System S
  unfolding is_expander digital_write
  set_switch_pin hw ch energized s =
      if is_expander ch.type
      then (if ltb 7 ch.gpio_pin then s else record s {
        port = (Expander.set_pin hw.wire ch.gpio_pin (pin_high ch energized) s.port).0;
      })
      else if gpio_in_range hw.board ch.gpio_pin
      then digital_write ch.gpio_pin (pin_high ch energized) s
      else s

-- `(long)(now - off) >= 0` at 32 bits.
abbrev pub has_passed : ℕ → ℕ → Bool
has_passed now off = ltb (sub32 now off) 2147483648

module _ {F S : Type 0} (p : Settings F S) (hw : Hardware) where
  unfoldable pub switch_set_channel : ℕ → Bool → SwitchChannel → System S → System S
  unfolding publish_switch_state
  switch_set_channel idx on ch s =
      let s' = set_switch_pin hw ch on s in
      let st = record (s'.states idx) { energized = on; was_energized = on } in
      publish_switch_state idx on (record s' {
        states = update s'.states idx st;
        nvs = p.save_switch idx (record ch { is_energized = on }) s'.nvs;
      })

  unfoldable pub switch_set : ℕ → Bool → System S → System S
  unfolding switch_set_channel
  switch_set idx on s =
      if leb max_switches idx
      then s
      else elim (p.load_switch s.nvs idx) [ none ↦ s | some ch ↦ switch_set_channel idx on ch s ]

  -- `now` is what `millis()` returns.
  unfoldable pub switch_pulse : ℕ → ℕ → ℕ → System S → System S
  unfolding switch_set
  switch_pulse now idx duration_ms s =
      let s' = switch_set idx true s in
      let st = record (s'.states idx) {
        pulse_active = true;
        pulse_off_at_ms = u32 (now + duration_ms);
      } in
      if leb max_switches idx
      then s
      else elim (p.load_switch s.nvs idx) [ none ↦ s | some ch ↦ set_state idx st s' ]

  -- A round of the loop of `switch_pulse_tick`.
  unfoldable pub end_pulse : ℕ → ℕ → System S → System S
  unfolding switch_set
  end_pulse now i s =
      let s' = switch_set i false s in
      if (s.states i).pulse_active && has_passed now (s.states i).pulse_off_at_ms
      then set_state i (record (s'.states i) { pulse_active = false }) s'
      else s

  unfoldable pub switch_pulse_tick : ℕ → System S → System S
  unfolding end_pulse for_range
  switch_pulse_tick now = for_range max_switches 0 (end_pulse now)

  unfoldable pub force_off : ℕ → SwitchChannel → System S → System S
  unfolding publish_switch_state
  force_off i ch s =
      let s' = set_switch_pin hw ch false s in
      let st = record (s'.states i) { energized = false; was_energized = false } in
      publish_switch_state i false (record s' {
        states = update s'.states i st;
        nvs = p.save_switch i (record ch { is_energized = false }) s'.nvs;
      })

  -- A round of the loop of `switch_set_auto`: what a rule holds on is switched off.
  unfoldable pub force_reset : ℕ → System S → System S
  unfolding force_off
  force_reset i s = elim (p.load_switch s.nvs i) [
    | none ↦ s
    | some ch ↦ elim (p.load_switch_rule s.nvs i) [
      | none ↦ s
      | some rule ↦ if not rule.enabled || not (s.states i).energized then s else force_off i ch s
    ]
  ]

  unfoldable pub switch_set_auto : Bool → System S → System S
  unfolding force_reset for_range
  switch_set_auto on s =
      let s' = record s { auto_enabled = on; nvs = p.save_auto_enabled on s.nvs } in
      let count = p.load_switch_count s'.nvs in
      if on then s' else for_range (min count max_switches) 0 force_reset s'

  unfoldable pub switch_pulse_active : ℕ → System S → Bool
  switch_pulse_active idx s = if leb max_switches idx then false else (s.states idx).pulse_active

  -- The level is that of the pin of this number, whatever the type of the channel.
  unfoldable pub get_switch_state : ℕ → System S → Bool
  get_switch_state idx s = if leb max_switches idx then false else elim (p.load_switch s.nvs idx) [
    | none ↦ false
    | some ch ↦
        if not ch.enabled
        then false
        else if ch.active_high
        then s.levels ch.gpio_pin
        else not (s.levels ch.gpio_pin)
  ]
