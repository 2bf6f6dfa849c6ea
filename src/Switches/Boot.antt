-- ===== src/Switches/Boot.antt =====
-- `init_switches`: what the controller does at boot.
use Prim.Native.Nat.{min}
use power_monitoring.Base.{
  ℕ, zero, suc, ◌+◌, Bool, true, false, not, ◌&&◌, ◌||◌, none, some, List, [], ◌∷◌, ltb, ◌==◌,
  if◌then◌else◌, get_or, for_range,
}
use power_monitoring.Floats.{Float}
use power_monitoring.Expander
use power_monitoring.Settings.{Settings}
use power_monitoring.Switches.Rule.{SwitchType, relay, SwitchChannel, default_rule}
use power_monitoring.Switches.Board.{gpio_in_range}
use power_monitoring.Switches.System.{
  System, Hardware, idle, max_switches, is_expander, set_state, publish_switch_state, digital_write,
  pin_mode_output,
}

abbrev pub pcf8574at_addr : ℕ
pcf8574at_addr = 0x3f

unfoldable pub is_relay : SwitchType → Bool
is_relay relay = true
is_relay _ = false

-- "Relay %u"
abbrev pub relay_name : ℕ → List ℕ
relay_name i = b'R' ∷ b'e' ∷ b'l' ∷ b'a' ∷ b'y' ∷ b' ' ∷ (b'0' + i) ∷ []

module _ {S : Type 0} (hw : Hardware) where
  -- `pinMode` and `digitalWrite`, for a pin that the board allows.
  unfoldable pub drive_off : SwitchChannel → System S → System S
  unfolding pin_mode_output digital_write
  drive_off ch s =
      if gpio_in_range hw.board ch.gpio_pin
      then digital_write ch.gpio_pin (not ch.active_high) (pin_mode_output ch.gpio_pin s)
      else s

  -- The outputs of the expander are driven off and set no pin of the board.
  unfoldable pub drive_safe : SwitchChannel → System S → System S
  unfolding drive_off is_expander
  drive_safe ch s =
      if is_expander ch.type
      then (if ltb 7 ch.gpio_pin then s else record s {
        port = (Expander.set_pin hw.wire ch.gpio_pin (not ch.active_high) s.port).0;
      })
      else drive_off ch s

module _ {F S : Type 0} ⦃m : Float F⦄ (p : Settings F S) (hw : Hardware) where
  unfoldable pub default_channel : ℕ → SwitchChannel
  default_channel i = record {
    idx = i;
    type = relay;
    gpio_pin = get_or hw.board.default_pins i 0;
    active_high = true;
    enabled = true;
    is_energized = false;
    name = relay_name i;
  }

  -- A round of the first loop of `init_switches`, for a device with no settings.
  unfoldable pub boot_default : ℕ → System S → System S
  unfolding drive_off default_channel
  boot_default i s =
      let ch = default_channel i in
      set_state i idle (
        drive_off hw ch
          (record s { nvs = p.save_switch_rule i (default_rule i i) (p.save_switch i ch s.nvs) }))

  -- A relay among the first four goes back to the board's pin.
  unfoldable pub corrected : ℕ → SwitchChannel → SwitchChannel
  unfolding is_relay
  corrected i ch =
      if ltb i 4 && is_relay ch.type && not (ch.gpio_pin == get_or hw.board.default_pins i 0)
      then record ch { gpio_pin = get_or hw.board.default_pins i 0 }
      else ch

  unfoldable pub save_corrected : ℕ → SwitchChannel → S → S
  unfolding is_relay
  save_corrected i ch nvs =
      if ltb i 4 && is_relay ch.type && not (ch.gpio_pin == get_or hw.board.default_pins i 0)
      then p.save_switch i (corrected i ch) nvs
      else nvs

  -- A round of the loop over the stored switches.
  unfoldable pub boot_stored : ℕ → System S → System S
  unfolding drive_safe corrected save_corrected
  boot_stored i s = elim (p.load_switch s.nvs i) [
    | none ↦ s
    | some ch ↦
        (let s' = drive_safe hw (corrected i ch) (record s { nvs = save_corrected i ch s.nvs }) in
          set_state i
            (record (s'.states i) {
              energized = false;
              was_energized = false;
              condition_start_ms = 0;
              condition_active = false;
            })
            s')
  ]

  is_expander_at : S → ℕ → Bool
  unfolding is_expander
  is_expander_at nvs i = elim (p.load_switch nvs i) [ none ↦ false | some ch ↦ is_expander ch.type ]

  has_expander : S → ℕ → ℕ → Bool
  unfolding is_expander_at
  has_expander nvs zero i = false
  has_expander nvs (suc k) i = is_expander_at nvs i || has_expander nvs k (suc i)

  unfoldable pub publish_state : ℕ → System S → System S
  unfolding publish_switch_state
  publish_state i s = publish_switch_state i (s.states i).energized s

  -- The auto-trip flag, and the expander if a stored switch is one of its outputs.
  unfoldable pub prepare : System S → System S
  unfolding has_expander
  prepare s =
      let loaded = record s { auto_enabled = p.load_auto_enabled s.nvs } in
      if has_expander s.nvs (min (p.load_switch_count s.nvs) max_switches) 0
      then record loaded { port = (Expander.init hw.wire pcf8574at_addr s.port).0 }
      else loaded

  -- `count` is read before anything is written.
  unfoldable pub boot_all : ℕ → System S → System S
  unfolding boot_default boot_stored for_range
  boot_all count s =
      if count == 0
      then for_range 4 0 boot_default s
      else for_range (min count max_switches) 0 boot_stored s

  unfoldable pub init_switches : System S → System S
  unfolding prepare boot_all publish_state for_range
  init_switches s = for_range 4 0 publish_state (boot_all (p.load_switch_count s.nvs) (prepare s))
