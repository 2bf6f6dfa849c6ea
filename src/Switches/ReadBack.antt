-- ===== src/Switches/ReadBack.antt =====
-- `get_switch_state` after `switch_set`: what a caller reads back.
use power_monitoring.Base.{ℕ, ◌<◌, ◌≡◌, ◌∙◌, Bool, true, false, not, some, arith, if◌then◌else◌}
use power_monitoring.Settings.{Settings, Retains}
use power_monitoring.Switches.Rule.{SwitchChannel}
use power_monitoring.Switches.Board.{gpio_in_range}
use power_monitoring.Switches.System.{
  max_switches, System, Hardware, is_expander, digital_write, publish_switch_state, set_switch_pin,
  switch_set_channel, switch_set, get_switch_state,
}

module _ {F S : Type 0} (p : Settings F S) (keeps : Retains F S p) (hw : Hardware) (i : ℕ) where
  -- A configured, enabled switch.
  pub record IsConfigured (ch : SwitchChannel) (s : System S) : Type 0 where
    pub in_range : i < max_switches
    pub found : p.load_switch s.nvs i ≡ some ch
    pub is_enabled : ch.enabled ≡ true

  found-switch_set :
      (on : Bool) (ch : SwitchChannel) (s : System S)
      → IsConfigured ch s
      → p.load_switch (switch_set p hw i on s).nvs i ≡ some (record ch { is_energized = on })
  unfolding switch_set switch_set_channel publish_switch_state
  found-switch_set on ch s h = ground (
    arith,
    h,
    keeps.load_switch-save (set_switch_pin hw ch on s).nvs i (record ch { is_energized = on }),
  )

  levels-switch_set :
      (on : Bool) (ch : SwitchChannel) (s : System S)
      → IsConfigured ch s
      → (switch_set p hw i on s).levels ≡ (set_switch_pin hw ch on s).levels
  unfolding switch_set switch_set_channel publish_switch_state
  levels-switch_set on ch s h = ground (arith, h)

  get-levels :
      (ch : SwitchChannel) (s : System S)
      → IsConfigured ch s
      → get_switch_state p hw i s
        ≡ (if ch.active_high then s.levels ch.gpio_pin else not (s.levels ch.gpio_pin))
  unfolding get_switch_state
  get-levels ch s h = ground (arith, h)

  IsConfigured-switch_set :
      (on : Bool) (ch : SwitchChannel) (s : System S)
      → IsConfigured ch s
      → IsConfigured (record ch { is_energized = on }) (switch_set p hw i on s)
  IsConfigured-switch_set on ch s h = record {
    in_range = h.in_range;
    found = found-switch_set on ch s h;
    is_enabled = h.is_enabled;
  }

  -- The state that a caller reads back from an enabled switch on an allowed pin of the board is the
  -- one that was set, whichever level is active.
  pub get-switch_set :
      (on : Bool) (ch : SwitchChannel) (s : System S)
      → IsConfigured ch s
      → is_expander ch.type ≡ false
      → gpio_in_range hw.board ch.gpio_pin ≡ true
      → get_switch_state p hw i (switch_set p hw i on s) ≡ on
  unfolding set_switch_pin digital_write
  get-switch_set on ch s h x r =
      get-levels (record ch { is_energized = on }) (switch_set p hw i on s)
        (IsConfigured-switch_set on ch s h)
      ∙ rw (levels-switch_set on ch s h) (ground (arith, x, r))

  -- For an output of the expander what is read back after it is set is no level of the expander: it is
  -- the level, as it was before, of the pin of the board that has the number of the expander's output,
  -- taken as on when high or when low, whichever level is active.
  pub get-switch_set_expander :
      (on : Bool) (ch : SwitchChannel) (s : System S)
      → IsConfigured ch s
      → is_expander ch.type ≡ true
      → get_switch_state p hw i (switch_set p hw i on s)
        ≡ (if ch.active_high then s.levels ch.gpio_pin else not (s.levels ch.gpio_pin))
  unfolding set_switch_pin
  get-switch_set_expander on ch s h x =
      get-levels (record ch { is_energized = on }) (switch_set p hw i on s)
        (IsConfigured-switch_set on ch s h)
      ∙ rw (levels-switch_set on ch s h) (ground (arith, x))
