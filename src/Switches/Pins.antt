-- ===== src/Switches/Pins.antt =====
-- The pins of the board: reserved ones are never driven, and a switch drives its own pin.
use Prim.Native.Nat.{min}
use power_monitoring.Base.{
  ℕ, ◌≡◌, refl, ap, ◌≢◌, inl, inr, Bool, true, false, List, [], ◌∷◌, arith, Bool-cases,
  Option-cases, for_range-keeps,
}
use power_monitoring.Floats.{Float}
use power_monitoring.Settings.{Settings}
use power_monitoring.Switches.Rule.{SwitchChannel, SwitchRule, default_rule}
use power_monitoring.Switches.Board.{gpio_in_range}
use power_monitoring.Switches.Conditions.{Inputs}
use power_monitoring.Switches.System.{
  max_switches, System, Hardware, digital_write, publish_switch_state, set_switch_pin,
  switch_set_channel, switch_set, switch_pulse, end_pulse, switch_pulse_tick, force_off,
  force_reset, switch_set_auto,
}
use power_monitoring.Switches.Evaluate.{
  turn, advance, persist, run_rule, evaluate_switch, evaluate_switches,
}
use power_monitoring.Switches.Boot.{
  drive_off, drive_safe, default_channel, boot_default, corrected, save_corrected, boot_stored,
  publish_state, prepare, boot_all, init_switches,
}

-- The calls that reach the controller.
pub data Operation (F : Type 0) : Type 0 where
  tick : ℕ → Inputs F → Operation F
  set : ℕ → Bool → Operation F
  pulse : ℕ → ℕ → ℕ → Operation F
  auto : Bool → Operation F
  boot : Operation F

module _ {F S : Type 0} ⦃m : Float F⦄ (p : Settings F S) (hw : Hardware) where
  abbrev pub perform : Operation F → System S → System S
  perform (tick now inp) s = evaluate_switches p hw inp now s
  perform (set idx on) s = switch_set p hw idx on s
  perform (pulse now idx duration) s = switch_pulse p hw now idx duration s
  perform (auto on) s = switch_set_auto p hw on s
  perform boot s = init_switches p hw s

  abbrev pub perform_all : List (Operation F) → System S → System S
  perform_all [] s = s
  perform_all (op ∷ ops) s = perform_all ops (perform op s)

module _ {F S : Type 0} ⦃m : Float F⦄ (p : Settings F S) (hw : Hardware) (pin : ℕ)
    (reserved : gpio_in_range hw.board pin ≡ false) (level mode : Bool) where
  -- The pin is at this level, and an output or not as given.
  abbrev Holds : System S → Type 0
  Holds s = (s.levels pin ≡ level) × (s.pin_modes pin ≡ mode)

  not_reserved : (q : ℕ) → gpio_in_range hw.board q ≡ true → q ≢ pin
  not_reserved q h e = ground (arith, h, reserved, ap (gpio_in_range hw.board) e)

  set_switch_pin-Holds :
      (ch : SwitchChannel) (on : Bool) (s : System S) → Holds s → Holds (set_switch_pin hw ch on s)
  unfolding set_switch_pin digital_write
  set_switch_pin-Holds ch on s h = ground (arith, h, not_reserved ch.gpio_pin)

  switch_set_channel-Holds :
      (i : ℕ) (on : Bool) (ch : SwitchChannel) (s : System S)
      → Holds s
      → Holds (switch_set_channel p hw i on ch s)
  unfolding switch_set_channel publish_switch_state
  switch_set_channel-Holds i on ch s h = set_switch_pin-Holds ch on s h

  switch_set-Holds : (i : ℕ) (on : Bool) (s : System S) → Holds s → Holds (switch_set p hw i on s)
  unfolding switch_set
  switch_set-Holds i on s h = elim (Option-cases (p.load_switch s.nvs i)) [
    | inl e ↦ ground (arith, e, h)
    | inr (ch, e) ↦ ground (arith, e, h, switch_set_channel-Holds i on ch s h)
  ]

  end_pulse-Holds : (now i : ℕ) (s : System S) → Holds s → Holds (end_pulse p hw now i s)
  unfolding end_pulse
  end_pulse-Holds now i s h = ground (arith, h, switch_set-Holds i false s h)

  force_reset-Holds : (i : ℕ) (s : System S) → Holds s → Holds (force_reset p hw i s)
  unfolding force_reset force_off publish_switch_state
  force_reset-Holds i s h = elim (Option-cases (p.load_switch s.nvs i)) [
    | inl e ↦ ground (arith, e, h)
    | inr (ch, e) ↦ elim (Option-cases (p.load_switch_rule s.nvs i)) [
      | inl e' ↦ ground (arith, e, e', h)
      | inr (rule, e') ↦ ground (arith, e, e', h, set_switch_pin-Holds ch false s h)
    ]
  ]

  turn-Holds :
      (i : ℕ) (on : Bool) (ch : SwitchChannel) (s : System S) → Holds s → Holds (turn hw i on ch s)
  unfolding turn publish_switch_state
  turn-Holds i on ch s h = set_switch_pin-Holds ch on _ (ground (arith, h))

  advance-Holds :
      (now i : ℕ) (met : Bool) (trip reset : ℕ) (ch : SwitchChannel) (s : System S)
      → Holds s
      → Holds (advance hw now i met trip reset ch s)
  unfolding advance
  advance-Holds now i met trip reset ch s h =
      ground (arith, h, turn-Holds i true ch s h, turn-Holds i false ch s h)

  run_rule-Holds :
      (inp : Inputs F) (now i : ℕ) (ch : SwitchChannel) (rule : SwitchRule F) (s : System S)
      → Holds s
      → Holds (run_rule p hw inp now i ch rule s)
  unfolding run_rule persist
  run_rule-Holds inp now i ch rule s h = advance-Holds now i _ _ _ ch s h

  evaluate_switch-Holds :
      (inp : Inputs F) (now i : ℕ) (s : System S)
      → Holds s
      → Holds (evaluate_switch p hw inp now i s)
  unfolding evaluate_switch
  evaluate_switch-Holds inp now i s h = elim (Option-cases (p.load_switch s.nvs i)) [
    | inl e ↦ ground (arith, e, h)
    | inr (ch, e) ↦ elim (Option-cases (p.load_switch_rule s.nvs i)) [
      | inl e' ↦ ground (arith, e, e', h)
      | inr (rule, e') ↦ ground (arith, e, e', h, run_rule-Holds inp now i ch rule s h)
    ]
  ]

  drive_off-Holds : (ch : SwitchChannel) (s : System S) → Holds s → Holds (drive_off hw ch s)
  unfolding drive_off
  drive_off-Holds ch s h = ground (arith, h, not_reserved ch.gpio_pin)

  boot_default-Holds : (i : ℕ) (s : System S) → Holds s → Holds (boot_default p hw i s)
  unfolding boot_default
  boot_default-Holds i s h =
      let ch = default_channel p hw i in
      let nvs = p.save_switch_rule i (default_rule i i) (p.save_switch i ch s.nvs) in
      drive_off-Holds ch (record s { nvs = nvs }) h

  drive_safe-Holds : (ch : SwitchChannel) (s : System S) → Holds s → Holds (drive_safe hw ch s)
  unfolding drive_safe
  drive_safe-Holds ch s h = ground (arith, h, drive_off-Holds ch s h)

  boot_stored-Holds : (i : ℕ) (s : System S) → Holds s → Holds (boot_stored p hw i s)
  unfolding boot_stored
  boot_stored-Holds i s h = elim (Option-cases (p.load_switch s.nvs i)) [
    | inl e ↦ ground (arith, e, h)
    | inr (ch, e) ↦ ground (
      arith,
      e,
      drive_safe-Holds (corrected p hw i ch) (record s { nvs = save_corrected p hw i ch s.nvs }) h,
    )
  ]

  prepare-Holds : (s : System S) → Holds s → Holds (prepare p hw s)
  unfolding prepare
  prepare-Holds s h = ground (arith, h)

  boot_all-Holds : (count : ℕ) (s : System S) → Holds s → Holds (boot_all p hw count s)
  unfolding boot_all
  boot_all-Holds count s h = ground (
    arith,
    for_range-keeps Holds (boot_default p hw) boot_default-Holds 4 0 s h,
    for_range-keeps Holds (boot_stored p hw) boot_stored-Holds (min count max_switches) 0 s h,
  )

  init_switches-Holds : (s : System S) → Holds s → Holds (init_switches p hw s)
  unfolding init_switches publish_state publish_switch_state
  init_switches-Holds s h =
      for_range-keeps Holds (publish_state p hw) (λ i t q. q) 4 0
        (boot_all p hw (p.load_switch_count s.nvs) (prepare p hw s))
        (boot_all-Holds (p.load_switch_count s.nvs) (prepare p hw s) (prepare-Holds s h))

  switch_pulse_tick-Holds :
      (now : ℕ) (s : System S) → Holds s → Holds (switch_pulse_tick p hw now s)
  unfolding switch_pulse_tick
  switch_pulse_tick-Holds now s h =
      for_range-keeps Holds (end_pulse p hw now) (end_pulse-Holds now) max_switches 0 s h

  evaluate_switches-Holds :
      (inp : Inputs F) (now : ℕ) (s : System S) → Holds s → Holds (evaluate_switches p hw inp now s)
  unfolding evaluate_switches
  evaluate_switches-Holds inp now s h =
      elim (Bool-cases (switch_pulse_tick p hw now s).auto_enabled) [
        | inl on ↦ rw on (
            for_range-keeps Holds (evaluate_switch p hw inp now) (evaluate_switch-Holds inp now)
              (min (p.load_switch_count (switch_pulse_tick p hw now s).nvs) max_switches) 0
              (switch_pulse_tick p hw now s) (switch_pulse_tick-Holds now s h))
        | inr off ↦ rw off (switch_pulse_tick-Holds now s h)
      ]

  switch_set_auto-Holds : (on : Bool) (s : System S) → Holds s → Holds (switch_set_auto p hw on s)
  unfolding switch_set_auto
  switch_set_auto-Holds on s h =
      let t = record s { auto_enabled = on; nvs = p.save_auto_enabled on s.nvs } in
      ground (
        arith,
        h,
        for_range-keeps Holds (force_reset p hw) force_reset-Holds
            (min (p.load_switch_count t.nvs) max_switches) 0 t h,
      )

  switch_pulse-Holds : (now i d : ℕ) (s : System S) → Holds s → Holds (switch_pulse p hw now i d s)
  unfolding switch_pulse
  switch_pulse-Holds now i d s h = elim (Option-cases (p.load_switch s.nvs i)) [
    | inl e ↦ ground (arith, e, h)
    | inr (ch, e) ↦ ground (arith, e, h, switch_set-Holds i true s h)
  ]

  perform-Holds : (op : Operation F) (s : System S) → Holds s → Holds (perform p hw op s)
  perform-Holds (tick now inp) s h = evaluate_switches-Holds inp now s h
  perform-Holds (set i on) s h = switch_set-Holds i on s h
  perform-Holds (pulse now i d) s h = switch_pulse-Holds now i d s h
  perform-Holds (auto on) s h = switch_set_auto-Holds on s h
  perform-Holds boot s h = init_switches-Holds s h

  perform_all-Holds :
      (ops : List (Operation F)) (s : System S) → Holds s → Holds (perform_all p hw ops s)
  perform_all-Holds [] s h = h
  perform_all-Holds (op ∷ ops) s h =
      perform_all-Holds ops (perform p hw op s) (perform-Holds op s h)

-- No calls of the controller, in any order, change the level or the mode of a pin that the board
-- reserves, whatever the settings say.
pub perform_all-reserved :
    {F S : Type 0} ⦃m : Float F⦄ (p : Settings F S) (hw : Hardware) (pin : ℕ)
    (ops : List (Operation F)) (s : System S)
    → gpio_in_range hw.board pin ≡ false
    → let s' = perform_all p hw ops s in
      (s'.levels pin ≡ s.levels pin) × (s'.pin_modes pin ≡ s.pin_modes pin)
perform_all-reserved p hw pin ops s reserved =
    perform_all-Holds p hw pin reserved (s.levels pin) (s.pin_modes pin) ops s (refl, refl)
