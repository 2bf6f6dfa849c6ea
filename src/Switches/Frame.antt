-- ===== src/Switches/Frame.antt =====
-- What a step for one switch leaves alone: the other switches, and the pins that are reserved.
use power_monitoring.Base.{ℕ, ◌≡◌, ap, ◌≢◌, inl, inr, Bool, true, false, List, arith, Option-cases}
use power_monitoring.Floats.{Float}
use power_monitoring.Settings.{Settings, Retains}
use power_monitoring.Switches.Rule.{SwitchChannel, SwitchRule}
use power_monitoring.Switches.Conditions.{Inputs}
use power_monitoring.Switches.System.{
  SwitchState, System, Hardware, publish_switch_state, set_state, set_switch_pin,
  switch_set_channel, switch_set, end_pulse,
}
use power_monitoring.Switches.Evaluate.{turn, advance, persist, run_rule, evaluate_switch}

-- Driving a pin changes nothing but levels and the expander.
pub record SameButPins {S : Type 0} (s s' : System S) : Type 0 where
  pub states : s'.states ≡ s.states
  pub nvs : s'.nvs ≡ s.nvs
  pub published : s'.published ≡ s.published
  pub auto_enabled : s'.auto_enabled ≡ s.auto_enabled

module _ {S : Type 0} (hw : Hardware) where
  pub set_switch_pin-SameButPins :
      (ch : SwitchChannel) (on : Bool) (s : System S) → SameButPins s (set_switch_pin hw ch on s)
  unfolding set_switch_pin
  set_switch_pin-SameButPins ch on s = ground arith

-- Switch `i` has the same state and the same settings.
pub record SameAt {F S : Type 0} (p : Settings F S) (i : ℕ) (s s' : System S) : Type 0 where
  pub state : s'.states i ≡ s.states i
  pub channel : p.load_switch s'.nvs i ≡ p.load_switch s.nvs i
  pub rule : p.load_switch_rule s'.nvs i ≡ p.load_switch_rule s.nvs i

module _ {F S : Type 0} ⦃m : Float F⦄ (p : Settings F S) (keeps : Retains F S p) (hw : Hardware)
    (i j : ℕ) (ne : j ≢ i) where
  switch_set_channel-SameAt :
      (on : Bool) (ch : SwitchChannel) (s : System S)
      → SameAt p i s (switch_set_channel p hw j on ch s)
  unfolding switch_set_channel
  switch_set_channel-SameAt on ch s =
      let f = set_switch_pin-SameButPins hw ch on s in
      ground (
        arith,
        ne,
        ap (λ (g : ℕ → SwitchState). g i) f.states,
        keeps.load_switch-save_ne (set_switch_pin hw ch on s).nvs j i
            (record ch { is_energized = on }) ne,
        keeps.load_rule-save_switch (set_switch_pin hw ch on s).nvs j i
            (record ch { is_energized = on }),
        ap (λ t. p.load_switch t i) f.nvs,
        ap (λ t. p.load_switch_rule t i) f.nvs,
      )

  switch_set-SameAt : (on : Bool) (s : System S) → SameAt p i s (switch_set p hw j on s)
  unfolding switch_set
  switch_set-SameAt on s = elim (Option-cases (p.load_switch s.nvs j)) [
    | inl e ↦ ground (arith, e)
    | inr (ch, e) ↦ ground (arith, e, switch_set_channel-SameAt on ch s)
  ]

  set_state-SameAt :
      (st : SwitchState) (s s' : System S) → SameAt p i s s' → SameAt p i s (set_state j st s')
  set_state-SameAt st s s' h = ground (arith, h, ne)

  pub end_pulse-SameAt : (now : ℕ) (s : System S) → SameAt p i s (end_pulse p hw now j s)
  unfolding end_pulse
  end_pulse-SameAt now s =
      let s' = switch_set p hw j false s in
      ground (
        arith,
        set_state-SameAt (record (s'.states j) { pulse_active = false }) s s'
            (switch_set-SameAt false s),
      )

  turn-SameAt : (on : Bool) (ch : SwitchChannel) (s : System S) → SameAt p i s (turn hw j on ch s)
  unfolding turn publish_switch_state
  turn-SameAt on ch s =
      let st = record (s.states j) { energized = on; was_energized = on } in
      let s' = set_state j st s in
      let quiet = set_switch_pin-SameButPins hw ch on s' in
      let loud = set_switch_pin-SameButPins hw ch on (publish_switch_state j on s') in
      ground (
        arith,
        ne,
        ap (λ (g : ℕ → SwitchState). g i) quiet.states,
        ap (λ (g : ℕ → SwitchState). g i) loud.states,
        ap (λ t. p.load_switch t i) quiet.nvs,
        ap (λ t. p.load_switch_rule t i) quiet.nvs,
        ap (λ t. p.load_switch t i) loud.nvs,
        ap (λ t. p.load_switch_rule t i) loud.nvs,
      )

  advance-SameAt :
      (now : ℕ) (met : Bool) (trip reset : ℕ) (ch : SwitchChannel) (s : System S)
      → SameAt p i s (advance hw now j met trip reset ch s)
  unfolding advance
  advance-SameAt now met trip reset ch s =
      ground (arith, ne, turn-SameAt true ch s, turn-SameAt false ch s)

  persist-SameAt :
      (ch : SwitchChannel) (rule : SwitchRule F) (latches : List Bool) (s s' : System S)
      → SameAt p i s s'
      → SameAt p i s (persist p j ch rule latches s')
  unfolding persist
  persist-SameAt ch rule latches s s' h =
      let rule' = record rule { condition_latched = latches } in
      let ch' = record ch { is_energized = (s'.states j).energized } in
      ground (
        arith,
        h,
        keeps.load_switch-save_ne s'.nvs j i ch' ne,
        keeps.load_rule-save_switch s'.nvs j i ch',
        keeps.load_switch-save_rule s'.nvs j i rule',
        keeps.load_rule-save_ne s'.nvs j i rule' ne,
        keeps.load_switch-save_rule (p.save_switch j ch' s'.nvs) j i rule',
        keeps.load_rule-save_ne (p.save_switch j ch' s'.nvs) j i rule' ne,
      )

  run_rule-SameAt :
      (inp : Inputs F) (now : ℕ) (ch : SwitchChannel) (rule : SwitchRule F) (s : System S)
      → SameAt p i s (run_rule p hw inp now j ch rule s)
  unfolding run_rule
  run_rule-SameAt inp now ch rule s = persist-SameAt ch rule _ s _ (advance-SameAt now _ _ _ ch s)

  pub evaluate_switch-SameAt :
      (inp : Inputs F) (now : ℕ) (s : System S) → SameAt p i s (evaluate_switch p hw inp now j s)
  unfolding evaluate_switch
  evaluate_switch-SameAt inp now s = elim (Option-cases (p.load_switch s.nvs j)) [
    | inl e ↦ ground (arith, e)
    | inr (ch, e) ↦ elim (Option-cases (p.load_switch_rule s.nvs j)) [
      | inl e' ↦ ground (arith, e, e')
      | inr (rule, e') ↦ ground (arith, e, e', run_rule-SameAt inp now ch rule s)
    ]
  ]
