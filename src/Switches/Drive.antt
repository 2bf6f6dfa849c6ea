-- ===== src/Switches/Drive.antt =====
-- The pin of a switch follows its runtime flag: the steps of the controller.
use mathlib.Core.Path.{subst}
use native.Mathlib.Decide.{ℕ_discrete}
use power_monitoring.Base.{
  ℕ, ◌≡◌, refl, sym, ap, ◌∙◌, inl, inr, Bool, true, false, not, ◌&&◌, Option, none, some, arith,
  leb, ◌==◌, if◌then◌else◌, Option-cases, if_keeps,
}
use power_monitoring.Floats.{Float}
use power_monitoring.Settings.{Settings, Retains}
use power_monitoring.Switches.Rule.{SwitchChannel, SwitchRule}
use power_monitoring.Switches.Board.{gpio_in_range}
use power_monitoring.Switches.System.{
  SwitchState, max_switches, System, Hardware, digital_write, publish_switch_state, set_state,
  set_switch_pin, has_passed, switch_set_channel, switch_set, end_pulse, force_off,
}
use power_monitoring.Switches.Evaluate.{differs, turn, advance}
use power_monitoring.Switches.Frame.{set_switch_pin-SameButPins}
use power_monitoring.Switches.AutoOff.{drives}

-- Channel `c` of switch `j` drives the pin exactly if the switch is number `i`, and then with this
-- polarity.
pub record Fits (i pin : ℕ) (high : Bool) (j : ℕ) (c : SwitchChannel) : Type 0 where
  pub own : drives pin c ≡ (j == i)
  pub polarity : j ≡ i → c.active_high ≡ high

-- A pin of the board belongs to switch `i` alone, with this polarity.
module _ {F S : Type 0} (p : Settings F S) (i pin : ℕ) (high : Bool) where
  abbrev pub IsWiredTo : S → Type 0
  IsWiredTo nvs = (j : ℕ) (c : SwitchChannel) → p.load_switch nvs j ≡ some c → Fits i pin high j c

module _ {F S : Type 0} ⦃m : Float F⦄ (p : Settings F S) (keeps : Retains F S p) (hw : Hardware)
    (i pin : ℕ) (high : Bool) (allowed : gpio_in_range hw.board pin ≡ true) where
  -- The pin is switch `i`'s alone, and its level is that of the runtime flag.
  pub record IsDriven (s : System S) : Type 0 where
    pub wired : IsWiredTo p i pin high s.nvs
    pub level : s.levels pin ≡ (if high then (s.states i).energized else not (s.states i).energized)

  some_channel : (c d : SwitchChannel) → some c ≡ some d → c ≡ d
  some_channel c d e = ap (λ (o : Option SwitchChannel). elim o [ none ↦ c | some x ↦ x ]) e

  pub IsWiredTo-save :
      (nvs : S) (j : ℕ) (c : SwitchChannel)
      → Fits i pin high j c
      → IsWiredTo p i pin high nvs
      → IsWiredTo p i pin high (p.save_switch j c nvs)
  IsWiredTo-save nvs j c f w k d e = elim (ℕ_discrete j k) [
    | yes here ↦
        let same : c ≡ d = some_channel c d (
          sym (keeps.load_switch-save nvs j c)
          ∙ ap (λ n. p.load_switch (p.save_switch j c nvs) n) here
          ∙ e) in
        subst (λ x. Fits i pin high k x) same (subst (λ n. Fits i pin high n c) here f)
    | no other ↦ w k d (sym (keeps.load_switch-save_ne nvs j k c other) ∙ e)
  ]

  pub IsWiredTo-rule :
      (nvs : S) (j : ℕ) (r : SwitchRule F)
      → IsWiredTo p i pin high nvs
      → IsWiredTo p i pin high (p.save_switch_rule j r nvs)
  IsWiredTo-rule nvs j r w k d e = w k d (sym (keeps.load_switch-save_rule nvs j k r) ∙ e)

  pub IsWiredTo-auto :
      (nvs : S) (on : Bool)
      → IsWiredTo p i pin high nvs
      → IsWiredTo p i pin high (p.save_auto_enabled on nvs)
  IsWiredTo-auto nvs on w k d e = w k d (sym (keeps.load_switch-save_auto nvs on k) ∙ e)

  abbrev level_of : Bool → Bool
  level_of on = if high then on else not on

  levels-set_switch_pin :
      (j : ℕ) (ch : SwitchChannel) (on : Bool) (s : System S)
      → Fits i pin high j ch
      → (set_switch_pin hw ch on s).levels pin ≡ (if j == i then level_of on else s.levels pin)
  unfolding set_switch_pin digital_write
  levels-set_switch_pin j ch on s f = elim (ℕ_discrete j i) [
    | yes here ↦
        let it : ch.gpio_pin ≡ pin = ground (arith, f.own, here) in
        let ok : gpio_in_range hw.board ch.gpio_pin ≡ true =
          ap (gpio_in_range hw.board) it ∙ allowed in
        let up : ch.active_high ≡ high = f.polarity here in ground (arith, f.own, here, it, ok, up)
    | no other ↦ ground (arith, f.own, other)
  ]

  switch_set_channel-IsDriven :
      (j : ℕ) (on : Bool) (ch : SwitchChannel) (s : System S)
      → Fits i pin high j ch
      → IsDriven s
      → IsDriven (switch_set_channel p hw j on ch s)
  unfolding switch_set_channel publish_switch_state
  switch_set_channel-IsDriven j on ch s f h =
      let same = set_switch_pin-SameButPins hw ch on s in
      record {
        wired =
            IsWiredTo-save (set_switch_pin hw ch on s).nvs j (record ch { is_energized = on })
              (record { own = f.own; polarity = f.polarity })
              (subst (IsWiredTo p i pin high) (sym same.nvs) h.wired);
        level =
            levels-set_switch_pin j ch on s f
            ∙ ground (arith, h.level, ap (λ (g : ℕ → SwitchState). g i) same.states);
      }

  pub force_off-IsDriven :
      (j : ℕ) (ch : SwitchChannel) (s : System S)
      → Fits i pin high j ch
      → IsDriven s
      → IsDriven (force_off p hw j ch s)
  unfolding force_off publish_switch_state
  force_off-IsDriven j ch s f h =
      let same = set_switch_pin-SameButPins hw ch false s in
      record {
        wired =
            IsWiredTo-save (set_switch_pin hw ch false s).nvs j (record ch { is_energized = false })
              (record { own = f.own; polarity = f.polarity })
              (subst (IsWiredTo p i pin high) (sym same.nvs) h.wired);
        level =
            levels-set_switch_pin j ch false s f
            ∙ ground (arith, h.level, ap (λ (g : ℕ → SwitchState). g i) same.states);
      }

  pub switch_set-IsDriven :
      (j : ℕ) (on : Bool) (s : System S) → IsDriven s → IsDriven (switch_set p hw j on s)
  unfolding switch_set
  switch_set-IsDriven j on s h = elim (Option-cases (p.load_switch s.nvs j)) [
    | inl e ↦ rw (switch_set, e) (if_keeps IsDriven (leb max_switches j) s s h h)
    | inr (ch, e) ↦
        rw (switch_set, e)
          (if_keeps IsDriven (leb max_switches j) s (switch_set_channel p hw j on ch s) h
            (switch_set_channel-IsDriven j on ch s (h.wired j ch e) h))
  ]

  -- The parts of a switch's state other than the flag may change.
  pub set_state-IsDriven :
      (j : ℕ) (st : SwitchState) (s : System S)
      → st.energized ≡ (s.states j).energized
      → IsDriven s
      → IsDriven (set_state j st s)
  set_state-IsDriven j st s e h = record {
    wired = h.wired;
    level = elim (ℕ_discrete j i) [
      | yes here ↦ ground (arith, here, e, h.level, ap (λ k. (s.states k).energized) here)
      | no other ↦ ground (arith, other, h.level)
    ];
  }

  pub end_pulse-IsDriven :
      (now j : ℕ) (s : System S) → IsDriven s → IsDriven (end_pulse p hw now j s)
  unfolding end_pulse
  end_pulse-IsDriven now j s h =
      let s' = switch_set p hw j false s in
      if_keeps IsDriven ((s.states j).pulse_active && has_passed now (s.states j).pulse_off_at_ms)
        (set_state j (record (s'.states j) { pulse_active = false }) s') s
        (set_state-IsDriven j _ s' refl (switch_set-IsDriven j false s h)) h

  turn-IsDriven :
      (j : ℕ) (on : Bool) (ch : SwitchChannel) (s : System S)
      → Fits i pin high j ch
      → IsDriven s
      → IsDriven (turn hw j on ch s)
  unfolding turn publish_switch_state
  turn-IsDriven j on ch s f h =
      let st = record (s.states j) { energized = on; was_energized = on } in
      let s' = set_state j st s in
      let t = if differs (s.states j).was_energized on then publish_switch_state j on s' else s' in
      let same = set_switch_pin-SameButPins hw ch on t in
      let kept : (t.nvs ≡ s.nvs) × ((t.levels ≡ s.levels) × (t.states ≡ s'.states)) =
        if_keeps
          (λ (u : System S). (u.nvs ≡ s.nvs) × ((u.levels ≡ s.levels) × (u.states ≡ s'.states)))
          (differs (s.states j).was_energized on) (publish_switch_state j on s') s'
          (refl, (refl, refl)) (refl, (refl, refl)) in
      record {
        wired = subst (IsWiredTo p i pin high) (sym (same.nvs ∙ kept.0)) h.wired;
        level =
            levels-set_switch_pin j ch on t f
            ∙ ground (
              arith,
              h.level,
              ap (λ (g : ℕ → Bool). g pin) kept.1.0,
              ap (λ (g : ℕ → SwitchState). g i) (same.states ∙ kept.1.1),
            );
      }

  pub advance-IsDriven :
      (now j : ℕ) (met : Bool) (trip reset : ℕ) (ch : SwitchChannel) (s : System S)
      → Fits i pin high j ch
      → IsDriven s
      → IsDriven (advance hw now j met trip reset ch s)
  unfolding advance
  advance-IsDriven now j met trip reset ch s f h =
      let st = s.states j in
      let began = set_state j (record st { condition_active = true; condition_start_ms = now }) s in
      let ended =
        set_state j (record st { condition_active = false; condition_start_ms = now }) s in
      let on = turn-IsDriven j true ch s f h in
      let off = turn-IsDriven j false ch s f h in
      if_keeps IsDriven met _ _
        (if_keeps IsDriven (not st.condition_active) began _ (set_state-IsDriven j _ s refl h)
          (if_keeps IsDriven _ _ s on h))
        (if_keeps IsDriven st.condition_active ended _ (set_state-IsDriven j _ s refl h)
          (if_keeps IsDriven _ _ s off h))
