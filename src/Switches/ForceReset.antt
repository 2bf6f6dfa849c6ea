-- ===== src/Switches/ForceReset.antt =====
-- Auto-trip switched off: what the rounds of its loop keep, and the flags of the switches after it.
use Prim.Native.Nat.{min}
use power_monitoring.Base.{
  ℕ, ◌<◌, ◌≡◌, refl, ap, ◌∙◌, ◌≢◌, inl, inr, true, false, not, ◌||◌, some, arith, Option-cases,
  if_keeps, for_range-keeps, for_range-once,
}
use power_monitoring.Settings.{Settings, Retains}
use power_monitoring.Switches.Rule.{SwitchChannel, SwitchRule}
use power_monitoring.Switches.System.{
  SwitchState, max_switches, System, Hardware, publish_switch_state, set_switch_pin, force_off,
  force_reset, switch_set_auto,
}
use power_monitoring.Switches.Frame.{set_switch_pin-SameButPins, SameAt}

module _ {F S : Type 0} (p : Settings F S) (keeps : Retains F S p) (hw : Hardware) where
  -- A switch of which the channel and an enabled rule are stored.
  pub record IsRuled (i : ℕ) (s : System S) : Type 0 where
    pub channel : SwitchChannel
    pub rule : SwitchRule F
    pub channel_found : p.load_switch s.nvs i ≡ some channel
    pub rule_found : p.load_switch_rule s.nvs i ≡ some rule
    pub rule_enabled : rule.enabled ≡ true

  force_off-SameAt :
      (i j : ℕ) (ne : j ≢ i) (ch : SwitchChannel) (s : System S)
      → SameAt p i s (force_off p hw j ch s)
  unfolding force_off publish_switch_state
  force_off-SameAt i j ne ch s =
      let f = set_switch_pin-SameButPins hw ch false s in
      let ch' = record ch { is_energized = false } in
      ground (
        arith,
        ne,
        ap (λ (g : ℕ → SwitchState). g i) f.states,
        keeps.load_switch-save_ne (set_switch_pin hw ch false s).nvs j i ch' ne,
        keeps.load_rule-save_switch (set_switch_pin hw ch false s).nvs j i ch',
        ap (λ t. p.load_switch t i) f.nvs,
        ap (λ t. p.load_switch_rule t i) f.nvs,
      )

  pub force_reset-SameAt : (i j : ℕ) (s : System S) → j ≢ i → SameAt p i s (force_reset p hw j s)
  unfolding force_reset
  force_reset-SameAt i j s ne = elim (Option-cases (p.load_switch s.nvs j)) [
    | inl e ↦ ground (arith, e)
    | inr (ch, e) ↦ elim (Option-cases (p.load_switch_rule s.nvs j)) [
      | inl e' ↦ ground (arith, e, e')
      | inr (rule, e') ↦ ground (arith, e, e', force_off-SameAt i j ne ch s)
    ]
  ]

  pub IsRuled-SameAt : (i : ℕ) (s s' : System S) → SameAt p i s s' → IsRuled i s → IsRuled i s'
  IsRuled-SameAt i s s' f h = record {
    channel = h.channel;
    rule = h.rule;
    channel_found = f.channel ∙ h.channel_found;
    rule_found = f.rule ∙ h.rule_found;
    rule_enabled = h.rule_enabled;
  }

  -- What a round keeps, from whether it keeps it where it switches off.
  pub force_reset-keeps :
      (P : System S → Type 0) (j : ℕ) (s : System S)
      → P s
      → ((ch : SwitchChannel) → p.load_switch s.nvs j ≡ some ch → P (force_off p hw j ch s))
      → P (force_reset p hw j s)
  unfolding force_reset
  force_reset-keeps P j s h off = elim (Option-cases (p.load_switch s.nvs j)) [
    | inl e ↦ rw (force_reset, e) h
    | inr (ch, e) ↦ elim (Option-cases (p.load_switch_rule s.nvs j)) [
      | inl e' ↦ rw (force_reset, e, e') h
      | inr (rule, e') ↦
          rw (force_reset, e, e')
            (if_keeps P (not rule.enabled || not (s.states j).energized) s (force_off p hw j ch s) h
              (off ch e))
    ]
  ]

  pub force_reset-off :
      (i : ℕ) (s : System S) → IsRuled i s → ((force_reset p hw i s).states i).energized ≡ false
  unfolding force_reset force_off publish_switch_state
  force_reset-off i s h = ground (arith, h.channel_found, h.rule_found, h.rule_enabled)

  auto-force_reset :
      (j : ℕ) (s : System S) → s.auto_enabled ≡ false → (force_reset p hw j s).auto_enabled ≡ false
  unfolding force_reset force_off publish_switch_state
  auto-force_reset j s h = elim (Option-cases (p.load_switch s.nvs j)) [
    | inl e ↦ ground (arith, e)
    | inr (ch, e) ↦ elim (Option-cases (p.load_switch_rule s.nvs j)) [
      | inl e' ↦ ground (arith, e, e')
      | inr (rule, e') ↦
          ground (arith, e, e', (set_switch_pin-SameButPins hw ch false s).auto_enabled)
    ]
  ]

  -- After auto-trip is switched off, the flag is off, and so is every switch within the stored count
  -- that has a stored channel and an enabled rule.
  pub energized-switch_set_auto :
      (i : ℕ) (s : System S)
      → i < max_switches
      → i < p.load_switch_count s.nvs
      → IsRuled i s
      → let s' = switch_set_auto p hw false s in
        ((s'.states i).energized ≡ false) × (s'.auto_enabled ≡ false)
  unfolding switch_set_auto
  energized-switch_set_auto i s b c h =
      let t = record s { auto_enabled = false; nvs = p.save_auto_enabled false s.nvs } in
      let k = min (p.load_switch_count t.nvs) max_switches in
      let same : SameAt p i s t = record {
        state = refl;
        channel = keeps.load_switch-save_auto s.nvs false i;
        rule = keeps.load_rule-save_auto s.nvs false i;
      } in
      (
        for_range-once (IsRuled i) (λ u. (u.states i).energized ≡ false) (force_reset p hw) i
            (λ j u ne. IsRuled-SameAt i u _ (force_reset-SameAt i j u ne))
            (λ j u ne q. ap (λ st. st.energized) (force_reset-SameAt i j u ne).state ∙ q)
            (force_reset-off i) k 0 t (omega arith)
            (omega (arith, keeps.load_count-save_auto s.nvs false)) (IsRuled-SameAt i s t same h),
        for_range-keeps (λ u. u.auto_enabled ≡ false) (force_reset p hw) auto-force_reset k 0 t
            refl,
      )
