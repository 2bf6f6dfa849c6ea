-- ===== src/Switches/AutoOff.antt =====
-- Auto-trip switched off: no switch on a pin of the board that has a rule stays driven on.
use Prim.Native.Nat.{min}
use native.Mathlib.Decide.{ℕ_discrete}
use power_monitoring.Base.{
  ℕ, ◌<◌, ◌≡◌, refl, sym, ap, ◌∙◌, ◌≢◌, Bool, true, false, not, ◌&&◌, some, arith, ◌==◌,
  if◌then◌else◌, for_range-once,
}
use power_monitoring.Settings.{Settings, Retains}
use power_monitoring.Switches.Rule.{SwitchChannel}
use power_monitoring.Switches.Board.{gpio_in_range}
use power_monitoring.Switches.System.{
  max_switches, System, Hardware, is_expander, digital_write, publish_switch_state, set_switch_pin,
  force_off, force_reset, switch_set_auto,
}
use power_monitoring.Switches.Frame.{set_switch_pin-SameButPins, SameAt}
use power_monitoring.Switches.ForceReset.{
  IsRuled, force_reset-SameAt, IsRuled-SameAt, force_reset-keeps, force_reset-off,
  energized-switch_set_auto,
}

-- The channel drives the pin of the board with this number.
abbrev pub drives : ℕ → SwitchChannel → Bool
drives pin ch = not (is_expander ch.type) && ch.gpio_pin == pin

module _ {F S : Type 0} (p : Settings F S) (keeps : Retains F S p) (hw : Hardware) (i : ℕ)
    (ch : SwitchChannel) where
  -- No other stored switch drives the pin of channel `ch`.
  abbrev pub IsAlone : System S → Type 0
  IsAlone s =
      (j : ℕ) (c : SwitchChannel)
      → j ≢ i
      → p.load_switch s.nvs j ≡ some c
      → drives ch.gpio_pin c ≡ false

  -- Switch `i` has this channel, its pin alone, and the pin's level is that of its runtime flag.
  pub record IsWired (s : System S) : Type 0 where
    pub found : p.load_switch s.nvs i ≡ some ch
    pub level :
        s.levels ch.gpio_pin
        ≡ (if ch.active_high then (s.states i).energized else not (s.states i).energized)
    pub alone : IsAlone s

  -- Switched off, in the runtime flag and at the pin.
  record IsDown (s : System S) : Type 0 where
    flag : (s.states i).energized ≡ false
    low : s.levels ch.gpio_pin ≡ not ch.active_high
    alone : IsAlone s

  IsAlone-save :
      (j : ℕ) (c : SwitchChannel) (s : System S)
      → p.load_switch s.nvs j ≡ some c
      → IsAlone s
      → IsAlone (force_off p hw j c s)
  unfolding force_off publish_switch_state
  IsAlone-save j c s e h k d ne found =
      let nvs = ap (λ t. p.load_switch t k) (set_switch_pin-SameButPins hw c false s).nvs in
      let at = set_switch_pin hw c false s in
      elim (ℕ_discrete j k) [
        | yes here ↦ ground (
          arith,
          here,
          ne,
          found,
          e,
          h j c,
          keeps.load_switch-save at.nvs j (record c { is_energized = false }),
        )
        | no other ↦ h k d ne (
            sym nvs
            ∙ sym (keeps.load_switch-save_ne at.nvs j k (record c { is_energized = false }) other)
            ∙ found)
      ]

  levels-force_off :
      (j : ℕ) (c : SwitchChannel) (s : System S)
      → drives ch.gpio_pin c ≡ false
      → (force_off p hw j c s).levels ch.gpio_pin ≡ s.levels ch.gpio_pin
  unfolding force_off publish_switch_state set_switch_pin digital_write
  levels-force_off j c s h = ground (arith, h)

  levels-force_reset :
      (j : ℕ) (s : System S)
      → j ≢ i
      → IsAlone s
      → (force_reset p hw j s).levels ch.gpio_pin ≡ s.levels ch.gpio_pin
  levels-force_reset j s ne h =
      force_reset-keeps p keeps hw (λ u. u.levels ch.gpio_pin ≡ s.levels ch.gpio_pin) j s refl
        (λ c e. levels-force_off j c s (h j c ne e))

  IsAlone-force_reset : (j : ℕ) (s : System S) → IsAlone s → IsAlone (force_reset p hw j s)
  IsAlone-force_reset j s h =
      force_reset-keeps p keeps hw IsAlone j s h (λ c e. IsAlone-save j c s e h)

  round-IsWired : (j : ℕ) (s : System S) → j ≢ i → IsWired s → IsWired (force_reset p hw j s)
  round-IsWired j s ne h =
      let same = force_reset-SameAt p keeps hw i j s ne in
      let flag = ap (λ st. st.energized) same.state in
      record {
        found = same.channel ∙ h.found;
        level = rw flag (levels-force_reset j s ne h.alone ∙ h.level);
        alone = IsAlone-force_reset j s h.alone;
      }

  round-IsDown : (j : ℕ) (s : System S) → j ≢ i → IsDown s → IsDown (force_reset p hw j s)
  round-IsDown j s ne h = record {
    flag = ap (λ st. st.energized) (force_reset-SameAt p keeps hw i j s ne).state ∙ h.flag;
    low = levels-force_reset j s ne h.alone ∙ h.low;
    alone = IsAlone-force_reset j s h.alone;
  }

  low-force_off :
      (board : is_expander ch.type ≡ false) (allowed : gpio_in_range hw.board ch.gpio_pin ≡ true)
      (s : System S)
      → (force_off p hw i ch s).levels ch.gpio_pin ≡ not ch.active_high
  unfolding force_off publish_switch_state set_switch_pin digital_write
  low-force_off board allowed s = ground (arith, board, allowed)

  low-force_reset :
      (board : is_expander ch.type ≡ false) (allowed : gpio_in_range hw.board ch.gpio_pin ≡ true)
      (s : System S)
      → IsRuled p keeps hw i s
      → IsWired s
      → (force_reset p hw i s).levels ch.gpio_pin ≡ not ch.active_high
  unfolding force_reset
  low-force_reset board allowed s r h =
      rw (force_reset, h.found, r.rule_found, r.rule_enabled)
        (ground (arith, h.level, low-force_off board allowed s))

  -- Take a switch within the stored count, on an allowed pin of the board that no other stored switch
  -- drives, with an enabled rule and its pin at the level of its runtime flag. After auto-trip is
  -- switched off, the flag of auto-trip is off, the switch's runtime flag is off, and its pin is at the
  -- inactive level.
  pub switch_set_auto-off :
      (s : System S)
      → i < max_switches
      → i < p.load_switch_count s.nvs
      → is_expander ch.type ≡ false
      → gpio_in_range hw.board ch.gpio_pin ≡ true
      → IsRuled p keeps hw i s
      → IsWired s
      → let s' = switch_set_auto p hw false s in
        (s'.auto_enabled ≡ false)
        × (((s'.states i).energized ≡ false) × (s'.levels ch.gpio_pin ≡ not ch.active_high))
  unfolding switch_set_auto
  switch_set_auto-off s b c board allowed r h =
      let t = record s { auto_enabled = false; nvs = p.save_auto_enabled false s.nvs } in
      let k = min (p.load_switch_count t.nvs) max_switches in
      let same : SameAt p i s t = record {
        state = refl;
        channel = keeps.load_switch-save_auto s.nvs false i;
        rule = keeps.load_rule-save_auto s.nvs false i;
      } in
      let wired : IsWired t = record {
        found = same.channel ∙ h.found;
        level = h.level;
        alone = λ j d ne e. h.alone j d ne (sym (keeps.load_switch-save_auto s.nvs false j) ∙ e);
      } in
      let flags = energized-switch_set_auto p keeps hw i s b c r in
      let down =
        for_range-once (λ u. IsRuled p keeps hw i u × IsWired u) IsDown (force_reset p hw) i
          (λ j u ne q. (
            IsRuled-SameAt p keeps hw i u _ (force_reset-SameAt p keeps hw i j u ne) q.0,
            round-IsWired j u ne q.1,
          ))
          round-IsDown
          (λ u q. record {
            flag = force_reset-off p keeps hw i u q.0;
            low = low-force_reset board allowed u q.0 q.1;
            alone = IsAlone-force_reset i u q.1.alone;
          })
          k 0 t (omega arith) (omega (arith, c, keeps.load_count-save_auto s.nvs false))
          (IsRuled-SameAt p keeps hw i s t same r, wired) in
      (flags.1, (down.flag, down.low))
