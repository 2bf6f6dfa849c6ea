-- ===== src/Switches/Driven.antt =====
-- The pin of a switch follows its runtime flag, through everything that the controller does after boot.
use Prim.Native.Nat.{min}
use power_monitoring.Base.{
  ℕ, ◌+◌, ◌≡◌, refl, inl, inr, Bool, true, not, ◌||◌, List, [], ◌∷◌, leb, if◌then◌else◌,
  Option-cases, All, u32, if_keeps, for_range, for_range-keeps,
}
use power_monitoring.Floats.{Float}
use power_monitoring.Settings.{Settings, Retains}
use power_monitoring.Switches.Rule.{SwitchChannel, SwitchRule}
use power_monitoring.Switches.Board.{gpio_in_range}
use power_monitoring.Switches.Conditions.{Inputs}
use power_monitoring.Switches.System.{
  max_switches, System, Hardware, set_state, switch_set, switch_pulse, end_pulse, switch_pulse_tick,
  force_reset, switch_set_auto,
}
use power_monitoring.Switches.Evaluate.{
  same_latches, differs, persist, run_rule, evaluate_switch, evaluate_switches,
}
use power_monitoring.Switches.Pins.{Operation, tick, pulse, auto, boot, perform, perform_all}
use power_monitoring.Switches.ForceReset.{force_reset-keeps}
use power_monitoring.Switches.Drive.{
  Fits, IsWiredTo, IsDriven, IsWiredTo-save, IsWiredTo-rule, IsWiredTo-auto, force_off-IsDriven,
  switch_set-IsDriven, set_state-IsDriven, end_pulse-IsDriven, advance-IsDriven,
}

-- The calls after boot.
abbrev pub IsRunning : {F : Type 0} → Operation F → Type 0
IsRunning boot = ⊥
IsRunning (tick now inp) = Unit
IsRunning (Operation.set idx on) = Unit
IsRunning (pulse now idx duration) = Unit
IsRunning (auto on) = Unit

module _ {F S : Type 0} ⦃m : Float F⦄ (p : Settings F S) (keeps : Retains F S p) (hw : Hardware)
    (i pin : ℕ) (high : Bool) (allowed : gpio_in_range hw.board pin ≡ true) where
  abbrev Driven : System S → Type 0
  Driven = IsDriven p keeps hw i pin high allowed

  persist-Driven :
      (j : ℕ) (ch : SwitchChannel) (rule : SwitchRule F) (latches : List Bool) (s : System S)
      → Fits i pin high j ch
      → Driven s
      → Driven (persist p j ch rule latches s)
  unfolding persist
  persist-Driven j ch rule latches s f h =
      let P : S → Type 0 = IsWiredTo p i pin high in
      let on = (s.states j).energized in
      let saved = p.save_switch j (record ch { is_energized = on }) s.nvs in
      let nvs = if differs ch.is_energized on then saved else s.nvs in
      let w =
        if_keeps P (differs ch.is_energized on) saved s.nvs
          (IsWiredTo-save p keeps hw i pin high allowed s.nvs j (record ch { is_energized = on })
            (record { own = f.own; polarity = f.polarity }) h.wired)
          h.wired in
      record {
        wired =
            if_keeps P (same_latches rule.condition_latched latches) nvs
              (p.save_switch_rule j (record rule { condition_latched = latches }) nvs) w
              (IsWiredTo-rule p keeps hw i pin high allowed nvs j
                (record rule { condition_latched = latches }) w);
        level = h.level;
      }

  evaluate_switch-Driven :
      (inp : Inputs F) (now j : ℕ) (s : System S)
      → Driven s
      → Driven (evaluate_switch p hw inp now j s)
  unfolding evaluate_switch run_rule
  evaluate_switch-Driven inp now j s h = elim (Option-cases (p.load_switch s.nvs j)) [
    | inl e ↦ rw (evaluate_switch, e) (if_keeps Driven (s.states j).pulse_active s s h h)
    | inr (ch, e) ↦ elim (Option-cases (p.load_switch_rule s.nvs j)) [
      | inl e' ↦
          rw (evaluate_switch, e, e')
            (if_keeps Driven (s.states j).pulse_active s _ h
              (if_keeps Driven (not ch.enabled) s s h h))
      | inr (rule, e') ↦
          let f = h.wired j ch e in
          rw (evaluate_switch, e, e')
            (if_keeps Driven (s.states j).pulse_active s _ h (
              if_keeps Driven (not ch.enabled) s _ h (
                if_keeps Driven
                  (not rule.enabled || leb inp.snapshot.total_logical_channels rule.channel) s
                  (run_rule p hw inp now j ch rule s) h
                  (persist-Driven j ch rule _ _ f (
                    advance-IsDriven p keeps hw i pin high allowed now j _ rule.trip_delay_ms
                      rule.reset_delay_ms ch s f h)))))
    ]
  ]

  switch_pulse_tick-Driven :
      (now : ℕ) (s : System S) → Driven s → Driven (switch_pulse_tick p hw now s)
  unfolding switch_pulse_tick
  switch_pulse_tick-Driven now s h =
      for_range-keeps Driven (end_pulse p hw now)
        (end_pulse-IsDriven p keeps hw i pin high allowed now) max_switches 0 s h

  evaluate_switches-Driven :
      (inp : Inputs F) (now : ℕ) (s : System S)
      → Driven s
      → Driven (evaluate_switches p hw inp now s)
  unfolding evaluate_switches
  evaluate_switches-Driven inp now s h =
      let s' = switch_pulse_tick p hw now s in
      let d = switch_pulse_tick-Driven now s h in
      let k = min (p.load_switch_count s'.nvs) max_switches in
      if_keeps Driven (not s'.auto_enabled) s' (for_range k 0 (evaluate_switch p hw inp now) s') d (
        for_range-keeps Driven (evaluate_switch p hw inp now) (evaluate_switch-Driven inp now) k 0
          s' d)

  switch_set_auto-Driven :
      (on : Bool) (s : System S) → Driven s → Driven (switch_set_auto p hw on s)
  unfolding switch_set_auto
  switch_set_auto-Driven on s h =
      let t = record s { auto_enabled = on; nvs = p.save_auto_enabled on s.nvs } in
      let d : Driven t = record {
        wired = IsWiredTo-auto p keeps hw i pin high allowed s.nvs on h.wired;
        level = h.level;
      } in
      let k = min (p.load_switch_count t.nvs) max_switches in
      if_keeps Driven on t (for_range k 0 (force_reset p hw) t) d (
        for_range-keeps Driven (force_reset p hw)
          (λ j u g.
            force_reset-keeps p keeps hw Driven j u g
              (λ ch e. force_off-IsDriven p keeps hw i pin high allowed j ch u (g.wired j ch e) g))
          k 0 t d)

  switch_pulse-Driven :
      (now j duration : ℕ) (s : System S) → Driven s → Driven (switch_pulse p hw now j duration s)
  unfolding switch_pulse
  switch_pulse-Driven now j duration s h =
      let s' = switch_set p hw j true s in
      let d = switch_set-IsDriven p keeps hw i pin high allowed j true s h in
      let st = record (s'.states j) {
        pulse_active = true;
        pulse_off_at_ms = u32 (now + duration);
      } in
      elim (Option-cases (p.load_switch s.nvs j)) [
        | inl e ↦ rw (switch_pulse, e) (if_keeps Driven (leb max_switches j) s s h h)
        | inr (ch, e) ↦
            rw (switch_pulse, e)
              (if_keeps Driven (leb max_switches j) s (set_state j st s') h
                (set_state-IsDriven p keeps hw i pin high allowed j st s' refl d))
      ]

  perform-Driven :
      (op : Operation F) (s : System S) → IsRunning op → Driven s → Driven (perform p hw op s)
  perform-Driven (tick now inp) s r h = evaluate_switches-Driven inp now s h
  perform-Driven (Operation.set idx on) s r h =
      switch_set-IsDriven p keeps hw i pin high allowed idx on s h
  perform-Driven (pulse now idx duration) s r h = switch_pulse-Driven now idx duration s h
  perform-Driven (auto on) s r h = switch_set_auto-Driven on s h
  perform-Driven boot s r h = elim r [ ]

  perform_all-Driven :
      (ops : List (Operation F)) (s : System S)
      → All IsRunning ops
      → Driven s
      → Driven (perform_all p hw ops s)
  perform_all-Driven [] s r h = h
  perform_all-Driven (op ∷ ops) s r h =
      perform_all-Driven ops (perform p hw op s) r.1 (perform-Driven op s r.0 h)

  -- Take an allowed pin of the board that, by the stored channels, only switch `i` drives, with its
  -- level as the switch's runtime flag and polarity say. Whatever ticks, settings of switches, pulses
  -- and switchings of auto-trip follow, of this switch and of the others, with whatever readings,
  -- rules and times, the level is as the runtime flag and the polarity say.
  pub perform_all-level :
      (ops : List (Operation F)) (s : System S)
      → All IsRunning ops
      → IsWiredTo p i pin high s.nvs
      → s.levels pin ≡ (if high then (s.states i).energized else not (s.states i).energized)
      → let s' = perform_all p hw ops s in
        s'.levels pin ≡ (if high then (s'.states i).energized else not (s'.states i).energized)
  perform_all-level ops s r w e =
      (perform_all-Driven ops s r (record { wired = w; level = e })).level
