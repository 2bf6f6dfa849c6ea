-- ===== src/Switches/Pulse.antt =====
-- Timed pulses: the rules do not touch a switch while its pulse runs, and the pulse ends on time.
use Prim.Native.Nat.{min}
use native.Mathlib.Decide.{ℕ_discrete}
use power_monitoring.Base.{
  ℕ, ◌+◌, ◌≤◌, ◌<◌, ◌≡◌, refl, ap, ◌∙◌, ◌≢◌, inl, inr, true, false, some, arith, Bool-cases, u32,
  for_range-keeps, for_range-once,
}
use power_monitoring.Floats.{Float}
use power_monitoring.Settings.{Settings, Retains}
use power_monitoring.Switches.Rule.{SwitchChannel}
use power_monitoring.Switches.Conditions.{Inputs}
use power_monitoring.Switches.System.{
  max_switches, System, Hardware, publish_switch_state, set_switch_pin, has_passed,
  switch_set_channel, switch_set, switch_pulse, end_pulse, switch_pulse_tick,
}
use power_monitoring.Switches.Evaluate.{evaluate_switch, evaluate_switches}
use power_monitoring.Switches.Frame.{SameAt, end_pulse-SameAt, evaluate_switch-SameAt}

module _ {F S : Type 0} ⦃m : Float F⦄ (p : Settings F S) (keeps : Retains F S p) (hw : Hardware)
    (i : ℕ) where
  SameAt-trans : {s t u : System S} → SameAt p i s t → SameAt p i t u → SameAt p i s u
  SameAt-trans f g = record {
    state = g.state ∙ f.state;
    channel = g.channel ∙ f.channel;
    rule = g.rule ∙ f.rule;
  }

  -- A pulse of which the end has not come.
  pub record IsPulsing (now : ℕ) (s : System S) : Type 0 where
    pub active : (s.states i).pulse_active ≡ true
    pub early : has_passed now (s.states i).pulse_off_at_ms ≡ false

  end_pulse-early : (now : ℕ) (s : System S) → IsPulsing now s → end_pulse p hw now i s ≡ s
  unfolding end_pulse
  end_pulse-early now s h = rw (h.active, h.early)

  evaluate_switch-pulsing :
      (inp : Inputs F) (now : ℕ) (s : System S)
      → IsPulsing now s
      → evaluate_switch p hw inp now i s ≡ s
  unfolding evaluate_switch
  evaluate_switch-pulsing inp now s h = rw h.active

  IsPulsing-SameAt :
      (now : ℕ) (s s' : System S) → SameAt p i s s' → IsPulsing now s → IsPulsing now s'
  IsPulsing-SameAt now s s' f h = record {
    active = ap (λ t. t.pulse_active) f.state ∙ h.active;
    early = ap (λ t. has_passed now t.pulse_off_at_ms) f.state ∙ h.early;
  }

  abbrev Kept : ℕ → System S → System S → Type 0
  Kept now s t = SameAt p i s t × IsPulsing now t

  keep-round :
      (now : ℕ) (s : System S) (body : ℕ → System S → System S)
      → ((t : System S) → IsPulsing now t → body i t ≡ t)
      → ((j : ℕ) (t : System S) → j ≢ i → SameAt p i t (body j t))
      → (j : ℕ) (t : System S) → Kept now s t
      → Kept now s (body j t)
  keep-round now s body own other j t h = elim (ℕ_discrete j i) [
    | yes e ↦ rw (e, own t h.1) h
    | no ne ↦ let f = other j t ne in (SameAt-trans h.0 f, IsPulsing-SameAt now t (body j t) f h.1)
  ]

  -- While a pulse of switch `i` runs, a tick changes neither its state nor its settings, whatever
  -- its rule says and whether auto-trip is on.
  pub evaluate_switches-pulsing :
      (inp : Inputs F) (now : ℕ) (s : System S)
      → IsPulsing now s
      → SameAt p i s (evaluate_switches p hw inp now s)
  unfolding evaluate_switches switch_pulse_tick
  evaluate_switches-pulsing inp now s h =
      elim (Bool-cases (switch_pulse_tick p hw now s).auto_enabled) [
        | inl on ↦
            rw on
              (for_range-keeps (Kept now s) (evaluate_switch p hw inp now)
                (keep-round now s (evaluate_switch p hw inp now) (evaluate_switch-pulsing inp now)
                  (λ j t ne. evaluate_switch-SameAt p keeps hw i j ne inp now t))
                (min (p.load_switch_count (switch_pulse_tick p hw now s).nvs) max_switches) 0
                (switch_pulse_tick p hw now s) ticked).0
        | inr off ↦ rw off ticked.0
      ]
    where
      ticked : Kept now s (switch_pulse_tick p hw now s)
      ticked =
          for_range-keeps (Kept now s) (end_pulse p hw now)
            (keep-round now s (end_pulse p hw now) (end_pulse-early now)
              (λ j t ne. end_pulse-SameAt p keeps hw i j ne now t))
            max_switches 0 s (record { state = refl; channel = refl; rule = refl }, h)

  -- A pulse that is due, on a switch that is configured.
  record IsDue (now : ℕ) (ch : SwitchChannel) (s : System S) : Type 0 where
    active : (s.states i).pulse_active ≡ true
    late : has_passed now (s.states i).pulse_off_at_ms ≡ true
    found : p.load_switch s.nvs i ≡ some ch

  record IsEnded (s : System S) : Type 0 where
    is_off : (s.states i).energized ≡ false
    no_pulse : (s.states i).pulse_active ≡ false

  end_pulse-ends :
      (now : ℕ) (ch : SwitchChannel) (s : System S)
      → i < max_switches
      → IsDue now ch s
      → IsEnded (end_pulse p hw now i s)
  unfolding end_pulse switch_set switch_set_channel publish_switch_state
  end_pulse-ends now ch s b h = ground (arith, h.active, h.late, h.found, b)

  IsDue-SameAt :
      (now : ℕ) (ch : SwitchChannel) (s s' : System S)
      → SameAt p i s s'
      → IsDue now ch s
      → IsDue now ch s'
  IsDue-SameAt now ch s s' f h = record {
    active = ap (λ t. t.pulse_active) f.state ∙ h.active;
    late = ap (λ t. has_passed now t.pulse_off_at_ms) f.state ∙ h.late;
    found = f.channel ∙ h.found;
  }

  IsEnded-SameAt : (s s' : System S) → SameAt p i s s' → IsEnded s → IsEnded s'
  IsEnded-SameAt s s' f h = record {
    is_off = ap (λ t. t.energized) f.state ∙ h.is_off;
    no_pulse = ap (λ t. t.pulse_active) f.state ∙ h.no_pulse;
  }

  switch_pulse_tick-ends :
      (now : ℕ) (ch : SwitchChannel) (s : System S)
      → i < max_switches
      → IsDue now ch s
      → IsEnded (switch_pulse_tick p hw now s)
  unfolding switch_pulse_tick
  switch_pulse_tick-ends now ch s b h =
      for_range-once (IsDue now ch) IsEnded (end_pulse p hw now) i
        (λ j t ne. IsDue-SameAt now ch t _ (end_pulse-SameAt p keeps hw i j ne now t))
        (λ j t ne. IsEnded-SameAt t _ (end_pulse-SameAt p keeps hw i j ne now t))
        (λ t. end_pulse-ends now ch t b) max_switches 0 s (omega arith) (omega arith) h

  started :
      (at d : ℕ) (ch : SwitchChannel) (s : System S)
      → i < max_switches
      → p.load_switch s.nvs i ≡ some ch
      → let s' = switch_pulse p hw at i d s in
        ((s'.states i).energized ≡ true)
        × ((s'.states i).pulse_active ≡ true)
        × ((s'.states i).pulse_off_at_ms ≡ u32 (at + d))
        × (p.load_switch s'.nvs i ≡ some (record ch { is_energized = true }))
  unfolding switch_pulse switch_set switch_set_channel publish_switch_state
  started at d ch s b e = ground (
    arith,
    e,
    b,
    keeps.load_switch-save (set_switch_pin hw ch true s).nvs i (record ch { is_energized = true }),
  )

  -- A pulse started at `at` for `d` ms, below 2^31: a tick less than `d` ms later leaves the switch
  -- on and pulsing, whatever its rule says, also where the clock has wrapped.
  pub pulse-runs :
      (at d k : ℕ) (ch : SwitchChannel) (inp : Inputs F) (s : System S)
      → i < max_switches
      → p.load_switch s.nvs i ≡ some ch
      → k < d
      → d < 2147483648
      → let s' = evaluate_switches p hw inp (u32 (at + k)) (switch_pulse p hw at i d s) in
        ((s'.states i).energized ≡ true) × ((s'.states i).pulse_active ≡ true)
  pulse-runs at d k ch inp s b e early hd =
      let s' = switch_pulse p hw at i d s in
      let (on, act, off_at, found) = started at d ch s b e in
      let kept =
        evaluate_switches-pulsing inp (u32 (at + k)) s'
          (record { active = act; early = rw off_at (ground arith) }) in
      (ap (λ t. t.energized) kept.state ∙ on, ap (λ t. t.pulse_active) kept.state ∙ act)

  -- A pulse started at `at` for `d` ms: the pulse tick `k` ms later, with `k` at least `d` and the
  -- excess below 2^31, switches the switch off and ends the pulse, also where the clock has wrapped.
  pub pulse-ends :
      (at d k : ℕ) (ch : SwitchChannel) (s : System S)
      → i < max_switches
      → p.load_switch s.nvs i ≡ some ch
      → d ≤ k
      → k < d + 2147483648
      → let s' = switch_pulse_tick p hw (u32 (at + k)) (switch_pulse p hw at i d s) in
        ((s'.states i).energized ≡ false) × ((s'.states i).pulse_active ≡ false)
  pulse-ends at d k ch s b e le hk =
      let (on, act, off_at, found) = started at d ch s b e in
      let ended =
        switch_pulse_tick-ends (u32 (at + k)) (record ch { is_energized = true })
          (switch_pulse p hw at i d s) b
          (record { active = act; late = rw off_at (ground arith); found = found }) in
      (ended.is_off, ended.no_pulse)
