-- ===== src/Switches/Overload.antt =====
-- An overcurrent rule over whole ticks of `evaluate_switches`, while the overload lasts.
use Prim.Native.Nat.{min}
use native.Mathlib.Decide.{ℕ_discrete}
use power_monitoring.Base.{
  ℕ, ◌≡◌, ap, ◌∙◌, inl, inr, Bool, true, false, List, [], ◌∷◌, Bool-cases, All, for_range-keeps,
}
use power_monitoring.Floats.{Float, lit, flt, IsOrdered}
use power_monitoring.Settings.{Settings, Retains}
use power_monitoring.Switches.Rule.{SwitchCondition, SwitchRule}
use power_monitoring.Switches.Conditions.{Inputs, elec_eps}
use power_monitoring.Switches.System.{max_switches, System, Hardware, end_pulse, switch_pulse_tick}
use power_monitoring.Switches.Evaluate.{evaluate_switch, evaluate_switches}
use power_monitoring.Switches.Frame.{SameAt, end_pulse-SameAt, evaluate_switch-SameAt}
use power_monitoring.Switches.Latching.{IsOverloaded, IsWaiting, tick-IsWaiting}

-- The calls of `evaluate_switches`, each with the clock and what it reads.
module _ {F S : Type 0} ⦃m : Float F⦄ (p : Settings F S) (hw : Hardware) where
  unfoldable pub run_ticks : List (ℕ × Inputs F) → System S → System S
  run_ticks [] s = s
  run_ticks ((now, inp) ∷ ticks) s = run_ticks ticks (evaluate_switches p hw inp now s)

module _ {F S : Type 0} ⦃m : Float F⦄ (o : IsOrdered F)
    (tiny : flt (lit 0 1) (elec_eps {F = F}) ≡ true) (p : Settings F S) (keeps : Retains F S p)
    (hw : Hardware) (i : ℕ) (base : SwitchRule F) (v : F) (mask : List ℕ)
    (rest : List (SwitchCondition F)) (latches : List Bool) where
  abbrev Waits : System S → Type 0
  Waits = IsWaiting p i base v mask rest latches

  IsWaiting-SameAt : (s s' : System S) → SameAt p i s s' → Waits s → Waits s'
  IsWaiting-SameAt s s' f w = record {
    channel = w.channel;
    latch = w.latch;
    channel_found = f.channel ∙ w.channel_found;
    channel_enabled = w.channel_enabled;
    rule_found = f.rule ∙ w.rule_found;
    no_pulse = ap (λ t. t.pulse_active) f.state ∙ w.no_pulse;
    is_off = ap (λ t. t.energized) f.state ∙ w.is_off;
    in_step = ap (λ t. t.condition_active) f.state ∙ w.in_step;
  }

  no_pulse-end :
      (now : ℕ) (s : System S) → (s.states i).pulse_active ≡ false → end_pulse p hw now i s ≡ s
  unfolding end_pulse
  no_pulse-end now s e = rw e

  end_pulse-IsWaiting : (now j : ℕ) (s : System S) → Waits s → Waits (end_pulse p hw now j s)
  end_pulse-IsWaiting now j s w = elim (ℕ_discrete j i) [
    | yes e ↦ rw (e, idle_pulse) w
    | no ne ↦ IsWaiting-SameAt s _ (end_pulse-SameAt p keeps hw i j ne now s) w
  ]
    where
      idle_pulse : end_pulse p hw now i s ≡ s
      idle_pulse = no_pulse-end now s w.no_pulse

  round-IsWaiting :
      (now : ℕ) (inp : Inputs F) (j : ℕ) (s : System S)
      → IsOverloaded base v mask inp
      → Waits s
      → Waits (evaluate_switch p hw inp now j s)
  round-IsWaiting now inp j s h w = elim (ℕ_discrete j i) [
    | yes e ↦ rw e (tick-IsWaiting o tiny p keeps hw i base v mask rest latches now inp s h w)
    | no ne ↦ IsWaiting-SameAt s _ (evaluate_switch-SameAt p keeps hw i j ne inp now s) w
  ]

  pub evaluate_switches-IsWaiting :
      (now : ℕ) (inp : Inputs F) (s : System S)
      → IsOverloaded base v mask inp
      → Waits s
      → Waits (evaluate_switches p hw inp now s)
  unfolding evaluate_switches switch_pulse_tick
  evaluate_switches-IsWaiting now inp s h w =
      elim (Bool-cases (switch_pulse_tick p hw now s).auto_enabled) [
        | inl on ↦ rw on (
            for_range-keeps Waits (evaluate_switch p hw inp now)
              (λ j t. round-IsWaiting now inp j t h)
              (min (p.load_switch_count (switch_pulse_tick p hw now s).nvs) max_switches) 0
              (switch_pulse_tick p hw now s) ticked)
        | inr off ↦ rw off ticked
      ]
    where
      ticked : Waits (switch_pulse_tick p hw now s)
      ticked =
          for_range-keeps Waits (end_pulse p hw now) (end_pulse-IsWaiting now) max_switches 0 s w

  -- An enabled switch is off and has no pulse, its stored rule has a single overcurrent condition, and
  -- its timer runs exactly if that condition is latched, as the ticks themselves leave it. Then it is
  -- still off however long the overload lasts, whatever the delays and the hysteresis: the latch
  -- flips with each tick, so the trip delay starts anew with each second one.
  pub overload-never_trips :
      (ticks : List (ℕ × Inputs F)) (s : System S)
      → All (λ t. IsOverloaded base v mask t.1) ticks
      → IsWaiting p i base v mask rest latches s
      → ((run_ticks p hw ticks s).states i).energized ≡ false
  unfolding run_ticks
  overload-never_trips ticks s h w = (run_ticks-IsWaiting ticks s h w).is_off
    where
      run_ticks-IsWaiting :
          (ticks : List (ℕ × Inputs F)) (s : System S)
          → All (λ t. IsOverloaded base v mask t.1) ticks
          → Waits s
          → Waits (run_ticks p hw ticks s)
      run_ticks-IsWaiting [] s h w = w
      run_ticks-IsWaiting ((now, inp) ∷ ticks) s h w =
          run_ticks-IsWaiting ticks _ h.1 (evaluate_switches-IsWaiting now inp s h.0 w)
