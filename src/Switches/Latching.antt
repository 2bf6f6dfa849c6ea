-- ===== src/Switches/Latching.antt =====
-- The latch of a condition and the trip delay, over the ticks of a fault that lasts.
use power_monitoring.Base.{
  ℕ, ◌<◌, ◌≡◌, refl, ◌∙◌, inl, inr, Bool, true, false, not, Option, none, some, List, [], ◌∷◌,
  arith, if◌then◌else◌, Bool-cases,
}
use power_monitoring.Floats.{Float, lit, fadd, fsub, flt, IsOrdered}
use power_monitoring.Sensors.{PhysicalChannel, logical_channel}
use power_monitoring.Settings.{BatteryConfig, Settings, Retains}
use power_monitoring.Switches.Rule.{
  SwitchChannel, overcurrent, gt, SwitchCondition, any_of, SwitchRule,
}
use power_monitoring.Switches.Conditions.{
  Inputs, is_schedule, is_disabled, elec_eps, read_condition_value, trip_value, reset_value,
  eval_condition,
}
use power_monitoring.Switches.System.{System, Hardware, set_state}
use power_monitoring.Switches.Evaluate.{
  one_if, judge, tally_rule, combine, same_latches, advance, persist, run_rule, evaluate_switch,
}

module _ {F : Type 0} ⦃m : Float F⦄ (o : IsOrdered F) where
  -- A reading above the trip threshold is not below the reset threshold.
  pub above-not-below :
      (c : SwitchCondition F) (reading hyst : F)
      → c.kind ≡ overcurrent
      → flt (lit 0 1) (elec_eps {F = F}) ≡ true
      → flt (fadd (trip_value c hyst) elec_eps) reading ≡ true
      → flt reading (fsub (reset_value c hyst) elec_eps) ≡ false
  unfolding trip_value reset_value
  above-not-below c reading hyst k e above =
      elim (Bool-cases (flt reading (fsub (reset_value c hyst) elec_eps))) [
        | inr done ↦ done
        | inl below ↦ ground (
          arith,
          o.lt_sub reading c.value elec_eps e,
          o.lt_add reading c.value hyst,
          o.lt_add reading c.value elec_eps e,
          o.lt_add reading (fadd c.value hyst) elec_eps e,
          o.lt_asym reading (fadd c.value elec_eps),
          o.lt_asym reading (fadd (fadd c.value hyst) elec_eps),
        )
      ]

-- A rule with one overcurrent condition on its own channel, such as the default rule: `base` gives
-- the delays, the hysteresis and the channel.
module _ {F : Type 0} where
  abbrev pub overcurrent_above : F → List ℕ → SwitchCondition F
  overcurrent_above v mask = record {
    kind = overcurrent;
    op = gt;
    ref_channel = none;
    value = v;
    schedule_mask = mask;
  }

  abbrev pub overcurrent_rule :
      SwitchRule F → F → List ℕ → List (SwitchCondition F) → Bool → List Bool → SwitchRule F
  overcurrent_rule base v mask rest latch latches = record base {
    logic = any_of;
    min_conditions = 1;
    condition_count = 1;
    enabled = true;
    conditions = overcurrent_above v mask ∷ rest;
    condition_latched = latch ∷ latches;
  }

-- The channel is there, and its current is above the trip threshold.
pub record IsOverloaded {F : Type 0} ⦃m : Float F⦄ (base : SwitchRule F) (v : F) (mask : List ℕ)
    (inp : Inputs F) : Type 0 where
  pub channel : PhysicalChannel F
  pub counted : base.channel < inp.snapshot.total_logical_channels
  pub found : logical_channel inp.snapshot base.channel ≡ some channel
  pub above :
      flt (fadd (trip_value (overcurrent_above v mask) base.hysteresis) elec_eps) channel.current
      ≡ true

module _ {F : Type 0} ⦃m : Float F⦄ (o : IsOrdered F)
    (tiny : flt (lit 0 1) (elec_eps {F = F}) ≡ true) (base : SwitchRule F) (v : F) (mask : List ℕ)
    (rest : List (SwitchCondition F)) (latches : List Bool) where
  -- The reading of the condition is the current of the channel.
  overload-read :
      (inp : Inputs F) (battery : ℕ → Option (BatteryConfig F)) (h : IsOverloaded base v mask inp)
      → read_condition_value inp battery (overcurrent_above v mask) base.channel
        ≡ some h.channel.current
  unfolding read_condition_value
  overload-read inp battery h = ground arith

  -- Under an overload the condition is satisfied exactly if it is not latched, and the latch flips.
  pub overload-flips :
      (inp : Inputs F) (battery : ℕ → Option (BatteryConfig F)) (latch : Bool)
      → IsOverloaded base v mask inp
      → tally_rule inp battery (overcurrent_rule base v mask rest latch latches) ≡ record {
        latches = not latch ∷ latches;
        active_count = 1;
        true_count = one_if (not latch);
      }
  unfolding tally_rule judge eval_condition is_disabled is_schedule
  overload-flips inp battery false h = rw (overload-read inp battery h) (ground (arith, h.above))
  overload-flips inp battery true h = rw (overload-read inp battery h) (
      ground (
        arith,
        above-not-below o (overcurrent_above v mask) h.channel.current base.hysteresis refl tiny
            h.above,
      ))

module _ {F S : Type 0} (p : Settings F S) (i : ℕ) (base : SwitchRule F) (v : F) (mask : List ℕ)
    (rest : List (SwitchCondition F)) (latches : List Bool) where
  -- Switch `i` is off and obeys the rule, and its timer runs exactly if the condition is latched.
  pub record IsWaiting (s : System S) : Type 0 where
    pub channel : SwitchChannel
    pub latch : Bool
    pub channel_found : p.load_switch s.nvs i ≡ some channel
    pub channel_enabled : channel.enabled ≡ true
    pub rule_found :
        p.load_switch_rule s.nvs i ≡ some (overcurrent_rule base v mask rest latch latches)
    pub no_pulse : (s.states i).pulse_active ≡ false
    pub is_off : (s.states i).energized ≡ false
    pub in_step : (s.states i).condition_active ≡ latch

same_latches_refl : (l : List Bool) → same_latches l l ≡ true
unfolding same_latches
same_latches_refl [] = refl
same_latches_refl (true ∷ l) = same_latches_refl l
same_latches_refl (false ∷ l) = same_latches_refl l

module _ {F S : Type 0} ⦃m : Float F⦄ (o : IsOrdered F)
    (tiny : flt (lit 0 1) (elec_eps {F = F}) ≡ true) (p : Settings F S) (keeps : Retains F S p)
    (hw : Hardware) (i : ℕ) (base : SwitchRule F) (v : F) (mask : List ℕ)
    (rest : List (SwitchCondition F)) (latches : List Bool) where
  -- A tick of an overload flips the timer with the latch, and switches nothing.
  advance-flips :
      (now : ℕ) (ch : SwitchChannel) (s : System S) (latch : Bool)
      → (s.states i).energized ≡ false
      → (s.states i).condition_active ≡ latch
      → advance hw now i (not latch) base.trip_delay_ms base.reset_delay_ms ch s
        ≡ set_state i
            (record (s.states i) { condition_active = not latch; condition_start_ms = now })
            s
  unfolding advance
  advance-flips now ch s true e a = ground arith
  advance-flips now ch s false e a = ground arith

  met-flips :
      (latch : Bool)
      → combine any_of 1 (record {
        latches = not latch ∷ latches;
        active_count = 1;
        true_count = one_if (not latch);
      })
        ≡ not latch
  unfolding combine one_if
  met-flips true = refl
  met-flips false = refl

  run_rule-flips :
      (now : ℕ) (inp : Inputs F) (ch : SwitchChannel) (s : System S) (latch : Bool)
      → IsOverloaded base v mask inp
      → (s.states i).energized ≡ false
      → (s.states i).condition_active ≡ latch
      → run_rule p hw inp now i ch (overcurrent_rule base v mask rest latch latches) s
        ≡ persist p i ch (overcurrent_rule base v mask rest latch latches) (not latch ∷ latches) (
            set_state i
              (record (s.states i) { condition_active = not latch; condition_start_ms = now })
              s)
  unfolding run_rule
  run_rule-flips now inp ch s latch h e a = rw (
    overload-flips o tiny base v mask rest latches inp (p.load_battery s.nvs) latch h,
    met-flips latch,
    advance-flips now ch s latch e a,
  )

  tick-eq :
      (now : ℕ) (inp : Inputs F) (s : System S) (w : IsWaiting p i base v mask rest latches s)
      → IsOverloaded base v mask inp
      → evaluate_switch p hw inp now i s
        ≡ run_rule p hw inp now i w.channel (overcurrent_rule base v mask rest w.latch latches) s
  unfolding evaluate_switch
  tick-eq now inp s w h = ground (arith, h.counted, w.channel_found, w.rule_found)

  saved_channel : SwitchChannel → SwitchChannel
  saved_channel ch = if ch.is_energized then record ch { is_energized = false } else ch

  saved_nvs : SwitchChannel → S → S
  unfolding saved_channel
  saved_nvs ch nvs = if ch.is_energized then p.save_switch i (saved_channel ch) nvs else nvs

  -- The new latch is saved, and so is the channel if its record says on.
  persist-nvs :
      (ch : SwitchChannel) (s : System S) (latch : Bool)
      → (s.states i).energized ≡ false
      → persist p i ch (overcurrent_rule base v mask rest latch latches) (not latch ∷ latches) s
        ≡ record s {
          nvs =
              p.save_switch_rule i
                (overcurrent_rule base v mask rest (not latch) latches)
                (saved_nvs ch s.nvs);
        }
  unfolding persist saved_nvs
  persist-nvs ch s true e = ground arith
  persist-nvs ch s false e = ground arith

  saved-found :
      (ch : SwitchChannel) (nvs : S)
      → p.load_switch nvs i ≡ some ch
      → p.load_switch (saved_nvs ch nvs) i ≡ some (saved_channel ch)
  unfolding saved_nvs
  saved-found ch nvs h = ground (arith, keeps.load_switch-save nvs i (saved_channel ch))

  saved-enabled : (ch : SwitchChannel) → (saved_channel ch).enabled ≡ ch.enabled
  unfolding saved_channel
  saved-enabled ch = ground arith

  -- A tick of an overload leaves a waiting switch waiting.
  pub tick-IsWaiting :
      (now : ℕ) (inp : Inputs F) (s : System S)
      → IsOverloaded base v mask inp
      → IsWaiting p i base v mask rest latches s
      → IsWaiting p i base v mask rest latches (evaluate_switch p hw inp now i s)
  tick-IsWaiting now inp s h w =
      rw
        (
          tick-eq now inp s w h,
          run_rule-flips now inp w.channel s w.latch h w.is_off w.in_step,
          persist-nvs w.channel
              (set_state i
                (record (s.states i) { condition_active = not w.latch; condition_start_ms = now })
                s)
              w.latch (ground (arith, w.is_off)),
        )
        (record {
          channel = saved_channel w.channel;
          latch = not w.latch;
          channel_found =
              keeps.load_switch-save_rule _ i i _ ∙ saved-found w.channel s.nvs w.channel_found;
          channel_enabled = saved-enabled w.channel ∙ w.channel_enabled;
          rule_found = keeps.load_rule-save _ i _;
          no_pulse = ground (arith, w.no_pulse);
          is_off = ground (arith, w.is_off);
          in_step = ground arith;
        })
