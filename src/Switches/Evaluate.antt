-- ===== src/Switches/Evaluate.antt =====
-- `evaluate_switches`: one tick of the rules over every switch.
use Prim.Native.Nat.{min}
use power_monitoring.Base.{
  ℕ, zero, suc, ◌+◌, Bool, true, false, not, ◌&&◌, ◌||◌, Option, none, some, List, [], ◌∷◌, ltb,
  leb, ◌==◌, if◌then◌else◌, sub32, for_range,
}
use power_monitoring.Floats.{Float}
use power_monitoring.Settings.{Settings, BatteryConfig}
use power_monitoring.Switches.Rule.{
  Logic, any_of, all_of, SwitchChannel, SwitchCondition, SwitchRule, max_conditions,
}
use power_monitoring.Switches.Conditions.{
  Inputs, is_disabled, is_schedule, eval_schedule, read_condition_value, eval_condition,
}
use power_monitoring.Switches.System.{
  System, Hardware, max_switches, set_state, publish_switch_state, set_switch_pin,
  switch_pulse_tick,
}

-- What the loop over the conditions does for one of them: whether it is satisfied, its new latch,
-- and whether it counts as active.
pub record Verdict : Type 0 where
  pub satisfied : Bool
  pub latched : Bool
  pub active : Bool

pub record Tally : Type 0 where
  pub latches : List Bool
  pub active_count : ℕ
  pub true_count : ℕ

unfoldable pub one_if : Bool → ℕ
one_if true = 1
one_if false = 0

-- The two counts are kept in a `uint8_t`; there are at most four conditions.
unfoldable pub add_verdict : Verdict → Tally → Tally
unfolding one_if
add_verdict v t = record {
  latches = v.latched ∷ t.latches;
  active_count = one_if v.active + t.active_count;
  true_count = one_if v.satisfied + t.true_count;
}

module _ {F : Type 0} ⦃m : Float F⦄ (inp : Inputs F) (battery : ℕ → Option (BatteryConfig F))
    (rule : SwitchRule F) where
  unfoldable pub judge : SwitchCondition F → Bool → Verdict
  judge c latch =
      if is_disabled c.kind
      then record { satisfied = false; latched = false; active = false }
      else if is_schedule c.kind
      then (let open_now = eval_schedule inp c in
          record { satisfied = open_now; latched = open_now; active = true })
      else elim (read_condition_value inp battery c rule.channel) [
        | none ↦ record { satisfied = false; latched = latch; active = true }
        | some reading ↦
            (let sat = eval_condition c reading latch rule.hysteresis in
              record { satisfied = sat; latched = sat; active = true })
      ]

  -- The loop over the first `condition_count` conditions; the other latches stay.
  unfoldable pub tally : ℕ → List (SwitchCondition F) → List Bool → Tally
  unfolding judge add_verdict
  tally zero cs latches = record { latches = latches; active_count = 0; true_count = 0 }
  tally (suc n) [] latches = record { latches = latches; active_count = 0; true_count = 0 }
  tally (suc n) (c ∷ cs) [] = record { latches = []; active_count = 0; true_count = 0 }
  tally (suc n) (c ∷ cs) (l ∷ ls) = add_verdict (judge c l) (tally n cs ls)

  unfoldable pub tally_rule : Tally
  unfolding tally
  tally_rule =
      tally (min rule.condition_count max_conditions) rule.conditions rule.condition_latched

unfoldable pub need_of : ℕ → ℕ
need_of min_conditions = if min_conditions == 0 then 1 else min_conditions

unfoldable pub combine : Logic → ℕ → Tally → Bool
unfolding need_of
combine all_of min_conditions t = ltb 0 t.active_count && leb t.active_count t.true_count
combine any_of min_conditions t = leb (need_of min_conditions) t.true_count

-- `(int32_t)(now - start) >= (int32_t)delay`, for a 16-bit delay.
abbrev pub elapsed : ℕ → ℕ → ℕ → Bool
elapsed now start delay = ltb (sub32 now start) 2147483648 && leb delay (sub32 now start)

unfoldable pub same_latches : List Bool → List Bool → Bool
same_latches [] [] = true
same_latches (true ∷ xs) (true ∷ ys) = same_latches xs ys
same_latches (false ∷ xs) (false ∷ ys) = same_latches xs ys
same_latches _ _ = false

unfoldable pub differs : Bool → Bool → Bool
differs true b = not b
differs false b = b

module _ {S : Type 0} (hw : Hardware) (i : ℕ) where
  -- Switch on or off when the delay has passed, and publish the change.
  unfoldable pub turn : Bool → SwitchChannel → System S → System S
  turn on ch s =
      let st = s.states i in
      let s' = set_state i (record st { energized = on; was_energized = on }) s in
      set_switch_pin hw ch on
        (if differs st.was_energized on then publish_switch_state i on s' else s')

module _ {S : Type 0} (hw : Hardware) (now i : ℕ) where
  -- The timers of a switch: `met` is whether the rule's conditions hold now.
  unfoldable pub advance : Bool → ℕ → ℕ → SwitchChannel → System S → System S
  unfolding turn differs
  advance met trip_delay reset_delay ch s =
      let st = s.states i in
      if met
      then (if not st.condition_active
          then set_state i (record st { condition_active = true; condition_start_ms = now }) s
          else if not st.energized && elapsed now st.condition_start_ms trip_delay
          then turn hw i true ch s
          else s)
      else if st.condition_active
      then set_state i (record st { condition_active = false; condition_start_ms = now }) s
      else if st.energized && elapsed now st.condition_start_ms reset_delay
      then turn hw i false ch s
      else s

module _ {F S : Type 0} (p : Settings F S) where
  -- `memcmp` of the rules: of their fields only the latches can have changed.
  unfoldable pub persist : ℕ → SwitchChannel → SwitchRule F → List Bool → System S → System S
  unfolding same_latches differs
  persist i ch rule latches s =
      let on = (s.states i).energized in
      let nvs =
        if differs ch.is_energized on
        then p.save_switch i (record ch { is_energized = on }) s.nvs
        else s.nvs in
      record s {
        nvs =
            if same_latches rule.condition_latched latches
            then nvs
            else p.save_switch_rule i (record rule { condition_latched = latches }) nvs;
      }

module _ {F S : Type 0} ⦃m : Float F⦄ (p : Settings F S) (hw : Hardware) (inp : Inputs F)
    (now : ℕ) where
  unfoldable pub run_rule : ℕ → SwitchChannel → SwitchRule F → System S → System S
  unfolding persist advance combine
  run_rule i ch rule s =
      let t = tally_rule inp (p.load_battery s.nvs) rule in
      let met = combine rule.logic rule.min_conditions t in
      persist p i ch rule t.latches
        (advance hw now i met rule.trip_delay_ms rule.reset_delay_ms ch s)

  -- A round of the loop over the switches, with its `continue`s.
  unfoldable pub evaluate_switch : ℕ → System S → System S
  unfolding run_rule
  evaluate_switch i s = if (s.states i).pulse_active then s else elim (p.load_switch s.nvs i) [
    | none ↦ s
    | some ch ↦ if not ch.enabled then s else elim (p.load_switch_rule s.nvs i) [
      | none ↦ s
      | some rule ↦
          if not rule.enabled || leb inp.snapshot.total_logical_channels rule.channel
          then s
          else run_rule i ch rule s
    ]
  ]

  unfoldable pub evaluate_switches : System S → System S
  unfolding evaluate_switch switch_pulse_tick for_range
  evaluate_switches s =
      let s' = switch_pulse_tick p hw now s in
      if not s'.auto_enabled
      then s'
      else for_range (min (p.load_switch_count s'.nvs) max_switches) 0 evaluate_switch s'
