-- ===== src/Cycles/Legs.antt =====
-- The tick of one battery: its charge, its legs and its health.
use power_monitoring.Base.{ℕ, ◌+◌, Bool, false, ◌&&◌, Option, none, some, ◌==◌, if◌then◌else◌, u32}
use power_monitoring.Floats.{Float, lit, neg, fadd, fsub, fmul, fdiv, flt, fle, clamp}
use power_monitoring.Sensors.{get_channel_voltage, get_channel_current}
use power_monitoring.Battery.{BatteryState}
use power_monitoring.Profiles.{Profile}
use power_monitoring.Settings.{BatteryConfig}
use power_monitoring.Coulomb.{get_coulomb_mah}
use power_monitoring.Cycles.State.{Direction, idle, charge, discharge, is_flip, is_first, Inputs}

module _ {F : Type 0} ⦃m : Float F⦄ where
  -- CYCLE_DOD_HYSTERESIS_PCT, CYCLE_CURRENT_DEADZONE_A and kSohAlpha.
  abbrev pub hysteresis_pct : F
  hysteresis_pct = lit 5 1

  abbrev pub deadzone_a : F
  deadzone_a = lit 2 100

  abbrev pub soh_alpha : F
  soh_alpha = lit 7 10

  -- The share of charge at the start, if the settings have one from 0 to 100.
  unfoldable pub base_soc : Option (BatteryConfig F) → F
  base_soc none = lit 100 1
  base_soc (some bat) =
      if fle (lit 0 1) bat.initial_soc_pct && fle bat.initial_soc_pct (lit 100 1)
      then bat.initial_soc_pct
      else lit 100 1

  unfoldable pub compute_soc_pct : Inputs F → ℕ → Profile F → F
  unfolding base_soc clamp
  compute_soc_pct i channel bp =
      let net_mah = get_coulomb_mah i.coulomb channel in
      let cap_mah = fmul bp.rated_capacity_ah (lit 1000 1) in
      let soc = fadd (base_soc (i.config channel)) (fmul (fdiv net_mah cap_mah) (lit 100 1)) in
      if fle bp.rated_capacity_ah (lit 1 1000)
      then neg (lit 1 1)
      else clamp (lit 0 1) (lit 100 1) soc

  unfoldable pub classify : F → Direction
  classify current_a =
      if flt deadzone_a current_a
      then charge
      else if flt current_a (neg deadzone_a)
      then discharge
      else idle

  -- The charge of a tick.
  unfoldable pub integrate : Direction → F → F → BatteryState F → BatteryState F
  integrate charge i dt st = record st {
    cumulative_ah_in = fadd st.cumulative_ah_in (fdiv (fmul i dt) (lit 3600 1));
  }
  integrate discharge i dt st = record st {
    cumulative_ah_out = fadd st.cumulative_ah_out (fdiv (fmul (neg i) dt) (lit 3600 1));
  }
  integrate idle i dt st = st

  -- The health after a leg that spans `delta` percent.
  unfoldable pub update_soh : Profile F → F → BatteryState F → BatteryState F
  unfolding clamp
  update_soh bp delta st =
      let leg_ah = fmul (fdiv delta (lit 100 1)) bp.rated_capacity_ah in
      let span = fmul (fdiv leg_ah bp.rated_capacity_ah) (lit 100 1) in
      let leg_soh = if flt (lit 100 1) span then lit 100 1 else span in
      let mixed = fadd (fmul soh_alpha st.soh_pct) (fmul (fsub (lit 1 1) soh_alpha) leg_soh) in
      let soh = if st.soh_samples == 0 then leg_soh else mixed in
      if flt (lit 1 1000) bp.rated_capacity_ah
      then record st {
        last_full_discharge_ah = leg_ah;
        soh_pct = clamp (lit 0 1) (lit 100 1) soh;
        soh_samples = u32 (st.soh_samples + 1);
      }
      else st

  -- How far the charge is from the start of the session.
  unfoldable pub session_delta : BatteryState F → F
  session_delta st =
      let delta = fsub st.last_soc_pct st.last_session_start_pct in
      if flt delta (lit 0 1) then neg delta else delta

  -- The end of a leg; true if it is counted.
  unfoldable pub end_leg : Profile F → BatteryState F → Bool × BatteryState F
  unfolding session_delta update_soh
  end_leg bp st =
      let delta = session_delta st in
      let crossed = flt hysteresis_pct delta in
      let counted = update_soh bp delta (record st {
        equivalent_full_cycles = fadd st.equivalent_full_cycles (fdiv delta (lit 100 1));
      }) in
      let st' = if crossed then counted else st in
      (crossed, record st' { last_session_start_pct = st'.last_soc_pct })

  -- The state of a bound channel after its tick.
  unfoldable pub tick_state :
      Inputs F → ℕ → ℕ → F → Profile F → Direction → BatteryState F → Bool × BatteryState F
  unfolding compute_soc_pct classify integrate end_leg
  tick_state inputs ch now dt bp last old =
      let v = get_channel_voltage inputs.snap ch in
      let i = get_channel_current inputs.snap ch in
      let new = classify i in
      let read = record old { last_v = v; last_i = i; last_update_ms = now } in
      let charged = integrate new i dt read in
      let soc = compute_soc_pct inputs ch bp in
      let known = if fle (lit 0 1) soc then record charged { last_soc_pct = soc } else charged in
      let seeded =
        if is_first last new
        then record known { last_session_start_pct = known.last_soc_pct }
        else known in
      if is_flip last new then end_leg bp seeded else (false, seeded)
