-- ===== src/Cycles/Range.antt =====
-- The charge and the health of a battery stay within 0 and 100 in a tick.
-- What the program's literals are to each other.
use power_monitoring.Base.{
  ℕ, ◌<◌, ◌≡◌, inl, inr, Bool, true, false, arith, if◌then◌else◌, Bool-cases, if_keeps, if_cases,
}
use power_monitoring.Floats.{Float, lit, neg, fadd, fdiv, flt, fle, clamp, IsOrdered}
use power_monitoring.Sensors.{get_channel_voltage, get_channel_current}
use power_monitoring.Battery.{BatteryState}
use power_monitoring.Profiles.{Profile}
use power_monitoring.Cycles.State.{Direction, idle, charge, discharge, is_flip, is_first, Inputs}
use power_monitoring.Cycles.Legs.{
  hysteresis_pct, compute_soc_pct, classify, integrate, update_soh, session_delta, end_leg,
  tick_state,
}

pub record IsScale (F : Type 0) ⦃m : Float F⦄ : Type 0 where
  pub hundred : flt {F = F} (lit 0 1) (lit 100 1) ≡ true
  pub sentinel : fle {F = F} (lit 0 1) (neg (lit 1 1)) ≡ false

-- Neither below 0 nor above 100.
pub record IsPercent {F : Type 0} ⦃m : Float F⦄ (x : F) : Type 0 where
  pub not_below : flt x (lit 0 1) ≡ false
  pub not_above : flt (lit 100 1) x ≡ false

pub record IsSound {F : Type 0} ⦃m : Float F⦄ (st : BatteryState F) : Type 0 where
  pub soc : IsPercent st.last_soc_pct
  pub soh : IsPercent st.soh_pct
  pub in_time : st.last_update_ms < 4294967296
  pub in_count : st.soh_samples < 4294967296

module _ {F : Type 0} ⦃m : Float F⦄ (o : IsOrdered F) (s : IsScale F) where
  lt_irrefl : (x : F) → flt x x ≡ false
  lt_irrefl x = elim (Bool-cases (flt x x)) [ inl t ↦ o.lt_asym x x t | inr f ↦ f ]

  pub zero-IsPercent : IsPercent {F = F} (lit 0 1)
  zero-IsPercent = record {
    not_below = lt_irrefl (lit 0 1);
    not_above = o.lt_asym (lit 0 1) (lit 100 1) s.hundred;
  }

  hundred-IsPercent : IsPercent {F = F} (lit 100 1)
  hundred-IsPercent = record {
    not_below = o.lt_asym (lit 0 1) (lit 100 1) s.hundred;
    not_above = lt_irrefl (lit 100 1);
  }

  clamp-IsPercent : (x : F) → IsPercent (clamp (lit 0 1) (lit 100 1) x)
  unfolding clamp
  clamp-IsPercent x =
      let y = if flt x (lit 0 1) then lit 0 1 else x in
      let low : flt y (lit 0 1) ≡ false =
        if_cases (λ t. flt t (lit 0 1) ≡ false) (flt x (lit 0 1)) (lit 0 1) x
          (λ _. lt_irrefl (lit 0 1)) (λ e. e) in
      if_cases IsPercent (flt (lit 100 1) y) (lit 100 1) y (λ _. hundred-IsPercent)
        (λ e. record { not_below = low; not_above = e })

  integrate-IsSound :
      (d : Direction) (i dt : F) (st : BatteryState F) → IsSound st → IsSound (integrate d i dt st)
  unfolding integrate
  integrate-IsSound idle i dt st h = h
  integrate-IsSound charge i dt st h = record {
    soc = h.soc;
    soh = h.soh;
    in_time = h.in_time;
    in_count = h.in_count;
  }
  integrate-IsSound discharge i dt st h = record {
    soc = h.soc;
    soh = h.soh;
    in_time = h.in_time;
    in_count = h.in_count;
  }

  update_soh-IsSound :
      (bp : Profile F) (delta : F) (st : BatteryState F)
      → IsSound st
      → IsSound (update_soh bp delta st)
  unfolding update_soh
  update_soh-IsSound bp delta st h =
      if_keeps IsSound (flt (lit 1 1000) bp.rated_capacity_ah) _ st
        (record {
          soc = h.soc;
          soh = clamp-IsPercent _;
          in_time = h.in_time;
          in_count = omega arith;
        })
        h

  end_leg-IsSound : (bp : Profile F) (st : BatteryState F) → IsSound st → IsSound (end_leg bp st).1
  unfolding end_leg
  end_leg-IsSound bp st h =
      let delta = session_delta st in
      let more : BatteryState F = record st {
        equivalent_full_cycles = fadd st.equivalent_full_cycles (fdiv delta (lit 100 1));
      } in
      let counted =
        update_soh-IsSound bp delta more
          (record { soc = h.soc; soh = h.soh; in_time = h.in_time; in_count = h.in_count }) in
      let k = if_keeps IsSound (flt hysteresis_pct delta) (update_soh bp delta more) st counted h in
      record { soc = k.soc; soh = k.soh; in_time = k.in_time; in_count = k.in_count }

  -- A share of charge that is taken over is a percentage.
  compute-IsPercent :
      (inputs : Inputs F) (ch : ℕ) (bp : Profile F)
      → fle (lit 0 1) (compute_soc_pct inputs ch bp) ≡ true
      → IsPercent (compute_soc_pct inputs ch bp)
  unfolding compute_soc_pct
  compute-IsPercent inputs ch bp =
      if_keeps (λ x. fle (lit 0 1) x ≡ true → IsPercent x) (fle bp.rated_capacity_ah (lit 1 1000))
        (neg (lit 1 1)) (clamp (lit 0 1) (lit 100 1) _)
        (λ e. absurd (ground (arith, e, s.sentinel))) (λ _. clamp-IsPercent _)

  pub tick_state-IsSound :
      (inputs : Inputs F) (ch now : ℕ) (dt : F) (bp : Profile F) (last : Direction)
      (st : BatteryState F)
      → now < 4294967296
      → IsSound st
      → IsSound (tick_state inputs ch now dt bp last st).1
  unfolding tick_state
  tick_state-IsSound inputs ch now dt bp last st low h =
      let v = get_channel_voltage inputs.snap ch in
      let i = get_channel_current inputs.snap ch in
      let new = classify i in
      let read : BatteryState F = record st { last_v = v; last_i = i; last_update_ms = now } in
      let charged = integrate new i dt read in
      let a =
        integrate-IsSound new i dt read
          (record { soc = h.soc; soh = h.soh; in_time = low; in_count = h.in_count }) in
      let soc = compute_soc_pct inputs ch bp in
      let known = if fle (lit 0 1) soc then record charged { last_soc_pct = soc } else charged in
      let b : IsSound known =
        if_cases IsSound (fle (lit 0 1) soc) (record charged { last_soc_pct = soc }) charged
          (λ e. record {
            soc = compute-IsPercent inputs ch bp e;
            soh = a.soh;
            in_time = a.in_time;
            in_count = a.in_count;
          })
          (λ _. a) in
      let seeded =
        if is_first last new
        then record known { last_session_start_pct = known.last_soc_pct }
        else known in
      let c : IsSound seeded =
        if_keeps IsSound (is_first last new)
          (record known { last_session_start_pct = known.last_soc_pct }) known
          (record { soc = b.soc; soh = b.soh; in_time = b.in_time; in_count = b.in_count }) b in
      if_keeps (λ (r : Bool × BatteryState F). IsSound r.1) (is_flip last new) (end_leg bp seeded)
        (false, seeded) (end_leg-IsSound bp seeded c) c
