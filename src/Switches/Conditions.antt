-- ===== src/Switches/Conditions.antt =====
-- The evaluation of one condition: the state of charge, the reading, the comparison with its
-- hysteresis, and the schedule.
use Prim.Native.Nat.{bit_and}
use power_monitoring.Base.{
  ℕ, ◌+◌, ◌*◌, ◌/◌, ◌%◌, ◌^◌, Bool, true, false, not, ◌&&◌, ◌||◌, Option, none, some, List, leb,
  ◌==◌, if◌then◌else◌, get_or, u16,
}
use power_monitoring.Floats.{Float, lit, fadd, fsub, fmul, fdiv, flt, fle, clamp, fabs}
use power_monitoring.Sensors.{SensorSnapshot, PhysicalChannel, logical_channel}
use power_monitoring.Settings.{BatteryConfig}
use power_monitoring.Switches.Rule.{
  Kind, disabled, overcurrent, undervoltage, soc_low, soc_high, channel_above, channel_below,
  schedule_window, Op, gt, lt, gte, lte, eq, other_op, SwitchCondition, schedule_bytes,
}

-- The fields of `struct tm` that the schedule reads.
pub record LocalTime : Type 0 where
  pub hour : ℕ
  pub wday : ℕ

-- What a tick reads of the other parts: the snapshot, the coulomb counters, whether NTP has set the
-- clock, the clock, and `localtime` of the C library, which may fail.
pub record Inputs (F : Type 0) : Type 0 where
  pub snapshot : SensorSnapshot F
  pub coulomb_mah : ℕ → F
  pub epoch_valid : Bool
  pub epoch_time : ℕ
  pub localtime : ℕ → Option LocalTime

unfoldable pub is_schedule : Kind → Bool
is_schedule schedule_window = true
is_schedule _ = false

unfoldable pub is_soc : Kind → Bool
is_soc soc_low = true
is_soc soc_high = true
is_soc _ = false

unfoldable pub is_disabled : Kind → Bool
is_disabled disabled = true
is_disabled _ = false

-- Rises above its threshold when it trips, or falls below.
unfoldable pub trips_above : Kind → Bool
trips_above overcurrent = true
trips_above channel_above = true
trips_above soc_high = true
trips_above _ = false

unfoldable pub trips_below : Kind → Bool
trips_below undervoltage = true
trips_below channel_below = true
trips_below soc_low = true
trips_below _ = false

-- Bit `dow * 24 + hour` of the mask. A byte that the mask does not hold reads as 0.
unfoldable pub schedule_bit : List ℕ → LocalTime → Bool
schedule_bit mask tm =
    let bit_index = u16 (tm.wday * 24 + tm.hour) in
    if leb 168 bit_index || leb schedule_bytes (bit_index / 8)
    then false
    else not (bit_and (get_or mask (bit_index / 8) 0) (2 ^ (bit_index % 8)) == 0)

module _ {F : Type 0} where
  unfoldable pub eval_schedule : Inputs F → SwitchCondition F → Bool
  unfolding is_schedule schedule_bit
  eval_schedule inp c =
      if not (is_schedule c.kind) || not inp.epoch_valid || inp.epoch_time == 0
      then false
      else elim (inp.localtime inp.epoch_time) [
        | none ↦ false
        | some tm ↦ schedule_bit c.schedule_mask tm
      ]

module _ {F : Type 0} ⦃m : Float F⦄ where
  abbrev pub soc_eps : F
  soc_eps = lit 1 1000

  abbrev pub elec_eps : F
  elec_eps = lit 1 1000000

  abbrev pub power_eps : F
  power_eps = lit 1 1000

  -- `none` where no battery is configured.
  unfoldable pub compute_soc : Option (BatteryConfig F) → F → Option F
  compute_soc none net_mah = none
  compute_soc (some bat) net_mah =
      if fle bat.capacity_mah elec_eps
      then none
      else some (
          clamp (lit 0 1) (lit 100 1)
            (fadd bat.initial_soc_pct (fmul (fdiv net_mah bat.capacity_mah) (lit 100 1))))

  -- The quantity that a kind compares.
  unfoldable pub quantity : Kind → PhysicalChannel F → Option F
  quantity overcurrent pc = some pc.current
  quantity undervoltage pc = some pc.voltage
  quantity channel_above pc = some pc.current
  quantity channel_below pc = some pc.current
  quantity _ pc = none

  unfoldable pub read_condition_value :
      Inputs F → (ℕ → Option (BatteryConfig F)) → SwitchCondition F → ℕ → Option F
  unfolding is_disabled is_soc is_schedule quantity
  read_condition_value inp battery c rule_channel =
      let ch : ℕ = elim c.ref_channel [ none ↦ rule_channel | some ref ↦ ref ] in
      if is_disabled c.kind
      then none
      else if is_soc c.kind
      then compute_soc (battery rule_channel) (inp.coulomb_mah rule_channel)
      else if is_schedule c.kind
      then none
      else if leb inp.snapshot.total_logical_channels ch
      then none
      else elim (logical_channel inp.snapshot ch) [ none ↦ none | some pc ↦ quantity c.kind pc ]

  -- The thresholds, apart by the hysteresis if there is one.
  unfoldable pub trip_value : SwitchCondition F → F → F
  unfolding trips_above
  trip_value c hyst =
      if flt (lit 0 1) hyst && trips_above c.kind then fadd c.value hyst else c.value

  unfoldable pub reset_value : SwitchCondition F → F → F
  unfolding trips_below
  reset_value c hyst =
      if flt (lit 0 1) hyst && trips_below c.kind then fadd c.value hyst else c.value

  unfoldable pub eq_eps : Kind → F
  eq_eps soc_low = soc_eps
  eq_eps soc_high = soc_eps
  eq_eps channel_above = power_eps
  eq_eps channel_below = power_eps
  eq_eps _ = elec_eps

  unfoldable pub compare_op : Op → Bool → F → F → F → Bool → Bool
  compare_op gt false reading trip reset is_eq = flt (fadd trip elec_eps) reading
  compare_op gt true reading trip reset is_eq = flt reading (fsub reset elec_eps)
  compare_op gte false reading trip reset is_eq = fle (fsub trip elec_eps) reading
  compare_op gte true reading trip reset is_eq = fle reading (fadd reset elec_eps)
  compare_op lt false reading trip reset is_eq = flt reading (fsub trip elec_eps)
  compare_op lt true reading trip reset is_eq = flt (fadd reset elec_eps) reading
  compare_op lte false reading trip reset is_eq = fle reading (fadd trip elec_eps)
  compare_op lte true reading trip reset is_eq = fle (fsub reset elec_eps) reading
  compare_op eq falling reading trip reset is_eq = is_eq
  compare_op (other_op n) falling reading trip reset is_eq = false

  -- `falling` is the direction, DIR_FALLING where the condition is latched.
  unfoldable pub eval_condition : SwitchCondition F → F → Bool → F → Bool
  unfolding compare_op trip_value reset_value eq_eps
  eval_condition c reading falling hyst =
      compare_op c.op falling reading (trip_value c hyst) (reset_value c hyst)
        (flt (fabs (fsub reading c.value)) (eq_eps c.kind))
