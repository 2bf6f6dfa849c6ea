-- ===== src/Sensors.antt =====
-- include/sensor_pod.h, and the lookup of a logical channel in src/sensor_manager.cpp.
-- Pods are numbered in the order in which they were registered, and their channels follow one
-- another as the logical channels.
pub mod Lookup
mod Tests
use power_monitoring.Base.{
  ℕ, zero, suc, ◌+◌, ◌-◌, ◌*◌, ◌/◌, ◌%◌, ◌^◌, ◌≤◌, ◌<◌, ◌≡◌, refl, sym, ap, ◌∙◌, ◌≢◌, ◌⊎◌, inl, inr,
  Bool, true, false, not, ◌&&◌, ◌||◌, Option, none, some, List, [], ◌∷◌, ◌++◌, map, arith, ltb, leb,
  ◌==◌, if◌then◌else◌, ltb→lt, leb→le, ==-refl, ==→eq, Bool-cases, Option-cases, length, get_elem?,
  get_or, set, take, drop, replicate, update, length-append, length-set, length-replicate,
  get_or-set_self, get_or-set_ne, All, u8, u16, u32, sub32,
}
use power_monitoring.Floats.{Float, lit}

-- `float` measurements, and what the sampler found of them.
pub record SampleMeta (F : Type 0) : Type 0 where
  pub stddev : F
  pub spike : Bool

pub record PhysicalChannel (F : Type 0) : Type 0 where
  pub pod_id : ℕ
  pub pod_channel : ℕ
  pub voltage : F
  pub current : F
  pub power : F
  pub energy_wh : F
  pub coulomb_mah : F
  pub meta : SampleMeta F

pub data PodType : Type 0 where
  ina226 bl0939 : PodType

pub record PodState (F : Type 0) : Type 0 where
  pub id : ℕ
  pub type : PodType
  pub name : List ℕ
  pub num_channels : ℕ
  pub channels : List (PhysicalChannel F)

pub record SensorSnapshot (F : Type 0) : Type 0 where
  pub timestamp_ms : ℕ
  pub num_pods : ℕ
  pub pods : List (PodState F)
  pub total_logical_channels : ℕ

module _ {F : Type 0} where
  -- The loop of `logical_channel_from_snapshot`: `logical` is the first channel of the pod at hand,
  -- kept in a `uint8_t`. A channel that its pod does not hold is `none`.
  unfoldable pub find_channel : List (PodState F) → ℕ → ℕ → Option (PhysicalChannel F)
  find_channel [] logical ch = none
  find_channel (p ∷ ps) logical ch =
      let rest = find_channel ps (u8 (logical + p.num_channels)) ch in
      if ltb ch (logical + p.num_channels) then get_elem? p.channels (ch - logical) else rest

  unfoldable pub logical_channel : SensorSnapshot F → ℕ → Option (PhysicalChannel F)
  unfolding find_channel
  logical_channel snap ch =
      if leb snap.total_logical_channels ch
      then none
      else find_channel (take snap.num_pods snap.pods) 0 ch

module _ {F : Type 0} ⦃m : Float F⦄ where
  abbrev field_or_zero : (PhysicalChannel F → F) → Option (PhysicalChannel F) → F
  field_or_zero f none = lit 0 1
  field_or_zero f (some c) = f c

  unfoldable pub get_channel_voltage : SensorSnapshot F → ℕ → F
  get_channel_voltage snap ch = field_or_zero (λ c. c.voltage) (logical_channel snap ch)

  unfoldable pub get_channel_current : SensorSnapshot F → ℕ → F
  get_channel_current snap ch = field_or_zero (λ c. c.current) (logical_channel snap ch)

  unfoldable pub get_channel_power : SensorSnapshot F → ℕ → F
  get_channel_power snap ch = field_or_zero (λ c. c.power) (logical_channel snap ch)
