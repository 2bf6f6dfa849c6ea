-- ===== src/Switches/Rule.antt =====
-- The records of include/switch_controller.h. Fields of type `uint8_t` that hold an enumeration are
-- data with one more constructor for the values that the enumeration does not name.
use power_monitoring.Base.{ℕ, Bool, true, false, Option, none, some, List, ◌∷◌, replicate}
use power_monitoring.Floats.{Float, lit}

pub data SwitchType : Type 0 where
  relay mosfet_low_side mosfet_high_side ssr expander : SwitchType
  other_type : ℕ → SwitchType

pub record SwitchChannel : Type 0 where
  pub idx : ℕ
  pub type : SwitchType
  pub gpio_pin : ℕ
  pub active_high : Bool
  pub enabled : Bool
  pub is_energized : Bool
  pub name : List ℕ

pub data Kind : Type 0 where
  disabled overcurrent undervoltage soc_low soc_high : Kind
  channel_above channel_below schedule_window : Kind
  other_kind : ℕ → Kind

pub data Op : Type 0 where
  gt lt gte lte eq : Op
  other_op : ℕ → Op

-- `ref_channel` is an `int8_t` of which only the values from 0 on name a channel: `none` is a
-- negative one. The explicit padding byte is left out.
pub record SwitchCondition (F : Type 0) : Type 0 where
  pub kind : Kind
  pub op : Op
  pub ref_channel : Option ℕ
  pub value : F
  pub schedule_mask : List ℕ

-- Every value but `SL_AND` acts as OR.
pub data Logic : Type 0 where
  any_of all_of : Logic

pub record SwitchRule (F : Type 0) : Type 0 where
  pub switch_idx : ℕ
  pub channel : ℕ
  pub trip_delay_ms : ℕ
  pub reset_delay_ms : ℕ
  pub logic : Logic
  pub min_conditions : ℕ
  pub condition_count : ℕ
  pub enabled : Bool
  pub hysteresis : F
  pub condition_latched : List Bool
  pub conditions : List (SwitchCondition F)

abbrev pub max_conditions : ℕ
max_conditions = 4

abbrev pub schedule_bytes : ℕ
schedule_bytes = 21

module _ {F : Type 0} ⦃m : Float F⦄ where
  -- What `memset` with 0 makes of a condition.
  abbrev pub zero_condition : SwitchCondition F
  zero_condition = record {
    kind = disabled;
    op = gt;
    ref_channel = some 0;
    value = lit 0 1;
    schedule_mask = replicate schedule_bytes 0;
  }

  unfoldable pub default_rule : ℕ → ℕ → SwitchRule F
  default_rule switch_idx channel = record {
    switch_idx = switch_idx;
    channel = channel;
    trip_delay_ms = 1000;
    reset_delay_ms = 5000;
    logic = any_of;
    min_conditions = 1;
    condition_count = 1;
    enabled = true;
    hysteresis = lit 0 1;
    condition_latched = replicate max_conditions false;
    conditions =
        record zero_condition { kind = overcurrent; op = gt; ref_channel = none; value = lit 5 1 }
        ∷ replicate 3 zero_condition;
  }
