-- ===== src/Battery.antt =====
-- src/battery_state.cpp and include/battery_state.h: the binding of channels to profiles, and the
-- stored state of each channel, with their rows of src/battery_nvs.cpp. How a number lies in memory is
-- a parameter, `Layout`; whether the store takes a write is a parameter. The key of a channel is its
-- number.
pub mod Stored
mod Tests
use power_monitoring.Base.{
  ℕ, ◌+◌, ◌*◌, Bool, true, false, Option, none, some, List, [], ◌∷◌, ◌++◌, ltb, leb, ◌==◌,
  if◌then◌else◌, length, get_or, set, take, drop, replicate, update,
}

abbrev pub max_logical_channels : ℕ
max_logical_channels = 16

abbrev pub max_profiles : ℕ
max_profiles = 16

abbrev pub no_binding : ℕ
no_binding = 255

abbrev pub bind_version : ℕ
bind_version = 1

abbrev pub state_blob_version : ℕ
state_blob_version = 3

-- `sizeof(BatteryState)`.
abbrev pub state_size : ℕ
state_size = 44

pub record BatteryState (F : Type 0) : Type 0 where
  pub cumulative_ah_in : F
  pub cumulative_ah_out : F
  pub equivalent_full_cycles : F
  pub last_soc_pct : F
  pub last_v : F
  pub last_i : F
  pub last_update_ms : ℕ
  pub last_session_start_pct : F
  pub soh_pct : F
  pub soh_samples : ℕ
  pub last_full_discharge_ah : F

-- The bytes of a `float` and of a 32-bit number, and the values that the seed of a migration has.
pub record Layout (F : Type 0) : Type 0 where
  pub bytes : F → List ℕ
  pub of_bytes : List ℕ → F
  pub word_bytes : ℕ → List ℕ
  pub word_of_bytes : List ℕ → ℕ
  pub zero_float : F
  pub hundred : F

-- The rows of the store, and the bindings in memory.
pub record Battery : Type 0 where
  pub bindings : List ℕ
  pub bind_row : Option (List ℕ)
  pub bind_version_row : Option ℕ
  pub state_rows : ℕ → Option (List ℕ)

-- `state_get_locked`: a row is read only if it has the length of the buffer.
unfoldable pub state_get : ℕ → Option (List ℕ) → Option (List ℕ)
state_get max_len none = none
state_get max_len (some row) = if length row == max_len then some row else none

-- The bindings, all empty, with the row read over them when the version is right.
unfoldable pub init_battery_bindings : Battery → Battery
unfolding state_get
init_battery_bindings b =
    let cleared = replicate max_logical_channels no_binding in
    let read : List ℕ = elim (state_get max_logical_channels b.bind_row) [
      | none ↦ cleared
      | some row ↦ row
    ] in
    elim b.bind_version_row [
      | none ↦ record b { bindings = cleared }
      | some ver ↦ record b { bindings = if ver == bind_version then read else cleared }
    ]

unfoldable pub battery_channel_profile : ℕ → Battery → ℕ
battery_channel_profile channel b =
    if leb max_logical_channels channel then no_binding else get_or b.bindings channel no_binding

-- What the store does with the row of the bindings and then with its version.
pub data Taken : Type 0 where
  refused row_only both : Taken

abbrev pub row_taken : Taken → Bool
row_taken refused = false
row_taken row_only = true
row_taken both = true

unfoldable pub persist_bindings : Taken → Battery → Battery
persist_bindings refused b = b
persist_bindings row_only b = record b { bind_row = some b.bindings }
persist_bindings both b = record b {
  bind_row = some b.bindings;
  bind_version_row = some bind_version;
}

unfoldable pub battery_channel_set_profile : Taken → ℕ → ℕ → Battery → Bool × Battery
unfolding persist_bindings
battery_channel_set_profile w channel profile_id b =
    if leb max_logical_channels channel
    then (false, b)
    else if profile_id == no_binding
    then (false, b)
    else if leb max_profiles profile_id
    then (false, b)
    else (
      row_taken w,
      persist_bindings w (record b { bindings = set b.bindings channel profile_id }),
    )

unfoldable pub battery_channel_clear : Taken → ℕ → Battery → Battery
unfolding persist_bindings
battery_channel_clear w channel b =
    if leb max_logical_channels channel
    then b
    else persist_bindings w (record b { bindings = set b.bindings channel no_binding })

abbrev pub concat : List (List ℕ) → List ℕ
concat [] = []
concat (c ∷ cs) = c ++ concat cs

-- The four bytes of field `i`.
abbrev pub field : ℕ → List ℕ → List ℕ
field i body = take 4 (drop (4 * i) body)

module _ {F : Type 0} (l : Layout F) where
  abbrev pub empty_state : BatteryState F
  empty_state = record {
    cumulative_ah_in = l.zero_float;
    cumulative_ah_out = l.zero_float;
    equivalent_full_cycles = l.zero_float;
    last_soc_pct = l.zero_float;
    last_v = l.zero_float;
    last_i = l.zero_float;
    last_update_ms = 0;
    last_session_start_pct = l.zero_float;
    soh_pct = l.zero_float;
    soh_samples = 0;
    last_full_discharge_ah = l.zero_float;
  }

  -- The fields of a state as bytes, and `memcpy` from a state.
  abbrev pub chunks : BatteryState F → List (List ℕ)
  chunks x =
      l.bytes x.cumulative_ah_in
      ∷ l.bytes x.cumulative_ah_out
      ∷ l.bytes x.equivalent_full_cycles
      ∷ l.bytes x.last_soc_pct
      ∷ l.bytes x.last_v
      ∷ l.bytes x.last_i
      ∷ l.word_bytes x.last_update_ms
      ∷ l.bytes x.last_session_start_pct
      ∷ l.bytes x.soh_pct
      ∷ l.word_bytes x.soh_samples
      ∷ l.bytes x.last_full_discharge_ah
      ∷ []

  unfoldable pub encode : BatteryState F → List ℕ
  encode x = concat (chunks x)

  -- `memcpy` into a state, of the first eight fields.
  unfoldable pub migrate : List ℕ → BatteryState F
  migrate body = record {
    cumulative_ah_in = l.of_bytes (field 0 body);
    cumulative_ah_out = l.of_bytes (field 1 body);
    equivalent_full_cycles = l.of_bytes (field 2 body);
    last_soc_pct = l.of_bytes (field 3 body);
    last_v = l.of_bytes (field 4 body);
    last_i = l.of_bytes (field 5 body);
    last_update_ms = l.word_of_bytes (field 6 body);
    last_session_start_pct = l.of_bytes (field 7 body);
    soh_pct = l.hundred;
    soh_samples = 0;
    last_full_discharge_ah = l.zero_float;
  }

  -- And of all.
  unfoldable pub decode : List ℕ → BatteryState F
  unfolding migrate
  decode body = record (migrate body) {
    soh_pct = l.of_bytes (field 8 body);
    soh_samples = l.word_of_bytes (field 9 body);
    last_full_discharge_ah = l.of_bytes (field 10 body);
  }

  abbrev pub parse : ℕ → List ℕ → Option (BatteryState F)
  parse ver body =
      if ltb state_blob_version ver
      then none
      else if ver == state_blob_version
      then some (decode body)
      else if ver == 2
      then some (migrate body)
      else none

  unfoldable pub battery_state_load : ℕ → Battery → Option (BatteryState F)
  unfolding state_get decode migrate
  battery_state_load channel b =
      let row = state_get (1 + state_size) (b.state_rows channel) in
      let parsed : Option (BatteryState F) = elim row [
        | none ↦ none
        | some buf ↦ parse (get_or buf 0 0) (drop 1 buf)
      ] in
      if leb max_logical_channels channel then none else parsed

  unfoldable pub battery_state_save : Bool → ℕ → BatteryState F → Battery → Bool × Battery
  unfolding encode
  battery_state_save ok channel x b =
      let row = state_blob_version ∷ encode x in
      if leb max_logical_channels channel then (false, b) else (
        ok,
        (if ok then record b { state_rows = update b.state_rows channel (some row) } else b),
      )

  unfoldable pub battery_state_reset : Bool → ℕ → Battery → Battery
  unfolding battery_state_save
  battery_state_reset ok channel b =
      let saved = (battery_state_save ok channel empty_state b).1 in
      if leb max_logical_channels channel
      then b
      else record saved { state_rows = update saved.state_rows channel none }
