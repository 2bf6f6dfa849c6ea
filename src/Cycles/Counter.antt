-- ===== src/Cycles/Counter.antt =====
-- The operations of the cycle counter on all channels, with loading and saving.
use power_monitoring.Base.{
  ℕ, Bool, true, false, not, Option, none, some, leb, ◌==◌, if◌then◌else◌, update, sub32, for_range,
}
use power_monitoring.Floats.{Float, lit, neg}
use power_monitoring.Sensors.{get_channel_current}
use power_monitoring.Battery.{
  max_logical_channels, no_binding, BatteryState, Layout, battery_channel_profile, field,
  empty_state, battery_state_load, battery_state_save, battery_state_reset,
}
use power_monitoring.Profiles.{Profile, battery_profile_get}
use power_monitoring.Cycles.State.{idle, next_direction, Cycles, Inputs, later}
use power_monitoring.Cycles.Legs.{classify, tick_state}

module _ {F : Type 0} ⦃m : Float F⦄ (l : Layout F) where
  unfoldable pub init_cycle_counter : ℕ → Cycles F → Cycles F
  init_cycle_counter now c = record c {
    state = λ ch. empty_state l;
    loaded = λ ch. false;
    last_dir = λ ch. idle;
    last_persist_ms = now;
    initialized = true;
  }

  unfoldable pub persist_state : Inputs F → ℕ → Cycles F → Cycles F
  persist_state i ch c = record c {
    battery = (battery_state_save l (i.takes ch) ch (c.state ch) c.battery).1;
  }

  -- The state from the store, or an empty one.
  abbrev pub or_empty : Option (BatteryState F) → BatteryState F
  or_empty none = empty_state l
  or_empty (some st) = st

  unfoldable pub ensure_loaded : ℕ → Cycles F → Cycles F
  ensure_loaded ch c = if c.loaded ch then c else record c {
    state = update c.state ch (or_empty (battery_state_load l ch c.battery));
    loaded = update c.loaded ch true;
    last_dir = update c.last_dir ch idle;
  }

  -- The tick of a channel with a profile.
  unfoldable pub tick_channel : Inputs F → ℕ → F → ℕ → Profile F → Cycles F → Cycles F
  unfolding ensure_loaded tick_state persist_state
  tick_channel i now dt ch bp c =
      let ready = ensure_loaded ch c in
      let last = ready.last_dir ch in
      let (crossed, st) = tick_state i ch now dt bp last (ready.state ch) in
      let new = classify (get_channel_current i.snap ch) in
      let done = record ready {
        state = update ready.state ch st;
        last_dir = update ready.last_dir ch (next_direction last new);
      } in
      if crossed then persist_state i ch done else done

  abbrev pub tick_profile : Inputs F → ℕ → F → ℕ → Option (Profile F) → Cycles F → Cycles F
  tick_profile i now dt ch none c = c
  tick_profile i now dt ch (some bp) c = tick_channel i now dt ch bp c

  unfoldable pub update_channel : Inputs F → ℕ → F → ℕ → Cycles F → Cycles F
  unfolding tick_channel
  update_channel i now dt ch c =
      let pid = battery_channel_profile ch c.battery in
      if pid == no_binding
      then c
      else tick_profile i now dt ch (battery_profile_get pid i.registry) c

  unfoldable pub persist_all : Inputs F → Cycles F → Cycles F
  unfolding persist_state for_range
  persist_all i c =
      for_range max_logical_channels 0
        (λ ch d. if d.loaded ch then persist_state (later i) ch d else d) c

  unfoldable pub update_cycle_counter : Inputs F → ℕ → F → Cycles F → Cycles F
  unfolding init_cycle_counter update_channel persist_all for_range
  update_cycle_counter i now dt c =
      let ready = if not c.initialized then init_cycle_counter now c else c in
      let ticked = for_range max_logical_channels 0 (update_channel i now dt) ready in
      if leb 300000 (sub32 now ticked.last_persist_ms)
      then record (persist_all i ticked) { last_persist_ms = now }
      else ticked

  -- The answer is empty for a channel out of range, whose caller's copy is left alone.
  unfoldable pub cycle_counter_get : ℕ → Cycles F → Option (BatteryState F) × Cycles F
  unfolding ensure_loaded
  cycle_counter_get channel c =
      let ready = ensure_loaded channel c in
      if leb max_logical_channels channel then (none, c) else (some (ready.state channel), ready)

  abbrev pub cycle_counter_snapshot : ℕ → Cycles F → Option (BatteryState F) × Cycles F
  cycle_counter_snapshot = cycle_counter_get

  unfoldable pub cycle_counter_put : Inputs F → ℕ → BatteryState F → Cycles F → Cycles F
  unfolding persist_state
  cycle_counter_put i channel st c =
      if leb max_logical_channels channel
      then c
      else persist_state i channel
          (record c { state = update c.state channel st; loaded = update c.loaded channel true })

  unfoldable pub cycle_counter_reset : Inputs F → ℕ → Cycles F → Cycles F
  unfolding persist_state
  cycle_counter_reset i channel c =
      let cleared = record c {
        state = update c.state channel (empty_state l);
        last_dir = update c.last_dir channel idle;
        loaded = update c.loaded channel true;
      } in
      if leb max_logical_channels channel
      then c
      else if c.loaded channel
      then persist_state i channel cleared
      else record cleared { battery = battery_state_reset l (i.takes channel) channel c.battery }

  unfoldable pub cycle_counter_is_active : ℕ → Cycles F → Bool
  cycle_counter_is_active channel c =
      if leb max_logical_channels channel
      then false
      else not (battery_channel_profile channel c.battery == no_binding)

  -- The getters of one field: `absent` is the answer for a channel that has no profile.
  unfoldable pub get_field : {A : Type 0} → (BatteryState F → A) → A → ℕ → Cycles F → A × Cycles F
  unfolding cycle_counter_is_active ensure_loaded
  get_field field absent channel c =
      let ready = ensure_loaded channel c in
      if not (cycle_counter_is_active channel c)
      then (absent, c)
      else (field (ready.state channel), ready)

  abbrev pub cycle_counter_get_equivalent_full_cycles : ℕ → Cycles F → F × Cycles F
  cycle_counter_get_equivalent_full_cycles = get_field (λ st. st.equivalent_full_cycles) (lit 0 1)

  abbrev pub cycle_counter_get_cumulative_ah_in : ℕ → Cycles F → F × Cycles F
  cycle_counter_get_cumulative_ah_in = get_field (λ st. st.cumulative_ah_in) (lit 0 1)

  abbrev pub cycle_counter_get_cumulative_ah_out : ℕ → Cycles F → F × Cycles F
  cycle_counter_get_cumulative_ah_out = get_field (λ st. st.cumulative_ah_out) (lit 0 1)

  abbrev pub cycle_counter_get_last_soc_pct : ℕ → Cycles F → F × Cycles F
  cycle_counter_get_last_soc_pct = get_field (λ st. st.last_soc_pct) (neg (lit 1 1))

  abbrev pub cycle_counter_get_last_voltage : ℕ → Cycles F → F × Cycles F
  cycle_counter_get_last_voltage = get_field (λ st. st.last_v) (lit 0 1)

  abbrev pub cycle_counter_get_last_current : ℕ → Cycles F → F × Cycles F
  cycle_counter_get_last_current = get_field (λ st. st.last_i) (lit 0 1)

  abbrev pub cycle_counter_get_last_update_ms : ℕ → Cycles F → ℕ × Cycles F
  cycle_counter_get_last_update_ms = get_field (λ st. st.last_update_ms) 0
