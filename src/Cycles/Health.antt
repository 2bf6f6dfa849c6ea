-- ===== src/Cycles/Health.antt =====
-- The charge and the health of every battery stay within 0 and 100.
-- What the other parts call.
use power_monitoring.Base.{
  ℕ, ◌<◌, ◌≡◌, true, not, Option, none, some, List, [], ◌∷◌, leb, ◌==◌, if◌then◌else◌, update, All,
  sub32, if_keeps, for_range, for_range-keeps,
}
use power_monitoring.Floats.{Float, lit, IsOrdered}
use power_monitoring.Sensors.{get_channel_current}
use power_monitoring.Battery.{
  max_logical_channels, no_binding, BatteryState, Layout, battery_channel_profile, empty_state,
  battery_state_reset,
}
use power_monitoring.Battery.Stored.{IsLayout}
use power_monitoring.Profiles.{Profile, battery_profile_get}
use power_monitoring.Cycles.State.{idle, next_direction, Cycles, Inputs, later}
use power_monitoring.Cycles.Legs.{classify, tick_state}
use power_monitoring.Cycles.Counter.{
  init_cycle_counter, persist_state, ensure_loaded, tick_channel, tick_profile, update_channel,
  persist_all, update_cycle_counter, cycle_counter_get, cycle_counter_put, cycle_counter_reset,
}
use power_monitoring.Cycles.Range.{IsScale, IsSound, tick_state-IsSound}
use power_monitoring.Cycles.Tick.{
  IsHealthy, empty-IsSound, reset-Loads, set-cached, persist_state-IsHealthy,
  ensure_loaded-IsHealthy,
}

pub data Call (F : Type 0) : Type 0 where
  tick : Inputs F → ℕ → F → Call F
  get : ℕ → Call F
  write_back : Inputs F → ℕ → BatteryState F → Call F
  reset : Inputs F → ℕ → Call F

module _ {F : Type 0} ⦃m : Float F⦄ where
  -- A clock reading of 32 bits, and a sound state to put.
  abbrev pub IsCall : Call F → Type 0
  IsCall (tick i now dt) = now < 4294967296
  IsCall (get ch) = Unit
  IsCall (write_back i ch st) = IsSound st
  IsCall (reset i ch) = Unit

module _ {F : Type 0} ⦃m : Float F⦄ (l : Layout F) where
  abbrev pub call : Call F → Cycles F → Cycles F
  call (tick i now dt) c = update_cycle_counter l i now dt c
  call (get ch) c = (cycle_counter_get l ch c).1
  call (write_back i ch st) c = cycle_counter_put l i ch st c
  call (reset i ch) c = cycle_counter_reset l i ch c

  abbrev pub call_all : List (Call F) → Cycles F → Cycles F
  call_all [] c = c
  call_all (x ∷ xs) c = call_all xs (call x c)

module _ {F : Type 0} ⦃m : Float F⦄ (o : IsOrdered F) (s : IsScale F) (l : Layout F)
    (h : IsLayout l) (z : l.zero_float ≡ lit 0 1) where
  tick_channel-IsHealthy :
      (i : Inputs F) (now : ℕ) (dt : F) (ch : ℕ) (bp : Profile F) (c : Cycles F)
      → now < 4294967296
      → IsHealthy l c
      → IsHealthy l (tick_channel l i now dt ch bp c)
  unfolding tick_channel
  tick_channel-IsHealthy i now dt ch bp c low k =
      let ready = ensure_loaded l ch c in
      let a = ensure_loaded-IsHealthy o s l h z ch c k in
      let r = tick_state i ch now dt bp (ready.last_dir ch) (ready.state ch) in
      let b =
        tick_state-IsSound o s i ch now dt bp (ready.last_dir ch) (ready.state ch) low
          (a.cached ch) in
      let done : Cycles F = record ready {
        state = update ready.state ch r.1;
        last_dir =
            update ready.last_dir ch
              (next_direction (ready.last_dir ch) (classify (get_channel_current i.snap ch)));
      } in
      let d : IsHealthy l done = record {
        cached = set-cached o s l h z ready.state ch r.1 a.cached b;
        stored = a.stored;
      } in
      if_keeps (IsHealthy l) r.0 (persist_state l i ch done) done
        (persist_state-IsHealthy o s l h z i ch done d) d

  tick_profile-IsHealthy :
      (i : Inputs F) (now : ℕ) (dt : F) (ch : ℕ) (bp : Option (Profile F)) (c : Cycles F)
      → now < 4294967296
      → IsHealthy l c
      → IsHealthy l (tick_profile l i now dt ch bp c)
  tick_profile-IsHealthy i now dt ch none c low k = k
  tick_profile-IsHealthy i now dt ch (some bp) c low k =
      tick_channel-IsHealthy i now dt ch bp c low k

  update_channel-IsHealthy :
      (i : Inputs F) (now : ℕ) (dt : F) (ch : ℕ) (c : Cycles F)
      → now < 4294967296
      → IsHealthy l c
      → IsHealthy l (update_channel l i now dt ch c)
  unfolding update_channel
  update_channel-IsHealthy i now dt ch c low k =
      let pid = battery_channel_profile ch c.battery in
      if_keeps (IsHealthy l) (pid == no_binding) c _ k
        (tick_profile-IsHealthy i now dt ch (battery_profile_get pid i.registry) c low k)

  persist_all-IsHealthy :
      (i : Inputs F) (c : Cycles F) → IsHealthy l c → IsHealthy l (persist_all l i c)
  unfolding persist_all
  persist_all-IsHealthy i c k =
      for_range-keeps (IsHealthy l)
        (λ ch d. if d.loaded ch then persist_state l (later i) ch d else d)
        (λ ch d g.
          if_keeps (IsHealthy l) (d.loaded ch) (persist_state l (later i) ch d) d
            (persist_state-IsHealthy o s l h z (later i) ch d g) g)
        16 0 c k

  update-IsHealthy :
      (i : Inputs F) (now : ℕ) (dt : F) (c : Cycles F)
      → now < 4294967296
      → IsHealthy l c
      → IsHealthy l (update_cycle_counter l i now dt c)
  unfolding update_cycle_counter init_cycle_counter
  update-IsHealthy i now dt c low k =
      let fresh : IsHealthy l (init_cycle_counter l now c) = record {
        cached = λ ch. empty-IsSound o s l h z;
        stored = k.stored;
      } in
      let ready = if not c.initialized then init_cycle_counter l now c else c in
      let a = if_keeps (IsHealthy l) (not c.initialized) (init_cycle_counter l now c) c fresh k in
      let ticked = for_range max_logical_channels 0 (update_channel l i now dt) ready in
      let b =
        for_range-keeps (IsHealthy l) (update_channel l i now dt)
          (λ ch d g. update_channel-IsHealthy i now dt ch d low g) 16 0 ready a in
      let p = persist_all-IsHealthy i ticked b in
      if_keeps (IsHealthy l) (leb 300000 (sub32 now ticked.last_persist_ms))
        (record (persist_all l i ticked) { last_persist_ms = now }) ticked
        (record { cached = p.cached; stored = p.stored }) b

  call-IsHealthy : (x : Call F) (c : Cycles F) → IsCall x → IsHealthy l c → IsHealthy l (call l x c)
  unfolding cycle_counter_get cycle_counter_put cycle_counter_reset
  call-IsHealthy (tick i now dt) c low k = update-IsHealthy i now dt c low k
  call-IsHealthy (get ch) c _ k =
      if_keeps (λ (r : Option (BatteryState F) × Cycles F). IsHealthy l r.1)
        (leb max_logical_channels ch) (none, c) _ k (ensure_loaded-IsHealthy o s l h z ch c k)
  call-IsHealthy (write_back i ch st) c sound k =
      let next : Cycles F = record c {
        state = update c.state ch st;
        loaded = update c.loaded ch true;
      } in
      if_keeps (IsHealthy l) (leb max_logical_channels ch) c (persist_state l i ch next) k (
        persist_state-IsHealthy o s l h z i ch next (record {
          cached = set-cached o s l h z c.state ch st k.cached sound;
          stored = k.stored;
        }))
  call-IsHealthy (reset i ch) c _ k =
      let cleared : Cycles F = record c {
        state = update c.state ch (empty_state l);
        last_dir = update c.last_dir ch idle;
        loaded = update c.loaded ch true;
      } in
      let cached =
        set-cached o s l h z c.state ch (empty_state l) k.cached (empty-IsSound o s l h z) in
      let wiped : Cycles F = record cleared {
        battery = battery_state_reset l (i.takes ch) ch c.battery;
      } in
      if_keeps (IsHealthy l) (leb max_logical_channels ch) c
        (if c.loaded ch then persist_state l i ch cleared else wiped) k
        (if_keeps (IsHealthy l) (c.loaded ch) (persist_state l i ch cleared) wiped
          (persist_state-IsHealthy o s l h z i ch cleared
            (record { cached = cached; stored = k.stored }))
          (record {
            cached = cached;
            stored = reset-Loads o s l h z (i.takes ch) ch c.battery k.stored;
          }))

  -- From states, in memory and in the store, whose charge and health are neither below 0 nor above
  -- 100: whatever ticks, reads, writes of such states and resets follow, with whatever readings,
  -- profiles and settings, and whether or not the store takes each write, they stay so.
  pub call_all-IsHealthy :
      (calls : List (Call F)) (c : Cycles F)
      → All IsCall calls
      → IsHealthy l c
      → IsHealthy l (call_all l calls c)
  call_all-IsHealthy [] c a k = k
  call_all-IsHealthy (x ∷ xs) c a k =
      call_all-IsHealthy xs (call l x c) a.1 (call-IsHealthy x c a.0 k)
