-- ===== src/Cycles/Tick.antt =====
-- Loading and saving keep every battery state sound, in memory and in the store.
use mathlib.Core.Path.{subst}
-- Every state in memory, and every state that can be loaded, is sound.
use power_monitoring.Base.{
  ℕ, ◌≡◌, refl, sym, ap, ◌∙◌, inl, inr, Bool, true, ◌&&◌, Option, none, some, arith, ltb, leb, ◌==◌,
  if◌then◌else◌, ltb→lt, Bool-cases, update, if_keeps,
}
use power_monitoring.Floats.{Float, lit, IsOrdered}
use power_monitoring.Battery.{
  max_logical_channels, BatteryState, Layout, Battery, state_get, empty_state, battery_state_load,
  battery_state_save, battery_state_reset,
}
use power_monitoring.Battery.Stored.{IsLayout, load-save}
use power_monitoring.Cycles.State.{Cycles, Inputs}
use power_monitoring.Cycles.Counter.{persist_state, or_empty, ensure_loaded}
use power_monitoring.Cycles.Range.{IsScale, IsSound, zero-IsPercent}

pub record IsHealthy {F : Type 0} ⦃m : Float F⦄ (l : Layout F) (c : Cycles F) : Type 0 where
  pub cached : (ch : ℕ) → IsSound (c.state ch)
  pub stored :
      (ch : ℕ) (st : BatteryState F) → battery_state_load l ch c.battery ≡ some st → IsSound st

module _ {F : Type 0} ⦃m : Float F⦄ (o : IsOrdered F) (s : IsScale F) (l : Layout F)
    (h : IsLayout l) (z : l.zero_float ≡ lit 0 1) where
  pub empty-IsSound : IsSound (empty_state l)
  empty-IsSound = rw z (record {
    soc = zero-IsPercent o s;
    soh = zero-IsPercent o s;
    in_time = omega arith;
    in_count = omega arith;
  })

  abbrev pub Loads : Battery → Type 0
  Loads b = (ch : ℕ) (st : BatteryState F) → battery_state_load l ch b ≡ some st → IsSound st

  -- A sound state that is loaded.
  loaded-IsSound : (x st : BatteryState F) → IsSound x → some x ≡ some st → IsSound st
  loaded-IsSound x st k e = subst IsSound (ap or_default e) k
    where
      or_default : Option (BatteryState F) → BatteryState F
      or_default none = x
      or_default (some y) = y

  save_out :
      (ok : Bool) (channel : ℕ) (x : BatteryState F) (b : Battery)
      → leb max_logical_channels channel ≡ true
      → (battery_state_save l ok channel x b).1 ≡ b
  unfolding battery_state_save
  save_out ok channel x b e = rw e refl

  pub save-Loads :
      (ok : Bool) (channel : ℕ) (x : BatteryState F) (b : Battery)
      → IsSound x
      → Loads b
      → Loads (battery_state_save l ok channel x b).1
  save-Loads ok channel x b k loads other st e =
      elim (Bool-cases (ltb channel max_logical_channels)) [
        | inl low ↦
            let read =
              load-save l ok channel other x b h (ltb→lt channel 16 low) k.in_time k.in_count in
            if_keeps (λ (r : Option (BatteryState F)). r ≡ some st → IsSound st)
              (ok && channel == other) (some x) (battery_state_load l other b)
              (loaded-IsSound x st k) (loads other st) (sym read ∙ e)
        | inr high ↦ loads other st (
            sym (ap (battery_state_load l other) (save_out ok channel x b (ground (arith, high))))
            ∙ e)
      ]

  -- Without its row a channel has nothing to load.
  erased_load :
      (channel other : ℕ) (b : Battery)
      → battery_state_load l other (record b { state_rows = update b.state_rows channel none })
        ≡ (if channel == other then none else battery_state_load l other b)
  unfolding battery_state_load state_get
  erased_load channel other b = elim (Bool-cases (channel == other)) [
    | inl e ↦ rw e (
        if_keeps (λ (r : Option (BatteryState F)). r ≡ none) (leb max_logical_channels other) none
          none refl refl)
    | inr e ↦ rw e refl
  ]

  pub reset-Loads :
      (ok : Bool) (channel : ℕ) (b : Battery) → Loads b → Loads (battery_state_reset l ok channel b)
  unfolding battery_state_reset
  reset-Loads ok channel b loads =
      let saved = (battery_state_save l ok channel (empty_state l) b).1 in
      let k = save-Loads ok channel (empty_state l) b empty-IsSound loads in
      if_keeps Loads (leb max_logical_channels channel) b
        (record saved { state_rows = update saved.state_rows channel none }) loads
        (λ other st e.
          if_keeps (λ (r : Option (BatteryState F)). r ≡ some st → IsSound st) (channel == other)
            none (battery_state_load l other saved) (λ q. absurd (ground (arith, q))) (k other st)
            (sym (erased_load channel other saved) ∙ e))

  pub set-cached :
      (f : ℕ → BatteryState F) (ch : ℕ) (x : BatteryState F)
      → ((j : ℕ) → IsSound (f j))
      → IsSound x
      → (j : ℕ) → IsSound (update f ch x j)
  set-cached f ch x all k j = if_keeps IsSound (ch == j) x (f j) k (all j)

  pub persist_state-IsHealthy :
      (i : Inputs F) (ch : ℕ) (c : Cycles F) → IsHealthy l c → IsHealthy l (persist_state l i ch c)
  unfolding persist_state
  persist_state-IsHealthy i ch c k = record {
    cached = k.cached;
    stored = save-Loads (i.takes ch) ch (c.state ch) c.battery (k.cached ch) k.stored;
  }

  pub ensure_loaded-IsHealthy :
      (ch : ℕ) (c : Cycles F) → IsHealthy l c → IsHealthy l (ensure_loaded l ch c)
  unfolding ensure_loaded
  ensure_loaded-IsHealthy ch c k = if_keeps (IsHealthy l) (c.loaded ch) c _ k (record {
    cached =
        set-cached c.state ch _ k.cached (read (battery_state_load l ch c.battery) (k.stored ch));
    stored = k.stored;
  })
    where
      read :
          (found : Option (BatteryState F))
          → ((st : BatteryState F) → found ≡ some st → IsSound st)
          → IsSound (or_empty l found)
      read none all = empty-IsSound
      read (some st) all = all st refl
