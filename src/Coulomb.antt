-- ===== src/Coulomb.antt =====
-- src/coulomb_counter.cpp: the charge of each channel, in milliampere-hours. Its rows in the settings
-- are a function of the channel.
use power_monitoring.Base.{ℕ, ltb, leb, if◌then◌else◌, update, sub32, for_range}
use power_monitoring.Floats.{Float, lit, fadd, fmul, fdiv}
use power_monitoring.Sensors.{SensorSnapshot, get_channel_current}
use power_monitoring.Battery.{max_logical_channels}

pub record Coulomb (F : Type 0) : Type 0 where
  pub accumulated_mah : ℕ → F
  pub last_persist_ms : ℕ
  pub rows : ℕ → F

abbrev pub persist_interval_ms : ℕ
persist_interval_ms = 300000

-- `sensor_get_logical_channel_count`, at most MAX_LOGICAL_CHANNELS.
abbrev pub limit_channels : ℕ → ℕ
limit_channels count = if ltb max_logical_channels count then max_logical_channels else count

module _ {F : Type 0} ⦃m : Float F⦄ where
  unfoldable pub init_coulomb_counter : ℕ → ℕ → Coulomb F → Coulomb F
  unfolding for_range
  init_coulomb_counter count now c =
      let loaded =
        for_range (limit_channels count) 0
          (λ ch d. record d { accumulated_mah = update d.accumulated_mah ch (d.rows ch) }) c in
      record loaded { last_persist_ms = now }

  -- The tick; the snapshot is the one that `get_channel_current` reads.
  unfoldable pub update_coulomb_counter : ℕ → ℕ → F → SensorSnapshot F → Coulomb F → Coulomb F
  unfolding for_range
  update_coulomb_counter count now dt snap c =
      let added =
        for_range (limit_channels count) 0
          (λ ch d.
            let charge =
              fmul (fdiv (fmul (get_channel_current snap ch) dt) (lit 3600 1)) (lit 1000 1) in
            record d {
              accumulated_mah = update d.accumulated_mah ch (fadd (d.accumulated_mah ch) charge);
            })
          c in
      let saved =
        for_range (limit_channels count) 0
          (λ ch d. record d { rows = update d.rows ch (d.accumulated_mah ch) }) added in
      if leb persist_interval_ms (sub32 now added.last_persist_ms)
      then record saved { last_persist_ms = now }
      else added

  unfoldable pub get_coulomb_mah : Coulomb F → ℕ → F
  get_coulomb_mah c channel =
      if leb max_logical_channels channel then lit 0 1 else c.accumulated_mah channel

  unfoldable pub reset_coulomb_counter : ℕ → Coulomb F → Coulomb F
  reset_coulomb_counter channel c = if leb max_logical_channels channel then c else record c {
    accumulated_mah = update c.accumulated_mah channel (lit 0 1);
    rows = update c.rows channel (lit 0 1);
  }
