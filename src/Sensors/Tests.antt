-- ===== src/Sensors/Tests.antt =====
-- Runs of the channel lookup.
use power_monitoring.Base.{ℕ, ◌+◌, ◌≡◌, refl, false, some, [], ◌∷◌, arith}
use power_monitoring.Floats.{ℤ, pos, millionths}
use power_monitoring.Sensors.{
  PhysicalChannel, ina226, bl0939, PodState, SensorSnapshot, logical_channel,
}
use power_monitoring.Sensors.Lookup.{logical_channel-get_elem?}

abbrev channel : ℕ → PhysicalChannel ℤ
channel n = record {
  pod_id = 0;
  pod_channel = n;
  voltage = pos n;
  current = pos n;
  power = pos n;
  energy_wh = pos 0;
  coulomb_mah = pos 0;
  meta = record { stddev = pos 0; spike = false };
}

abbrev dc_pod : ℕ → PodState ℤ
dc_pod n = record { id = n; type = ina226; name = []; num_channels = 1; channels = channel n ∷ [] }

abbrev ac_pod : ℕ → PodState ℤ
ac_pod n = record {
  id = n;
  type = bl0939;
  name = [];
  num_channels = 2;
  channels = channel n ∷ channel (n + 1) ∷ [];
}

abbrev snapshot : SensorSnapshot ℤ
snapshot = record {
  timestamp_ms = 0;
  num_pods = 2;
  pods = ac_pod 5 ∷ dc_pod 7 ∷ [];
  total_logical_channels = 3;
}

logical_channel-get_elem?_example : logical_channel snapshot 2 ≡ some (channel 7)
logical_channel-get_elem?_example =
    logical_channel-get_elem? snapshot 2
      (record { counted = (refl, (refl, tt)); total = refl; small = omega arith })
