-- ===== src/Ota/Tests.antt =====
-- Runs of the update client, and witnesses.
use power_monitoring.Base.{ℕ, ◌≡◌, refl, ◌≢◌, true, some, List, [], ◌∷◌, arith}
use power_monitoring.Ota.State.{applying, Ota, Answers, to_hex, same_ignoring_case}
use power_monitoring.Ota.Client.{init_ota_client, loop_ota_client}
use power_monitoring.Ota.Inv.{IsSound, powered_on, tick, happen_all, client-IsSound}
use power_monitoring.Ota.Verified.{boots, IsVerified, boots-IsVerified}

-- Stands for the hash: the bytes themselves.
abbrev sha256 : List ℕ → List ℕ
sha256 bytes = bytes

abbrev answers : Answers
answers = record {
  wifi_connected = true;
  now = 400000;
  backend_url = true;
  check_begin = true;
  check_code = 200;
  reply = some (record {
    update_available = true;
    version = 50 ∷ [];
    sha256 = 97 ∷ 49 ∷ 48 ∷ 70 ∷ [];
    binary_size = 2;
    poll_interval_seconds = 0;
    binary_url = 1 ∷ [];
  });
  binary_begin = true;
  binary_code = 200;
  partition_found = true;
  begin_ok = true;
  stream = true;
  chunk = 161 ∷ 15 ∷ [];
  connected = true;
  write_ok = true;
  end_ok = true;
  boot_ok = true;
}

-- The poll is due, one chunk brings the image.
abbrev ready : Ota
ready = happen_all sha256 (tick answers ∷ tick answers ∷ []) (init_ota_client 300 7 powered_on)

ready_applying : ready.state ≡ applying
unfolding loop_ota_client init_ota_client
ready_applying = refl

boots_before : boots ready.calls ≡ 0
unfolding loop_ota_client init_ota_client
boots_before = refl

-- The partition is set, and the device restarts.
boots_after : boots (loop_ota_client sha256 answers ready).calls ≡ 2
unfolding loop_ota_client init_ota_client same_ignoring_case to_hex
boots_after = refl

booted : boots (loop_ota_client sha256 answers ready).calls ≢ boots ready.calls
booted e = omega (arith, e, boots_before, boots_after)

client-IsSound_example :
    IsSound
      (happen_all sha256 (tick answers ∷ tick answers ∷ []) (init_ota_client 300 7 powered_on))
client-IsSound_example = client-IsSound sha256 300 7 (tick answers ∷ tick answers ∷ [])

boots-IsVerified_example : IsVerified sha256 ready
boots-IsVerified_example =
    boots-IsVerified sha256 answers ready
      (client-IsSound sha256 300 7 (tick answers ∷ tick answers ∷ [])) booted
