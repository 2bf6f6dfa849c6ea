-- ===== src/Identity/Tests.antt =====
-- Runs of starts and shutdowns, and a witness.
use power_monitoring.Base.{ℕ, ◌+◌, ◌≤◌, ◌≡◌, refl, true, false, none, List, [], ◌∷◌, arith}
use power_monitoring.Identity.{
  Identity, generate_serial, load_serial, count_boot, init_device_identity, mark_clean_shutdown,
  is_safe_mode,
}
use power_monitoring.Identity.Boots.{Life, start, mark, live_all, stored_count, live_all-counts}

abbrev fresh : Identity
fresh = record {
  serial_row = none;
  crash_row = none;
  clean_row = none;
  serial = [];
  crash_count = 0;
  initialized = false;
}

abbrev mac : List ℕ
mac = 170 ∷ 187 ∷ 204 ∷ 1 ∷ 2 ∷ 3 ∷ []

serial_of :
    generate_serial mac
    ≡ 80 ∷ 77 ∷ 45 ∷ 65 ∷ 65 ∷ 66 ∷ 66 ∷ 67 ∷ 67 ∷ 48 ∷ 49 ∷ 48 ∷ 50 ∷ 48 ∷ 51 ∷ []
unfolding generate_serial
serial_of = refl

-- Five starts after power cuts, however far apart, and then a clean restart: still safe mode.
abbrev cuts : List Life
cuts = start ∷ start ∷ start ∷ start ∷ start ∷ mark ∷ start ∷ []

still_safe : is_safe_mode (live_all mac cuts fresh) ≡ true
unfolding init_device_identity load_serial count_boot mark_clean_shutdown generate_serial
still_safe = refl

live_all-counts_example :
    let k = stored_count (live_all mac cuts fresh) in (6 + 0 ≤ k + 1 + 0) × (k ≤ 0 + 6)
live_all-counts_example = live_all-counts mac cuts fresh (omega arith)
