-- ===== src/Provisioning/Accepts.antt =====
-- No lock-out lasts longer than an hour.
use power_monitoring.Base.{ℕ, ◌≤◌, ◌<◌, ◌≡◌, refl, true, false, ◌&&◌, List, arith, ltb, ◌==◌, sub32}
use power_monitoring.Provisioning.{
  Field, Provisioner, max_cooloff, cooloff_ms, provided, is_cooling, check_pin,
}

cooloff_le : (fails : ℕ) → cooloff_ms fails ≤ max_cooloff
unfolding cooloff_ms
cooloff_le fails = ground arith

-- Whatever failed before: a PIN that is right, an hour or more after the last failure, is accepted,
-- and the count of failures is 0 again.
pub check_pin-accepts :
    (atoi : List ℕ → ℕ) (now : ℕ) (pin : Field) (s : Provisioner)
    → 0 < s.ble_pin
    → provided atoi pin ≡ s.ble_pin
    → 3600000 ≤ sub32 now s.last_fail_ms
    → ((check_pin atoi now pin s).0 ≡ true) × ((check_pin atoi now pin s).1.fail_count ≡ 0)
unfolding check_pin is_cooling
check_pin-accepts atoi now pin s p e h =
    let set_up : (s.ble_pin == 0) ≡ false = ground (arith, p) in
    let right : (provided atoi pin == s.ble_pin) ≡ true = ground (arith, e) in
    let over : (ltb 0 s.fail_count && ltb (sub32 now s.last_fail_ms) (cooloff_ms s.fail_count))
        ≡ false =
      ground (arith, h, cooloff_le s.fail_count) in
    rw (set_up, right, over) (refl, refl)
