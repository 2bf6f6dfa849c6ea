-- ===== src/Provisioning/Tests.antt =====
-- Runs of the commands over Bluetooth, and witnesses.
use power_monitoring.Base.{ℕ, ◌+◌, ◌≤◌, ◌≡◌, refl, true, List, [], ◌∷◌, arith}
use power_monitoring.Provisioning.{
  Field, as_number, Command, protected, set_pin, ota_start, ota_set_backend_url, Request,
  Provisioner, cooloff_ms, provided, is_cooling, check_pin, renew_window, count_command,
  check_rate_limit, dispatch, handle_command,
}
use power_monitoring.Provisioning.Lockout.{total_wait, attempt_all, attempts-wait}
use power_monitoring.Provisioning.Accepts.{check_pin-accepts}
use power_monitoring.Provisioning.Access.{Protects, handle_all, strangers-Protects}
use power_monitoring.Provisioning.Guessing.{set_pin-unlimited}

-- Stands for the C library's function where no text is read.
abbrev no_atoi : List ℕ → ℕ
no_atoi t = 0

abbrev device : Provisioner
device = record {
  ble_pin = 123456;
  fail_count = 0;
  last_fail_ms = 0;
  rate_window_start = 0;
  rate_cmd_count = 0;
  rate_last_cmd = 0;
  poll_interval = 3600;
  backend_url = [];
  replies = [];
}

-- Three wrong PINs, of which the second comes within two seconds of the first.
abbrev guesses : List (ℕ × Field)
guesses = (10000, as_number 1) ∷ (11000, as_number 2) ∷ (12000, as_number 3) ∷ []

counted : (attempt_all no_atoi guesses device).fail_count ≡ 2
unfolding check_pin is_cooling cooloff_ms provided
counted = refl

ten_wrong : total_wait 10 ≡ 1022000
ten_wrong = refl

attempts-wait_example : total_wait (attempt_all no_atoi guesses device).fail_count + 10000 ≤ 12000
unfolding provided
attempts-wait_example =
    attempts-wait no_atoi 10000 guesses device (omega arith)
      (omega arith, (omega arith, (omega arith, (omega arith, (omega arith, (omega arith, tt))))))
      (refl, (refl, (refl, tt))) refl

abbrev locked : Provisioner
locked = record device { fail_count = 20; last_fail_ms = 5000 }

check_pin-accepts_example :
    ((check_pin no_atoi 3700000 (as_number 123456) locked).0 ≡ true)
    × ((check_pin no_atoi 3700000 (as_number 123456) locked).1.fail_count ≡ 0)
unfolding provided
check_pin-accepts_example =
    check_pin-accepts no_atoi 3700000 (as_number 123456) locked (omega arith) refl (omega arith)

abbrev request : Command → ℕ → Request
request c n = record {
  cmd = c;
  pin = as_number n;
  old_pin = as_number n;
  new_pin = as_number 42;
  interval = as_number 0;
  url = 104 ∷ 116 ∷ [];
}

strangers-Protects_example : Protects device (
    handle_all no_atoi
      ((500, request set_pin 7) ∷ (900, request (protected 1) 8) ∷ (1500, request ota_start 9) ∷ [])
      device)
unfolding provided
strangers-Protects_example =
    strangers-Protects no_atoi
      ((500, request set_pin 7) ∷ (900, request (protected 1) 8) ∷ (1500, request ota_start 9) ∷ [])
      device (omega arith)
      (
        record { wrong_pin = refl; wrong_old_pin = refl },
        (
          record { wrong_pin = refl; wrong_old_pin = refl },
          (record { wrong_pin = refl; wrong_old_pin = refl }, tt),
        ),
      )

abbrev pin_guesses : List (ℕ × Request)
pin_guesses = (500, request set_pin 1) ∷ (600, request set_pin 2) ∷ []

set_pin-unlimited_example :
    let s' = handle_all no_atoi pin_guesses device in
    (s'.fail_count ≡ 0)
    × ((s'.last_fail_ms ≡ 0)
        × ((handle_command no_atoi 700 (request set_pin 123456) s').ble_pin ≡ 42))
set_pin-unlimited_example =
    set_pin-unlimited no_atoi pin_guesses 700 (request set_pin 123456) device (omega arith)
      (omega arith, (omega arith, (omega arith, tt)))
      (
        record { is_set_pin = refl; is_wrong = refl },
        (record { is_set_pin = refl; is_wrong = refl }, tt),
      )
      refl refl (omega arith) (omega arith)

-- The server of updates is replaced without a PIN.
url_replaced :
    (handle_command no_atoi 500 (request ota_set_backend_url 0) device).backend_url ≡ 104 ∷ 116 ∷ []
unfolding handle_command check_rate_limit renew_window count_command dispatch
url_replaced = refl
