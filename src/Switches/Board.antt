-- ===== src/Switches/Board.antt =====
-- include/boards/*.h and the check of a pin number in src/switch_controller.cpp.
use power_monitoring.Base.{ℕ, Bool, false, not, ◌&&◌, ◌||◌, List, [], ◌∷◌, leb, ◌==◌}

-- What a board header fixes for the switch controller.
pub record Board : Type 0 where
  pub gpio_max : ℕ
  pub bad_pins : List ℕ
  pub default_pins : List ℕ

abbrev pub esp32dev : Board
esp32dev = record {
  gpio_max = 39;
  bad_pins = 0 ∷ 1 ∷ 3 ∷ 6 ∷ 7 ∷ 8 ∷ 9 ∷ 10 ∷ 11 ∷ 12 ∷ 15 ∷ [];
  default_pins = 25 ∷ 26 ∷ 27 ∷ 14 ∷ [];
}

abbrev pub esp32c3 : Board
esp32c3 = record {
  gpio_max = 21;
  bad_pins = 0 ∷ 2 ∷ 8 ∷ 9 ∷ 18 ∷ 19 ∷ 20 ∷ 21 ∷ [];
  default_pins = 1 ∷ 3 ∷ 4 ∷ 7 ∷ [];
}

abbrev pub esp32s3 : Board
esp32s3 = record {
  gpio_max = 48;
  bad_pins =
      0 ∷ 3 ∷ 19 ∷ 20 ∷ 26 ∷ 27 ∷ 28 ∷ 29 ∷ 30 ∷ 31 ∷ 32 ∷ 33 ∷ 34 ∷ 35 ∷ 36 ∷ 37 ∷ 45 ∷ 46 ∷ [];
  default_pins = 10 ∷ 11 ∷ 12 ∷ 13 ∷ [];
}

-- The loop over the denylist.
unfoldable pub denied : ℕ → List ℕ → Bool
denied pin [] = false
denied pin (bad ∷ rest) = pin == bad || denied pin rest

-- The argument is an `int8_t`, to which the callers' `uint8_t` from 128 on converts as negative.
unfoldable pub gpio_in_range : Board → ℕ → Bool
unfolding denied
gpio_in_range board pin = leb pin 127 && leb pin board.gpio_max && not (denied pin board.bad_pins)

-- The one-shot log is left out.
unfoldable pub switch_gpio_allowed : Board → ℕ → Bool
unfolding gpio_in_range
switch_gpio_allowed board pin = gpio_in_range board pin
