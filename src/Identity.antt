-- ===== src/Identity.antt =====
-- src/device_identity.cpp: the serial number and the count of crashes. The rows of the settings are
-- options; the address of the network card is a parameter. The revision is a constant of the build.
mod Boots
mod Tests
use power_monitoring.Base.{
  ℕ, ◌+◌, ◌-◌, ◌/◌, ◌%◌, Bool, true, false, not, Option, none, some, List, [], ◌∷◌, ltb, leb, ◌==◌,
  if◌then◌else◌, length, take, u32,
}

pub record Identity : Type 0 where
  pub serial_row : Option (List ℕ)
  pub crash_row : Option ℕ
  pub clean_row : Option Bool
  pub serial : List ℕ
  pub crash_count : ℕ
  pub initialized : Bool

abbrev pub serial_max_len : ℕ
serial_max_len = 24

-- An upper-case hexadecimal digit, and `%02X`.
abbrev pub hex_upper : ℕ → ℕ
hex_upper n = if ltb n 10 then 48 + n else 55 + n

abbrev pub hex_bytes : List ℕ → List ℕ
hex_bytes [] = []
hex_bytes (b ∷ bs) = hex_upper (b / 16 % 16) ∷ hex_upper (b % 16) ∷ hex_bytes bs

-- "PM-" and the address, cut to the buffer.
unfoldable pub generate_serial : List ℕ → List ℕ
generate_serial mac = take (serial_max_len - 1) (80 ∷ 77 ∷ 45 ∷ hex_bytes mac)

abbrev pub row_or {ℓ} : {A : Type ℓ} → A → Option A → A
row_or d none = d
row_or d (some x) = x

unfoldable pub load_serial : List ℕ → Identity → Identity
unfolding generate_serial
load_serial mac i =
    let stored = row_or [] i.serial_row in
    let made = generate_serial mac in
    if length stored == 0
    then record i { serial = made; serial_row = some made }
    else record i { serial = take (serial_max_len - 1) stored }

unfoldable pub count_boot : Identity → Identity
count_boot i =
    let clean = row_or false i.clean_row in
    let before = row_or 0 i.crash_row in
    let count = if not clean then u32 (before + 1) else before in
    record i { crash_count = count; crash_row = some count; clean_row = some false }

unfoldable pub init_device_identity : List ℕ → Identity → Identity
unfolding load_serial count_boot
init_device_identity mac i =
    if i.initialized then i else record (count_boot (load_serial mac i)) { initialized = true }

unfoldable pub get_crash_count : List ℕ → Identity → ℕ × Identity
unfolding init_device_identity
get_crash_count mac i = let i' = init_device_identity mac i in (i'.crash_count, i')

unfoldable pub get_device_serial : List ℕ → Identity → List ℕ × Identity
unfolding init_device_identity
get_device_serial mac i = let i' = init_device_identity mac i in (i'.serial, i')

unfoldable pub reset_crash_count : Identity → Identity
reset_crash_count i = record i { crash_count = 0; crash_row = some 0 }

unfoldable pub mark_clean_shutdown : Identity → Identity
mark_clean_shutdown i = record i { clean_row = some true }

-- The test of `setup` in src/main.cpp.
abbrev pub is_safe_mode : Identity → Bool
is_safe_mode i = leb 5 i.crash_count

-- What a restart leaves: the rows.
abbrev pub power_off : Identity → Identity
power_off i = record i { serial = []; crash_count = 0; initialized = false }
