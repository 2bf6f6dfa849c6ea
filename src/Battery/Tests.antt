-- ===== src/Battery/Tests.antt =====
-- Runs of the stored battery rows, over numbers that are one byte and three zeros, and witnesses.
use power_monitoring.Base.{
  ℕ, ◌+◌, ◌*◌, ◌/◌, ◌%◌, ◌≡◌, refl, true, ◌&&◌, none, some, List, [], ◌∷◌, arith, ◌==◌,
  if◌then◌else◌, get_or, replicate,
}
use power_monitoring.Battery.{
  max_logical_channels, no_binding, Layout, Battery, state_get, init_battery_bindings,
  battery_channel_profile, both, battery_channel_set_profile, empty_state, battery_state_load,
  battery_state_save,
}
use power_monitoring.Battery.Stored.{IsLayout, bindings-restart, load-save}

abbrev nothing : Battery
nothing = record {
  bindings = replicate max_logical_channels no_binding;
  bind_row = none;
  bind_version_row = none;
  state_rows = λ _. none;
}

-- A row of version 2, of zeros.
abbrev old_row : List ℕ
old_row = 2 ∷ replicate 68 0

abbrev with_old : Battery
with_old = record nothing { state_rows = λ _. some old_row }

-- The layout of a 32-bit number: its bytes, lowest first.
abbrev to_bytes : ℕ → List ℕ
to_bytes n = n % 256 ∷ n / 256 % 256 ∷ n / 65536 % 256 ∷ n / 16777216 ∷ []

abbrev of_four : List ℕ → ℕ
of_four bs = get_or bs 0 0 + 256 * get_or bs 1 0 + 65536 * get_or bs 2 0 + 16777216 * get_or bs 3 0

abbrev words : Layout ℕ
words = record {
  bytes = to_bytes;
  of_bytes = of_four;
  word_bytes = to_bytes;
  word_of_bytes = of_four;
  zero_float = 0;
  hundred = 100;
}

words-IsLayout : IsLayout words
words-IsLayout = record {
  length_bytes = λ x. refl;
  length_word = λ n. refl;
  of_bytes-bytes = λ x. omega arith;
  word-word = λ n h. omega arith;
}

-- A row of version 2 is not migrated: its length is not that of the buffer.
old_row_lost : battery_state_load words 5 with_old ≡ none
unfolding battery_state_load state_get
old_row_lost = refl

bindings-restart_example :
    battery_channel_profile 3
      (init_battery_bindings (battery_channel_set_profile both 3 9 nothing).1)
    ≡ (if 3 == 3 then 9 else battery_channel_profile 3 nothing)
bindings-restart_example = bindings-restart 3 9 3 nothing refl (omega arith) (omega arith)

load-save_example :
    battery_state_load words 2 (battery_state_save words true 2 (empty_state words) nothing).1
    ≡ (if true && 2 == 2 then some (empty_state words) else battery_state_load words 2 nothing)
load-save_example =
    load-save words true 2 2 (empty_state words) nothing words-IsLayout (omega arith) (omega arith)
      (omega arith)
