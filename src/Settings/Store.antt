-- ===== src/Settings/Store.antt =====
-- src/settings_manager.cpp, the rows of the switch controller, over a flash that takes every write:
-- each map gives what the load of that key returns.
use power_monitoring.Base.{ℕ, ◌+◌, refl, Bool, Option, some, arith, leb, if◌then◌else◌, update, u8}
use power_monitoring.Settings.{BatteryConfig, Settings, Retains}
use power_monitoring.Switches.Rule.{SwitchChannel, SwitchRule}

pub record Store (F : Type 0) : Type 0 where
  pub switch_count : ℕ
  pub channels : ℕ → Option SwitchChannel
  pub rules : ℕ → Option (SwitchRule F)
  pub auto_enabled : Bool
  pub batteries : ℕ → Option (BatteryConfig F)

module _ {F : Type 0} where
  -- A channel past the count raises the count, which is a byte.
  abbrev pub save_switch : ℕ → SwitchChannel → Store F → Store F
  save_switch i c s = record s {
    channels = update s.channels i (some c);
    switch_count = if leb s.switch_count i then u8 (i + 1) else s.switch_count;
  }

  abbrev pub save_switch_rule : ℕ → SwitchRule F → Store F → Store F
  save_switch_rule i r s = record s { rules = update s.rules i (some r) }

  abbrev pub save_auto_enabled : Bool → Store F → Store F
  save_auto_enabled b s = record s { auto_enabled = b }

  instance abbrev pub store_settings : Settings F (Store F)
  store_settings = record {
    load_switch_count = λ s. s.switch_count;
    load_switch = λ s. s.channels;
    save_switch = save_switch;
    load_switch_rule = λ s. s.rules;
    save_switch_rule = save_switch_rule;
    load_auto_enabled = λ s. s.auto_enabled;
    save_auto_enabled = save_auto_enabled;
    load_battery = λ s. s.batteries;
  }

  pub Store-Retains : Retains F (Store F) store_settings
  Store-Retains = record {
    load_switch-save = λ s i c. ground arith;
    load_switch-save_ne = λ s i j c ne. ground arith;
    load_switch-save_rule = λ s i j r. refl;
    load_rule-save = λ s i r. ground arith;
    load_rule-save_ne = λ s i j r ne. ground arith;
    load_rule-save_switch = λ s i j c. refl;
    load_switch-save_auto = λ s on i. refl;
    load_rule-save_auto = λ s on i. refl;
    load_count-save_auto = λ s on. refl;
  }
