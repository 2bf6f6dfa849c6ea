-- ===== src/Settings.antt =====
-- What the switch controller asks of the settings layer (src/settings_manager.cpp), as an interface.
-- The layer reads and writes the flash through the Preferences library, so what a store is and
-- what a write does is left to an instance; the laws say what a load returns after a save. They
-- hold of a flash that takes every write: the source ignores what `putBytes` returns, and a write that
-- fails, after which a load answers the old row, is not modelled.
pub mod Store
use power_monitoring.Base.{
  ℕ, zero, suc, ◌+◌, ◌-◌, ◌*◌, ◌/◌, ◌%◌, ◌^◌, ◌≤◌, ◌<◌, ◌≡◌, refl, sym, ap, ◌∙◌, ◌≢◌, ◌⊎◌, inl, inr,
  Bool, true, false, not, ◌&&◌, ◌||◌, Option, none, some, List, [], ◌∷◌, ◌++◌, map, arith, ltb, leb,
  ◌==◌, if◌then◌else◌, ltb→lt, leb→le, ==-refl, ==→eq, Bool-cases, Option-cases, length, get_elem?,
  get_or, set, take, drop, replicate, update, length-append, length-set, length-replicate,
  get_or-set_self, get_or-set_ne, All, u8, u16, u32, sub32,
}
use power_monitoring.Switches.Rule.{SwitchChannel, SwitchRule}

pub record BatteryConfig (F : Type 0) : Type 0 where
  pub channel : ℕ
  pub capacity_mah : F
  pub initial_soc_pct : F

pub record Settings (F S : Type 0) : Type 0 where
  pub load_switch_count : S → ℕ
  pub load_switch : S → ℕ → Option SwitchChannel
  pub save_switch : ℕ → SwitchChannel → S → S
  pub load_switch_rule : S → ℕ → Option (SwitchRule F)
  pub save_switch_rule : ℕ → SwitchRule F → S → S
  pub load_auto_enabled : S → Bool
  pub save_auto_enabled : Bool → S → S
  pub load_battery : S → ℕ → Option (BatteryConfig F)

-- A successful write is read back, and does not touch what stands under another key.
pub record Retains (F S : Type 0) (p : Settings F S) : Type 0 where
  pub load_switch-save :
      (s : S) (i : ℕ) (c : SwitchChannel) → p.load_switch (p.save_switch i c s) i ≡ some c
  pub load_switch-save_ne :
      (s : S) (i j : ℕ) (c : SwitchChannel)
      → i ≢ j
      → p.load_switch (p.save_switch i c s) j ≡ p.load_switch s j
  pub load_switch-save_rule :
      (s : S) (i j : ℕ) (r : SwitchRule F)
      → p.load_switch (p.save_switch_rule i r s) j ≡ p.load_switch s j
  pub load_rule-save :
      (s : S) (i : ℕ) (r : SwitchRule F) → p.load_switch_rule (p.save_switch_rule i r s) i ≡ some r
  pub load_rule-save_ne :
      (s : S) (i j : ℕ) (r : SwitchRule F)
      → i ≢ j
      → p.load_switch_rule (p.save_switch_rule i r s) j ≡ p.load_switch_rule s j
  pub load_rule-save_switch :
      (s : S) (i j : ℕ) (c : SwitchChannel)
      → p.load_switch_rule (p.save_switch i c s) j ≡ p.load_switch_rule s j
  pub load_switch-save_auto :
      (s : S) (on : Bool) (i : ℕ) → p.load_switch (p.save_auto_enabled on s) i ≡ p.load_switch s i
  pub load_rule-save_auto :
      (s : S) (on : Bool) (i : ℕ)
      → p.load_switch_rule (p.save_auto_enabled on s) i ≡ p.load_switch_rule s i
  pub load_count-save_auto :
      (s : S) (on : Bool) → p.load_switch_count (p.save_auto_enabled on s) ≡ p.load_switch_count s
