-- ===== src/Expander.antt =====
-- src/pcf8574at.cpp: the driver of the 8-bit I2C output expander.
-- `Wire` is the Arduino I2C library. Of it the driver uses the code that `endTransmission` returns,
-- and the byte that a read delivers: both are parameters.
pub mod Shadow
mod Tests
use Prim.Native.Nat.{bit_and, bit_or}
use power_monitoring.Base.{
  ℕ, zero, suc, ◌+◌, ◌-◌, ◌*◌, ◌/◌, ◌%◌, ◌^◌, ◌≤◌, ◌<◌, ◌≡◌, refl, sym, ap, ◌∙◌, ◌≢◌, ◌⊎◌, inl, inr,
  Bool, true, false, not, ◌&&◌, ◌||◌, Option, none, some, List, [], ◌∷◌, ◌++◌, map, arith, ltb, leb,
  ◌==◌, if◌then◌else◌, ltb→lt, leb→le, ==-refl, ==→eq, Bool-cases, Option-cases, length, get_elem?,
  get_or, set, take, drop, replicate, update, length-append, length-set, length-replicate,
  get_or-set_self, get_or-set_ne, All, u8, u16, u32, sub32,
}

-- What the n-th transmission of a byte to an address returns; 0 is success.
abbrev pub Wire : Type 0
Wire = ℕ → ℕ → ℕ → ℕ

-- A transmission: the address, the byte, and the code that it returned.
pub record Transmission : Type 0 where
  pub address : ℕ
  pub byte : ℕ
  pub code : ℕ

-- The static variables of the driver, and the bus traffic so far, newest first.
pub record Expander : Type 0 where
  pub addr : ℕ
  pub inited : Bool
  pub shadow : ℕ
  pub sent : List Transmission

abbrev pub addr_default : ℕ
addr_default = 0x3f

abbrev pub power_on : Expander
power_on = record { addr = addr_default; inited = false; shadow = 0; sent = [] }

-- `next |= (1 << pin)` and `next &= ~(1 << pin)` on a byte.
unfoldable pub with_pin : ℕ → Bool → ℕ → ℕ
with_pin pin state byte = if state then bit_or byte (2 ^ pin) else bit_and byte (255 - 2 ^ pin)

module _ (wire : Wire) where
  -- `beginTransmission`, `write`, `endTransmission`.
  unfoldable pub transmit : Expander → ℕ → Expander × ℕ
  transmit e byte =
      let code = wire (length e.sent) e.addr byte in
      (record e { sent = record { address = e.addr; byte = byte; code = code } ∷ e.sent }, code)

  unfoldable pub init : ℕ → Expander → Expander × Bool
  unfolding transmit
  init addr e =
      let (e', code) = transmit (record e { addr = addr; shadow = 0 }) 0 in
      (record e' { inited = code == 0 }, code == 0)

  unfoldable pub write_byte : ℕ → Expander → Expander × Bool
  unfolding transmit
  write_byte value e =
      let (e', code) = transmit e value in
      if not e.inited
      then (e, false)
      else if code == 0
      then (record e' { shadow = value }, true)
      else (e', false)

  unfoldable pub set_pin : ℕ → Bool → Expander → Expander × Bool
  unfolding write_byte with_pin
  set_pin pin state e =
      if not e.inited || ltb 7 pin then (e, false) else write_byte (with_pin pin state e.shadow) e

-- `available` and `read`: the byte that the bus delivered, if it did.
unfoldable pub read : Option ℕ → Expander → ℕ
read reply e = if not e.inited then 0xff else elim reply [ none ↦ 0xff | some byte ↦ byte ]
