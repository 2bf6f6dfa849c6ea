-- ===== src/Expander/Shadow.antt =====
-- The shadow byte: which pins an update changes, and that it is what the device last acknowledged.
use power_monitoring.Base.{
  ℕ, ◌/◌, ◌%◌, ◌^◌, ◌<◌, ◌≡◌, refl, Bool, true, false, not, ◌&&◌, Option, none, some, List, [], ◌∷◌,
  arith, ltb, ◌==◌, if◌then◌else◌, ltb→lt, length, all_below, all_below_lem,
}
use power_monitoring.Expander.{
  Wire, Transmission, Expander, power_on, with_pin, transmit, init, write_byte, set_pin,
}

-- Bit `j` of a byte.
abbrev pub bit : ℕ → ℕ → Bool
bit j byte = byte / 2 ^ j % 2 == 1

same : Bool → Bool → Bool
same true b = b
same false b = not b

same→eq : (a b : Bool) → same a b ≡ true → a ≡ b
unfolding same
same→eq a b h = ground arith

-- One byte, one pin and one bit, as a test.
row : Bool → ℕ → ℕ → ℕ → Bool
unfolding with_pin same
row state pin byte j =
    same (bit j (with_pin pin state byte)) (if j == pin then state else bit j byte)
    && ltb (with_pin pin state byte) 256

table :
    (state : Bool)
    → all_below 256 (λ byte. all_below 8 (λ pin. all_below 8 (row state pin byte))) ≡ true
unfolding all_below row
table true = refl
table false = refl

with_pin-row :
    (state : Bool) (pin byte j : ℕ) → pin < 8 → byte < 256 → j < 8 → row state pin byte j ≡ true
with_pin-row state pin byte j hp hb hj =
    all_below_lem 8 (row state pin byte)
      (all_below_lem 8 (λ p. all_below 8 (row state p byte))
        (all_below_lem 256 (λ b. all_below 8 (λ p. all_below 8 (row state p b))) (table state) byte
          hb)
        pin hp)
      j hj

pub bit-with_pin :
    (state : Bool) (pin byte j : ℕ)
    → pin < 8
    → byte < 256
    → j < 8
    → bit j (with_pin pin state byte) ≡ (if j == pin then state else bit j byte)
unfolding row
bit-with_pin state pin byte j hp hb hj =
    same→eq _ _ (ground (arith, with_pin-row state pin byte j hp hb hj))

pub with_pin-lt :
    (state : Bool) (pin byte : ℕ) → pin < 8 → byte < 256 → with_pin pin state byte < 256
unfolding row
with_pin-lt state pin byte hp hb =
    ltb→lt _ _ (ground (arith, with_pin-row state pin byte 0 hp hb (omega arith)))

-- What setting a pin does on the bus and to the driver, where `byte` is what was sent: each bit of it
-- is that of the shadow byte but for the pin's, it went to the device's address, and the shadow byte
-- and the answer follow the code that the device returned.
pub record SetsPin (wire : Wire) (pin : ℕ) (state : Bool) (e : Expander) (r : Expander × Bool)
    : Type 0 where
  pub byte : ℕ
  pub code : ℕ
  pub is_byte : byte < 256
  pub bits : (j : ℕ) → j < 8 → bit j byte ≡ (if j == pin then state else bit j e.shadow)
  pub code_returned : code ≡ wire (length e.sent) e.addr byte
  pub sent_once : r.0.sent ≡ record { address = e.addr; byte = byte; code = code } ∷ e.sent
  pub done : r.1 ≡ (code == 0)
  pub shadowed : r.0.shadow ≡ (if code == 0 then byte else e.shadow)

-- Setting a pin below 8 of an initialised driver whose shadow is a byte sends exactly one byte, to its
-- address, in which the pin's bit is the new state and the others are those of the shadow byte. When
-- the bus acknowledges (code 0), the call succeeds and that byte is the new shadow; otherwise it fails
-- and the shadow byte stays.
pub set_pin_lem :
    (wire : Wire) (pin : ℕ) (state : Bool) (e : Expander)
    → e.inited ≡ true
    → pin < 8
    → e.shadow < 256
    → SetsPin wire pin state e (set_pin wire pin state e)
unfolding set_pin write_byte transmit
set_pin_lem wire pin state e ready hp hb = record {
  byte = with_pin pin state e.shadow;
  code = wire (length e.sent) e.addr (with_pin pin state e.shadow);
  is_byte = with_pin-lt state pin e.shadow hp hb;
  bits = λ j hj. bit-with_pin state pin e.shadow j hp hb hj;
  code_returned = refl;
  sent_once = ground (arith, ready, hp);
  done = ground (arith, ready, hp);
  shadowed = ground (arith, ready, hp);
}

-- The operations of the driver, as a client calls them.
pub data Call : Type 0 where
  start : ℕ → Call
  write : ℕ → Call
  pin : ℕ → Bool → Call

abbrev pub call : Wire → Call → Expander → Expander
call wire (start addr) e = (init wire addr e).0
call wire (write value) e = (write_byte wire value e).0
call wire (pin p state) e = (set_pin wire p state e).0

abbrev pub calls : Wire → List Call → Expander → Expander
calls wire [] e = e
calls wire (c ∷ cs) e = calls wire cs (call wire c e)

-- The last byte that the bus acknowledged.
abbrev pub acknowledged : List Transmission → Option ℕ
acknowledged [] = none
acknowledged (t ∷ ts) = if t.code == 0 then some t.byte else acknowledged ts

-- While the driver is enabled, its shadow byte is the last one that the device took.
abbrev pub Tracks : Expander → Type 0
Tracks e = e.inited ≡ true → acknowledged e.sent ≡ some e.shadow

call-Tracks : (wire : Wire) (c : Call) (e : Expander) → Tracks e → Tracks (call wire c e)
unfolding init write_byte set_pin transmit
call-Tracks wire (start addr) e h = λ i. ground arith
call-Tracks wire (write value) e h = λ i. ground (arith, h)
call-Tracks wire (pin p state) e h = λ i. ground (arith, h)

-- From power-on, through any calls and whatever the bus answers, an enabled driver's shadow byte is
-- the last byte that the device acknowledged.
pub calls-Tracks :
    (wire : Wire) (cs : List Call)
    → (calls wire cs power_on).inited ≡ true
    → acknowledged (calls wire cs power_on).sent ≡ some (calls wire cs power_on).shadow
calls-Tracks wire cs = go cs power_on (λ i. cc)
  where
    go : (cs : List Call) (e : Expander) → Tracks e → Tracks (calls wire cs e)
    go [] e h = h
    go (c ∷ cs) e h = go cs (call wire c e) (call-Tracks wire c e h)
