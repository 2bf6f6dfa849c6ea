-- ===== src/Meter.antt =====
-- src/bl0939_pod.cpp: the frames of the BL0939 energy meters on their shared serial line. The
-- addresses are those of the board's configuration; a slot is an index into them. The receive buffer
-- is the bytes received of the frame so far. The copy into a sensor's channels is left out.
mod Frames
mod Corruption
mod Tests
use power_monitoring.Base.{
  ℕ, zero, suc, ◌+◌, ◌-◌, ◌*◌, Option, none, some, List, [], ◌∷◌, ◌++◌, ltb, leb, ◌==◌,
  if◌then◌else◌, length, get_or, update, u8,
}
use power_monitoring.Floats.{Float, lit, neg, fdiv}

abbrev pub frame_len : ℕ
frame_len = 24

pub record Reading (F : Type 0) : Type 0 where
  pub v : F
  pub ia : F
  pub ib : F
  pub pa : F
  pub pb : F

-- The receive buffer, and the last reading of each slot, if there is a valid one.
pub record Meter (F : Type 0) : Type 0 where
  pub rx : List ℕ
  pub cache : ℕ → Option (Reading F)

-- The slot of an address, counted from `i` on.
abbrev pub slot_from : ℕ → List ℕ → ℕ → Option ℕ
slot_from i [] addr = none
slot_from i (a ∷ rest) addr = if a == addr then some i else slot_from (suc i) rest addr

unfoldable pub slot_for_address : List ℕ → ℕ → Option ℕ
slot_for_address addresses addr = slot_from 0 addresses addr

-- Three bytes at `i`, highest first.
unfoldable pub u24 : ℕ → List ℕ → ℕ
u24 i buf = get_or buf i 0 * 65536 + get_or buf (i + 1) 0 * 256 + get_or buf (i + 2) 0

-- The sum of the first `n` bytes, on eight bits.
abbrev pub sum : ℕ → List ℕ → ℕ
sum zero buf = 0
sum (suc n) [] = 0
sum (suc n) (b ∷ buf) = b + sum n buf

unfoldable pub checksum : List ℕ → ℕ
checksum buf = 255 - u8 (85 + sum (frame_len - 1) buf)

module _ {F : Type 0} ⦃m : Float F⦄ where
  -- A signed number of 24 bits, in two's complement.
  unfoldable pub s24 : ℕ → List ℕ → F
  unfolding u24
  s24 i buf =
      if ltb (u24 i buf) 8388608 then lit (u24 i buf) 1 else neg (lit (16777216 - u24 i buf) 1)

  unfoldable pub reading_of : List ℕ → Reading F
  unfolding s24 u24
  reading_of buf = record {
    v = fdiv (lit (u24 1 buf) 1) (lit 171666 10);
    ia = fdiv (s24 4 buf) (lit 266012 1);
    ib = fdiv (s24 7 buf) (lit 266012 1);
    pa = fdiv (s24 10 buf) (lit 71319 100);
    pb = fdiv (s24 13 buf) (lit 71319 100);
  }

  abbrev pub store_reading : Option ℕ → List ℕ → Meter F → Meter F
  store_reading none buf s = s
  store_reading (some place) buf s =
      if checksum buf == get_or buf (frame_len - 1) 0
      then record s { cache = update s.cache place (some (reading_of buf)) }
      else s

  unfoldable pub parse_frame : List ℕ → List ℕ → Meter F → Meter F
  unfolding slot_for_address checksum reading_of
  parse_frame addresses buf s = store_reading (slot_for_address addresses (get_or buf 0 0)) buf s

  abbrev pub first_byte : Option ℕ → ℕ → Meter F → Meter F
  first_byte none b s = s
  first_byte (some place) b s = record s { rx = b ∷ [] }

  -- A byte of the line.
  abbrev pub receive_with : List ℕ → List ℕ → ℕ → Meter F → Meter F
  receive_with [] addresses b s = first_byte (slot_for_address addresses b) b s
  receive_with (x ∷ xs) addresses b s =
      let got = (x ∷ xs) ++ b ∷ [] in
      if leb frame_len (length got)
      then parse_frame addresses got (record s { rx = [] })
      else record s { rx = got }

  -- `bl0939_drain_uart`, of the bytes that the line has.
  unfoldable pub drain_uart : List ℕ → List ℕ → Meter F → Meter F
  unfolding parse_frame
  drain_uart addresses [] s = s
  drain_uart addresses (b ∷ bytes) s = drain_uart addresses bytes (receive_with s.rx addresses b s)
