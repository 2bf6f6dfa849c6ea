-- ===== src/Meter/Corruption.antt =====
-- The checksum finds one wrong byte.
use power_monitoring.Base.{
  ℕ, zero, suc, ◌+◌, ◌-◌, ◌<◌, ◌≡◌, refl, sym, ◌∙◌, ◌≢◌, inl, inr, false, Option, none, some, List,
  [], ◌∷◌, arith, ◌==◌, ==→eq, Bool-cases, length, get_or, set, get_or-set_ne,
}
use power_monitoring.Floats.{Float}
use power_monitoring.Meter.{
  frame_len, Meter, slot_for_address, sum, checksum, store_reading, parse_frame,
}

sum-set :
    (n i v : ℕ) (buf : List ℕ)
    → i < n
    → i < length buf
    → sum n (set buf i v) + get_or buf i 0 ≡ sum n buf + v
sum-set zero i v buf h k = absurd (omega (arith, h))
sum-set (suc n) i v [] h k = absurd (omega (arith, k))
sum-set (suc n) zero v (b ∷ buf) h k = omega arith
sum-set (suc n) (suc i) v (b ∷ buf) h k =
    omega (arith, sum-set n i v buf (omega (arith, h)) (omega (arith, k)))

-- Two frames that differ in one byte before the last have different checksums.
checksum-set :
    (buf : List ℕ) (i v : ℕ)
    → i < frame_len - 1
    → i < length buf
    → get_or buf i 0 < 256
    → v < 256
    → get_or buf i 0 ≢ v
    → checksum (set buf i v) ≢ checksum buf
unfolding checksum
checksum-set buf i v h k small small' ne e =
    ne (omega (arith, e, sum-set 23 i v buf (omega (arith, h)) k, small, small'))

module _ {F : Type 0} ⦃m : Float F⦄ where
  store_reading-set :
      (found : Option ℕ) (buf : List ℕ) (i v : ℕ) (s : Meter F)
      → i < frame_len - 1
      → length buf ≡ frame_len
      → get_or buf i 0 < 256
      → v < 256
      → get_or buf i 0 ≢ v
      → checksum buf ≡ get_or buf 23 0
      → store_reading found (set buf i v) s ≡ s
  store_reading-set none buf i v s h len small small' ne good = refl
  store_reading-set (some place) buf i v s h len small small' ne good =
      let last = get_or-set_ne buf i 23 v 0 (omega (arith, h)) in
      let k : i < length buf = omega (arith, h, len) in
      let wrong : (checksum (set buf i v) == get_or (set buf i v) 23 0) ≡ false =
        elim (Bool-cases (checksum (set buf i v) == get_or (set buf i v) 23 0)) [
          | inr differ ↦ differ
          | inl agree ↦ absurd (
              checksum-set buf i v h k small small' ne (
                ==→eq (checksum (set buf i v)) (get_or (set buf i v) 23 0) agree ∙ last ∙ sym good))
        ] in
      rw wrong refl

  -- When the checksum of a frame of 24 bytes is right, a frame that differs from it in one byte before
  -- the checksum (by another value of eight bits) leaves the receiver and every reading as they were.
  pub parse_frame-corrupted :
      (addresses buf : List ℕ) (i v : ℕ) (s : Meter F)
      → i < frame_len - 1
      → length buf ≡ frame_len
      → get_or buf i 0 < 256
      → v < 256
      → get_or buf i 0 ≢ v
      → checksum buf ≡ get_or buf 23 0
      → parse_frame addresses (set buf i v) s ≡ s
  unfolding parse_frame
  parse_frame-corrupted addresses buf i v s h len small small' ne good =
      store_reading-set (slot_for_address addresses (get_or (set buf i v) 0 0)) buf i v s h len
        small small' ne good
