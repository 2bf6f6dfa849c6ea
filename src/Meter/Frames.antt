-- ===== src/Meter/Frames.antt =====
-- A frame is found after other bytes.
use power_monitoring.Base.{
  ℕ, suc, ◌+◌, ◌≡◌, refl, sym, ap, ◌∙◌, true, false, Option, none, some, List, [], ◌∷◌, ◌++◌, arith,
  leb, length, length-append, All, append_assoc,
}
use power_monitoring.Floats.{Float}
use power_monitoring.Meter.{
  frame_len, Reading, Meter, slot_for_address, parse_frame, first_byte, drain_uart,
}

module _ {F : Type 0} ⦃m : Float F⦄ (addresses : List ℕ) where
  abbrev pub waiting : List ℕ → (ℕ → Option (Reading F)) → Meter F
  waiting rx cache = record { rx = rx; cache = cache }

  -- The rest of a frame that has begun.
  collect :
      (b : ℕ) (bytes : List ℕ) (x : ℕ) (xs : List ℕ) (cache : ℕ → Option (Reading F))
      → length (x ∷ xs) + length (b ∷ bytes) ≡ frame_len
      → drain_uart addresses (b ∷ bytes) (waiting (x ∷ xs) cache)
        ≡ parse_frame addresses ((x ∷ xs) ++ b ∷ bytes) (waiting [] cache)
  unfolding drain_uart
  collect b [] x xs cache len =
      let full : leb frame_len (suc (length (xs ++ b ∷ []))) ≡ true =
        ground (arith, len, length-append xs (b ∷ [])) in
      rw full refl
  collect b (b' ∷ bytes) x xs cache len =
      let short : leb frame_len (suc (length (xs ++ b ∷ []))) ≡ false =
        ground (arith, len, length-append xs (b ∷ [])) in
      let rest =
        collect b' bytes x (xs ++ b ∷ []) cache (omega (arith, len, length-append xs (b ∷ []))) in
      rw short (
        rest
        ∙ ap (λ t. parse_frame addresses (x ∷ t) (waiting [] cache))
            (sym (append_assoc xs (b ∷ []) (b' ∷ bytes))))

  skip_noise :
      (noise bytes : List ℕ) (cache : ℕ → Option (Reading F))
      → All (λ b. slot_for_address addresses b ≡ none) noise
      → drain_uart addresses (noise ++ bytes) (waiting [] cache)
        ≡ drain_uart addresses bytes (waiting [] cache)
  unfolding drain_uart
  skip_noise [] bytes cache a = refl
  skip_noise (b ∷ noise) bytes cache a =
      ap (λ o. drain_uart addresses (noise ++ bytes) (first_byte o b (waiting [] cache))) a.0
      ∙ skip_noise noise bytes cache a.1

  -- Between frames, any bytes that are no address and then 24 bytes that begin with one leave the
  -- receiver between frames, with those 24 bytes parsed.
  pub drain_uart-frame :
      (noise bytes : List ℕ) (addr place : ℕ) (cache : ℕ → Option (Reading F))
      → All (λ b. slot_for_address addresses b ≡ none) noise
      → slot_for_address addresses addr ≡ some place
      → length (addr ∷ bytes) ≡ frame_len
      → drain_uart addresses (noise ++ addr ∷ bytes) (waiting [] cache)
        ≡ parse_frame addresses (addr ∷ bytes) (waiting [] cache)
  unfolding drain_uart
  drain_uart-frame noise [] addr place cache a known len = absurd (omega (arith, len))
  drain_uart-frame noise (b ∷ bytes) addr place cache a known len =
      skip_noise noise (addr ∷ b ∷ bytes) cache a
      ∙ ap (λ o. drain_uart addresses (b ∷ bytes) (first_byte o addr (waiting [] cache))) known
      ∙ collect b bytes addr [] cache (omega (arith, len))
