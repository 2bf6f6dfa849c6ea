-- ===== src/Battery/Stored.antt =====
-- What is read back from the stored rows.
use mathlib.Core.Path.{subst}
use native.Mathlib.Decide.{ℕ_discrete}
use power_monitoring.Base.{
  ℕ, zero, suc, ◌+◌, ◌*◌, ◌<◌, ◌≡◌, refl, ap, ◌∙◌, Bool, true, false, ◌&&◌, some, List, [], ◌∷◌,
  ◌++◌, arith, leb, ◌==◌, if◌then◌else◌, ==-refl, length, get_or, set, take, drop, length-append,
  length-set, get_or-set_self, get_or-set_ne, All,
}
use power_monitoring.Battery.{
  max_logical_channels, max_profiles, no_binding, state_size, BatteryState, Layout, Battery,
  state_get, init_battery_bindings, battery_channel_profile, both, persist_bindings,
  battery_channel_set_profile, concat, field, chunks, encode, migrate, decode, battery_state_load,
  battery_state_save,
}

-- The chunk at the front, and what follows.
take_front : (xs ys : List ℕ) (n : ℕ) → length xs ≡ n → take n (xs ++ ys) ≡ xs
take_front [] ys zero h = refl
take_front [] ys (suc n) h = absurd (omega (arith, h))
take_front (x ∷ xs) ys zero h = absurd (omega (arith, h))
take_front (x ∷ xs) ys (suc n) h = ap (λ t. x ∷ t) (take_front xs ys n (omega (arith, h)))

drop_front : (xs ys : List ℕ) (n : ℕ) → drop (length xs + n) (xs ++ ys) ≡ drop n ys
drop_front [] ys n = let e : 0 + n ≡ n = omega arith in rw e refl
drop_front (x ∷ xs) ys n =
    let e : suc (length xs) + n ≡ suc (length xs + n) = omega arith in rw e (drop_front xs ys n)

-- Field `i` of chunks of four bytes is chunk `i`.
field-concat :
    (cs : List (List ℕ)) (i : ℕ)
    → All (λ c. length c ≡ 4) cs
    → i < length cs
    → field i (concat cs) ≡ get_or cs i []
field-concat [] i a h = absurd (omega (arith, h))
field-concat (c ∷ cs) zero a h = take_front c (concat cs) 4 a.0
field-concat (c ∷ cs) (suc i) a h =
    let e : 4 * suc i ≡ length c + 4 * i = omega (arith, a.0) in
    rw e (ap (take 4) (drop_front c (concat cs) (4 * i)) ∙ field-concat cs i a.1 (omega (arith, h)))

length-concat :
    (cs : List (List ℕ)) → All (λ c. length c ≡ 4) cs → length (concat cs) ≡ 4 * length cs
length-concat [] a = refl
length-concat (c ∷ cs) a = omega (arith, length-append c (concat cs), a.0, length-concat cs a.1)

-- What holds of the bytes of numbers: four of them, from which the number comes back.
pub record IsLayout {F : Type 0} (l : Layout F) : Type 0 where
  pub length_bytes : (x : F) → length (l.bytes x) ≡ 4
  pub length_word : (n : ℕ) → length (l.word_bytes n) ≡ 4
  pub of_bytes-bytes : (x : F) → l.of_bytes (l.bytes x) ≡ x
  pub word-word : (n : ℕ) → n < 4294967296 → l.word_of_bytes (l.word_bytes n) ≡ n

-- With a table of 16 bindings: after a channel in range is bound to a profile in range, and the
-- store takes the row and its version, a restart reads the new binding there and the old ones
-- elsewhere.
pub bindings-restart :
    (channel profile_id j : ℕ) (b : Battery)
    → length b.bindings ≡ max_logical_channels
    → channel < max_logical_channels
    → profile_id < max_profiles
    → battery_channel_profile j
        (init_battery_bindings (battery_channel_set_profile both channel profile_id b).1)
      ≡ (if channel == j then profile_id else battery_channel_profile j b)
unfolding init_battery_bindings battery_channel_set_profile battery_channel_profile state_get
    persist_bindings
bindings-restart channel profile_id j b len c p =
    let low : leb max_logical_channels channel ≡ false = ground (arith, c) in
    let bound : (profile_id == no_binding) ≡ false = ground (arith, p) in
    let known : leb max_profiles profile_id ≡ false = ground (arith, p) in
    let size : (length (set b.bindings channel profile_id) == max_logical_channels) ≡ true =
      ground (arith, len, length-set b.bindings channel profile_id) in
    let self : get_or (set b.bindings channel profile_id) channel no_binding ≡ profile_id =
      get_or-set_self b.bindings channel profile_id no_binding (omega (arith, c, len)) in
    rw (low, bound, known, size)
      (elim (ℕ_discrete channel j) [
        | yes e ↦
            let there : get_or (set b.bindings channel profile_id) j no_binding ≡ profile_id =
              subst (λ k. get_or (set b.bindings channel profile_id) k no_binding ≡ profile_id) e
                self in
            ground (arith, e, c, there)
        | no ne ↦
            rw (get_or-set_ne b.bindings channel j profile_id no_binding ne) (ground (arith, ne))
      ])

module _ {F : Type 0} (l : Layout F) where
  chunks-All : (x : BatteryState F) → IsLayout l → All (λ c. length c ≡ 4) (chunks l x)
  chunks-All x h = (
    h.length_bytes x.cumulative_ah_in,
    (
      h.length_bytes x.cumulative_ah_out,
      (
        h.length_bytes x.equivalent_full_cycles,
        (
          h.length_bytes x.last_soc_pct,
          (
            h.length_bytes x.last_v,
            (
              h.length_bytes x.last_i,
              (
                h.length_word x.last_update_ms,
                (
                  h.length_bytes x.last_session_start_pct,
                  (
                    h.length_bytes x.soh_pct,
                    (h.length_word x.soh_samples, (h.length_bytes x.last_full_discharge_ah, tt)),
                  ),
                ),
              ),
            ),
          ),
        ),
      ),
    ),
  )

  length-encode : (x : BatteryState F) → IsLayout l → length (encode l x) ≡ 44
  unfolding encode
  length-encode x h = length-concat (chunks l x) (chunks-All x h)

  decode-encode :
      (x : BatteryState F)
      → IsLayout l
      → x.last_update_ms < 4294967296
      → x.soh_samples < 4294967296
      → decode l (encode l x) ≡ x
  unfolding decode encode migrate
  decode-encode x h ms samples =
      let at : (i : ℕ) → i < 11 → field i (concat (chunks l x)) ≡ get_or (chunks l x) i [] =
        λ i low. field-concat (chunks l x) i (chunks-All x h) low in
      cc (
        at 0 (omega arith),
        at 1 (omega arith),
        at 2 (omega arith),
        at 3 (omega arith),
        at 4 (omega arith),
        at 5 (omega arith),
        at 6 (omega arith),
        at 7 (omega arith),
        at 8 (omega arith),
        at 9 (omega arith),
        at 10 (omega arith),
        h.of_bytes-bytes x.cumulative_ah_in,
        h.of_bytes-bytes x.cumulative_ah_out,
        h.of_bytes-bytes x.equivalent_full_cycles,
        h.of_bytes-bytes x.last_soc_pct,
        h.of_bytes-bytes x.last_v,
        h.of_bytes-bytes x.last_i,
        h.word-word x.last_update_ms ms,
        h.of_bytes-bytes x.last_session_start_pct,
        h.of_bytes-bytes x.soh_pct,
        h.word-word x.soh_samples samples,
        h.of_bytes-bytes x.last_full_discharge_ah,
      )

  load_saved :
      (channel : ℕ) (x : BatteryState F) (b : Battery)
      → IsLayout l
      → channel < max_logical_channels
      → x.last_update_ms < 4294967296
      → x.soh_samples < 4294967296
      → battery_state_load l channel (battery_state_save l true channel x b).1 ≡ some x
  unfolding battery_state_load battery_state_save state_get
  load_saved channel x b h c ms samples =
      let low : leb max_logical_channels channel ≡ false = ground (arith, c) in
      let long : (suc (length (encode l x)) == 1 + state_size) ≡ true =
        ground (arith, length-encode x h) in
      rw (low, ==-refl channel, long) (ap some (decode-encode x h ms samples))

  -- When numbers lie in memory in four bytes each, from which they come back: a state whose two
  -- counters are below 2 ^ 32, saved on a channel in range, is read back there if the store takes the
  -- row; the other channels, and every channel if the store refuses, answer as before.
  pub load-save :
      (ok : Bool) (channel other : ℕ) (x : BatteryState F) (b : Battery)
      → IsLayout l
      → channel < max_logical_channels
      → x.last_update_ms < 4294967296
      → x.soh_samples < 4294967296
      → battery_state_load l other (battery_state_save l ok channel x b).1
        ≡ (if ok && channel == other then some x else battery_state_load l other b)
  unfolding battery_state_load battery_state_save state_get
  load-save false channel other x b h c ms samples = ground (arith, c)
  load-save true channel other x b h c ms samples = elim (ℕ_discrete channel other) [
    | no ne ↦ ground (arith, c, ne)
    | yes e ↦
        subst
          (λ o.
            battery_state_load l o (battery_state_save l true channel x b).1
            ≡ (if channel == o then some x else battery_state_load l o b))
          e (load_saved channel x b h c ms samples ∙ rw (==-refl channel) refl)
  ]
