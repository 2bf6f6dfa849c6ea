-- ===== src/Profiles/Reload.antt =====
-- A registry is the same after a restart.
use power_monitoring.Base.{
  ℕ, zero, suc, ◌≤◌, ◌<◌, ◌≡◌, refl, sym, ap, ◌∙◌, ◌≢◌, inl, inr, Bool, true, false, ◌&&◌, List, [],
  ◌∷◌, arith, leb, ◌==◌, leb→le, Bool-cases, length, get_or, length-set, get_or-set_self,
  get_or-set_ne, for_range-keeps, for_range-once,
}
use power_monitoring.Floats.{Float}
use power_monitoring.Profiles.{
  builtin_count, max_profiles, Profile, Registry, written, zeroed, slot_valid, persist, overlay,
  with_defaults, overlaid, init_battery_profiles, battery_profile_get,
}
use power_monitoring.Profiles.Slots.{IsSound, battery_profile_get-shown, hidden_defaults}

module _ {F : Type 0} ⦃m : Float F⦄ where
  -- What the loop over the stored profiles keeps: every valid slot is counted.
  pub record Fits (s : List (Profile F) × ℕ) : Type 0 where
    pub full_length : length s.0 ≡ max_profiles
    pub low : builtin_count ≤ s.1
    pub high : s.1 ≤ max_profiles
    pub hidden : (i : ℕ) → s.1 ≤ i → slot_valid (get_or s.0 i zeroed) ≡ false

  -- Past the end of the stored profiles, nothing is honoured.
  get_or_past : (xs : List (Profile F)) (i : ℕ) → length xs ≤ i → get_or xs i zeroed ≡ zeroed
  get_or_past [] i h = refl
  get_or_past (x ∷ xs) zero h = absurd (omega (arith, h))
  get_or_past (x ∷ xs) (suc i) h = get_or_past xs i (omega (arith, h))

  in_range :
      (xs : List (Profile F)) (i : ℕ) → slot_valid (get_or xs i zeroed) ≡ true → i < length xs
  unfolding slot_valid
  in_range [] i h = absurd (ground (arith, h))
  in_range (x ∷ xs) zero h = omega arith
  in_range (x ∷ xs) (suc i) h = omega (arith, in_range xs i h)

  overlay-Fits :
      (stored : List (Profile F))
      → length stored ≡ max_profiles
      → (i : ℕ) (s : List (Profile F) × ℕ) → Fits s
      → Fits (overlay stored i s)
  unfolding overlay
  overlay-Fits stored len i (profiles, populated) h =
      let p = get_or stored i zeroed in
      elim (Bool-cases (p.id == i && slot_valid p)) [
        | inr skip ↦ rw skip h
        | inl take_it ↦
            let v : slot_valid p ≡ true = ground (arith, take_it) in
            let here : i < max_profiles = omega (arith, in_range stored i v, len) in
            rw take_it (record {
              full_length = length-set profiles i p ∙ h.full_length;
              low = ground (arith, h.low);
              high = ground (arith, h.high, here);
              hidden = λ j past.
                  rw (get_or-set_ne profiles i j p zeroed (λ q. ground (arith, q, past, h.low)))
                    (h.hidden j (ground (arith, past)));
            })
      ]

  overlay_other :
      (stored : List (Profile F)) (i j : ℕ) (s : List (Profile F) × ℕ)
      → i ≢ j
      → get_or (overlay stored i s).0 j zeroed ≡ get_or s.0 j zeroed
  unfolding overlay
  overlay_other stored i j (profiles, populated) ne =
      let p = get_or stored i zeroed in
      elim (Bool-cases (p.id == i && slot_valid p)) [
        | inr skip ↦ rw skip refl
        | inl take_it ↦ rw take_it (get_or-set_ne profiles i j p zeroed ne)
      ]

  overlay_invalid :
      (stored : List (Profile F)) (i j : ℕ) (s : List (Profile F) × ℕ)
      → slot_valid (get_or stored j zeroed) ≡ false
      → get_or (overlay stored i s).0 j zeroed ≡ get_or s.0 j zeroed
  unfolding overlay
  overlay_invalid stored i j (profiles, populated) v =
      let p = get_or stored i zeroed in
      let at : ℕ → Bool = λ k. slot_valid (get_or stored k zeroed) in
      elim (Bool-cases (p.id == i && slot_valid p)) [
        | inr skip ↦ rw skip refl
        | inl take_it ↦
            rw take_it
              (get_or-set_ne profiles i j p zeroed (λ q. ground (arith, take_it, ap at q, v)))
      ]

  overlay_self :
      (stored : List (Profile F)) (j : ℕ) (s : List (Profile F) × ℕ)
      → slot_valid (get_or stored j zeroed) ≡ true
      → (get_or stored j zeroed).id ≡ j
      → j < length s.0
      → get_or (overlay stored j s).0 j zeroed ≡ get_or stored j zeroed
  unfolding overlay
  overlay_self stored j (profiles, populated) v e h =
      let p = get_or stored j zeroed in
      let own : (p.id == j && slot_valid p) ≡ true = ground (arith, v, e) in
      rw own (get_or-set_self profiles j p zeroed h)

  -- Every valid slot carries its own id, and the built-in slots are valid.
  pub record IsOwned (r : Registry F) : Type 0 where
    pub own :
        (i : ℕ)
        → slot_valid (get_or r.profiles i zeroed) ≡ true
        → (get_or r.profiles i zeroed).id ≡ i
    pub builtins_valid :
        (i : ℕ) → i < builtin_count → slot_valid (get_or r.profiles i zeroed) ≡ true

  defaults-Fits : (r : Registry F) → Fits ((with_defaults r).profiles, builtin_count)
  defaults-Fits r = record {
    full_length = refl;
    low = omega arith;
    high = omega arith;
    hidden = hidden_defaults r;
  }

  overlaid-IsSound :
      (stored : List (Profile F)) (r : Registry F)
      → length stored ≡ max_profiles
      → IsSound (overlaid stored r)
  overlaid-IsSound stored r len =
      let h =
        for_range-keeps Fits (overlay stored) (overlay-Fits stored len) max_profiles 0
          ((with_defaults r).profiles, builtin_count) (defaults-Fits r) in
      record {
        full_length = h.full_length;
        builtins_counted = h.low;
        populated_le = h.high;
        hidden = h.hidden;
      }

  -- A slot after the loop.
  overlaid_valid :
      (r r' : Registry F) (j : ℕ)
      → IsSound r
      → IsOwned r
      → slot_valid (get_or r.profiles j zeroed) ≡ true
      → get_or (overlaid r.profiles r').profiles j zeroed ≡ get_or r.profiles j zeroed
  overlaid_valid r r' j h o v =
      (for_range-once Fits (λ s. get_or s.0 j zeroed ≡ get_or r.profiles j zeroed)
        (overlay r.profiles) j (λ i s ne f. overlay-Fits r.profiles h.full_length i s f)
        (λ i s ne q. overlay_other r.profiles i j s ne ∙ q)
        (λ s f.
          overlay_self r.profiles j s v (o.own j v)
            (omega (arith, in_range r.profiles j v, h.full_length, f.full_length)))
        max_profiles 0 ((with_defaults r').profiles, builtin_count) (omega arith)
        (omega (arith, in_range r.profiles j v, h.full_length)) (defaults-Fits r'))

  overlaid_invalid :
      (r r' : Registry F) (j : ℕ)
      → IsOwned r
      → slot_valid (get_or r.profiles j zeroed) ≡ false
      → slot_valid (get_or (overlaid r.profiles r').profiles j zeroed) ≡ false
  overlaid_invalid r r' j o v =
      let kept =
        for_range-keeps (λ s. get_or s.0 j zeroed ≡ get_or (with_defaults r').profiles j zeroed)
          (overlay r.profiles) (λ i s q. overlay_invalid r.profiles i j s v ∙ q) max_profiles 0
          ((with_defaults r').profiles, builtin_count) refl in
      let past : builtin_count ≤ j = elim (Bool-cases (leb builtin_count j)) [
        | inl b ↦ leb→le builtin_count j b
        | inr b ↦ absurd (ground (arith, v, o.builtins_valid j (ground (arith, b))))
      ] in
      ap slot_valid kept ∙ hidden_defaults r' j past

  -- A restart that finds the written rows of a sound registry answers for every id what the registry
  -- answered, when each valid slot carries its own id and the built-in slots are valid.
  pub get-init :
      (r : Registry F) (profiles : List (Profile F)) (populated j : ℕ)
      → IsSound r
      → IsOwned r
      → battery_profile_get j (
          init_battery_profiles (record {
            profiles = profiles;
            populated = populated;
            store = (persist written r).store;
          }))
        ≡ battery_profile_get j r
  unfolding persist init_battery_profiles
  get-init r profiles populated j h o =
      let before : Registry F = record {
        profiles = profiles;
        populated = populated;
        store = (persist written r).store;
      } in
      let sound = overlaid-IsSound r.profiles before h.full_length in
      battery_profile_get-shown j (overlaid r.profiles before) sound
      ∙ elim (Bool-cases (slot_valid (get_or r.profiles j zeroed))) [
        | inl v ↦ rw (overlaid_valid r before j h o v) refl
        | inr v ↦ rw (v, overlaid_invalid r before j o v) refl
      ]
      ∙ sym (battery_profile_get-shown j r h)
