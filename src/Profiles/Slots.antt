-- ===== src/Profiles/Slots.antt =====
-- What the registry answers after a profile is set or deleted.
use native.Mathlib.Decide.{ℕ_discrete}
use power_monitoring.Base.{
  ℕ, zero, suc, ◌+◌, ◌≤◌, ◌<◌, ◌≡◌, refl, ◌∙◌, inl, inr, true, false, Option, none, some, List, [],
  ◌∷◌, arith, ltb, leb, ◌==◌, if◌then◌else◌, ltb→lt, Bool-cases, length, get_or, set, replicate,
  length-set, get_or-set_ne,
}
use power_monitoring.Floats.{Float, lit, fle}
use power_monitoring.Profiles.{
  builtin_count, max_profiles, Profile, Registry, has_name, Write, refused, profiles_only, written,
  zeroed, slot_valid, persist, with_defaults, battery_profile_get, battery_profile_set, trim,
  battery_profile_delete,
}

module _ {F : Type 0} ⦃m : Float F⦄ where
  -- The profile of a slot, if it is a valid one.
  abbrev pub shown : List (Profile F) → ℕ → Option (Profile F)
  shown profiles i = let p = get_or profiles i zeroed in if slot_valid p then some p else none

  pub record IsSound (r : Registry F) : Type 0 where
    pub full_length : length r.profiles ≡ max_profiles
    pub builtins_counted : builtin_count ≤ r.populated
    pub populated_le : r.populated ≤ max_profiles
    -- Nothing valid lies past the populated slots.
    pub hidden : (i : ℕ) → r.populated ≤ i → slot_valid (get_or r.profiles i zeroed) ≡ false

  pub battery_profile_get-shown :
      (id : ℕ) (r : Registry F) → IsSound r → battery_profile_get id r ≡ shown r.profiles id
  unfolding battery_profile_get
  battery_profile_get-shown id r h = elim (Bool-cases (ltb id r.populated)) [
    | inl inside ↦
        let low : leb max_profiles id ≡ false = ground (arith, inside, h.populated_le) in
        rw (low, inside) refl
    | inr past ↦ rw (past, h.hidden id (ground (arith, past))) (ground arith)
  ]

  trim_le : (profiles : List (Profile F)) (n : ℕ) → trim profiles n ≤ n
  unfolding trim
  trim_le profiles zero = omega arith
  trim_le profiles (suc n) = ground (arith, trim_le profiles n)

  builtins-trim :
      (profiles : List (Profile F)) (n : ℕ) → builtin_count ≤ n → builtin_count ≤ trim profiles n
  unfolding trim
  builtins-trim profiles zero h = h
  builtins-trim profiles (suc n) h = elim (Bool-cases (ltb builtin_count (suc n))) [
    | inl more ↦ ground (arith, builtins-trim profiles n (ground (arith, more)))
    | inr last ↦ rw last h
  ]

  trim_last :
      (profiles : List (Profile F)) (n : ℕ)
      → ltb builtin_count (suc n) ≡ false
      → trim profiles (suc n) ≡ suc n
  unfolding trim
  trim_last profiles n e = rw e refl

  trim_valid :
      (profiles : List (Profile F)) (n : ℕ)
      → slot_valid (get_or profiles n zeroed) ≡ true
      → trim profiles (suc n) ≡ suc n
  unfolding trim
  trim_valid profiles n e = rw e (ground arith)

  trim_invalid :
      (profiles : List (Profile F)) (n : ℕ)
      → ltb builtin_count (suc n) ≡ true
      → slot_valid (get_or profiles n zeroed) ≡ false
      → trim profiles (suc n) ≡ trim profiles n
  unfolding trim
  trim_invalid profiles n more e = rw (more, e) refl

  -- Trimming passes no valid slot.
  hidden-trim :
      (profiles : List (Profile F)) (n i : ℕ)
      → trim profiles n ≤ i
      → i < n
      → slot_valid (get_or profiles i zeroed) ≡ false
  hidden-trim profiles zero i h k = absurd (omega (arith, k))
  hidden-trim profiles (suc n) i h k = elim (Bool-cases (ltb builtin_count (suc n))) [
    | inr last ↦ absurd (omega (arith, k, h, trim_last profiles n last))
    | inl more ↦ elim (Bool-cases (slot_valid (get_or profiles n zeroed))) [
      | inl top ↦ absurd (omega (arith, k, h, trim_valid profiles n top))
      | inr top ↦ elim (ℕ_discrete i n) [
        | yes e ↦ rw e top
        | no ne ↦
            hidden-trim profiles n i (omega (arith, h, trim_invalid profiles n more top))
              (omega (arith, k, ne))
      ]
    ]
  ]

  cleared_slot :
      (profiles : List (Profile F)) (i j : ℕ)
      → slot_valid (get_or profiles j zeroed) ≡ false
      → slot_valid (get_or (set profiles i zeroed) j zeroed) ≡ false
  unfolding slot_valid
  cleared_slot [] i j h = h
  cleared_slot (x ∷ xs) zero zero h = refl
  cleared_slot (x ∷ xs) zero (suc j) h = h
  cleared_slot (x ∷ xs) (suc i) zero h = h
  cleared_slot (x ∷ xs) (suc i) (suc j) h = cleared_slot xs i j h

  -- What is shown after a slot is cleared or written.
  shown-cleared :
      (profiles : List (Profile F)) (i j : ℕ)
      → shown (set profiles i zeroed) j ≡ (if i == j then none else shown profiles j)
  unfolding slot_valid
  shown-cleared [] i j = ground arith
  shown-cleared (x ∷ xs) zero zero = refl
  shown-cleared (x ∷ xs) zero (suc j) = ground arith
  shown-cleared (x ∷ xs) (suc i) zero = ground arith
  shown-cleared (x ∷ xs) (suc i) (suc j) = ground (arith, shown-cleared xs i j)

  shown-set :
      (profiles : List (Profile F)) (i j : ℕ) (p : Profile F)
      → i < length profiles
      → slot_valid p ≡ true
      → shown (set profiles i p) j ≡ (if i == j then some p else shown profiles j)
  shown-set [] i j p h v = absurd (omega (arith, h))
  shown-set (x ∷ xs) zero zero p h v = rw v refl
  shown-set (x ∷ xs) zero (suc j) p h v = ground arith
  shown-set (x ∷ xs) (suc i) zero p h v = ground arith
  shown-set (x ∷ xs) (suc i) (suc j) p h v = ground (arith, shown-set xs i j p (omega (arith, h)) v)

  deleted_profiles :
      (w : Write) (id : ℕ) (r : Registry F)
      → builtin_count ≤ id
      → id < r.populated
      → r.populated ≤ max_profiles
      → (battery_profile_delete w id r).1.profiles ≡ set r.profiles id zeroed
  unfolding battery_profile_delete persist
  deleted_profiles refused id r low high h = ground (arith, low, high, h)
  deleted_profiles profiles_only id r low high h = ground (arith, low, high, h)
  deleted_profiles written id r low high h = ground (arith, low, high, h)

  deleted_populated :
      (w : Write) (id : ℕ) (r : Registry F)
      → builtin_count ≤ id
      → id < r.populated
      → r.populated ≤ max_profiles
      → (battery_profile_delete w id r).1.populated ≡ (
          if id + 1 == r.populated
          then trim (set r.profiles id zeroed) r.populated
          else r.populated)
  unfolding battery_profile_delete persist
  deleted_populated refused id r low high h = ground (arith, low, high, h)
  deleted_populated profiles_only id r low high h = ground (arith, low, high, h)
  deleted_populated written id r low high h = ground (arith, low, high, h)

  -- Deleting keeps the registry sound.
  pub battery_profile_delete-IsSound :
      (w : Write) (id : ℕ) (r : Registry F)
      → IsSound r
      → builtin_count ≤ id
      → id < r.populated
      → IsSound (battery_profile_delete w id r).1
  battery_profile_delete-IsSound w id r h low high =
      let cleared = set r.profiles id zeroed in
      let e = deleted_profiles w id r low high h.populated_le in
      let n = deleted_populated w id r low high h.populated_le in
      let least = builtins-trim cleared r.populated h.builtins_counted in
      let most = trim_le cleared r.populated in
      record {
        full_length = rw e (length-set r.profiles id zeroed ∙ h.full_length);
        builtins_counted = ground (arith, n, least, h.builtins_counted);
        populated_le = ground (arith, n, most, h.populated_le);
        hidden = λ i past. rw e (elim (ℕ_discrete (id + 1) r.populated) [
          | yes last ↦ elim (Bool-cases (ltb i r.populated)) [
            | inl inside ↦
                hidden-trim cleared r.populated i (ground (arith, n, past, last))
                  (ltb→lt i r.populated inside)
            | inr outside ↦ cleared_slot r.profiles id i (h.hidden i (ground (arith, outside)))
          ]
          | no inner ↦ cleared_slot r.profiles id i (h.hidden i (ground (arith, n, past, inner)))
        ]);
      }

  -- After a profile past the built-in ones is deleted, its id has none, and every other id has the
  -- profile that it had, whatever the store does with the write.
  pub get-delete :
      (w : Write) (id j : ℕ) (r : Registry F)
      → IsSound r
      → builtin_count ≤ id
      → id < r.populated
      → battery_profile_get j (battery_profile_delete w id r).1
        ≡ (if id == j then none else battery_profile_get j r)
  get-delete w id j r h low high =
      let after = battery_profile_delete-IsSound w id r h low high in
      let e = deleted_profiles w id r low high h.populated_le in
      cc (
        battery_profile_get-shown j (battery_profile_delete w id r).1 after,
        battery_profile_get-shown j r h,
        e,
        shown-cleared r.profiles id j,
      )

  -- A profile that `battery_profile_set` accepts and that is then a valid slot. A capacity that is no
  -- number passes the first test and not the second.
  pub record IsAcceptable (p : Profile F) : Type 0 where
    pub in_range : p.id < max_profiles
    pub enough : fle p.rated_capacity_ah (lit 1 1000) ≡ false
    pub valid : slot_valid p ≡ true

  named_of_valid : (p : Profile F) → slot_valid p ≡ true → has_name p.name ≡ true
  unfolding slot_valid
  named_of_valid p h = ground (arith, h)

  set_profiles :
      (w : Write) (p : Profile F) (r : Registry F)
      → IsAcceptable p
      → ((battery_profile_set w p r).1.profiles ≡ set r.profiles p.id p)
        × ((battery_profile_set w p r).1.populated
            ≡ (if ltb r.populated (p.id + 1) then p.id + 1 else r.populated))
  unfolding battery_profile_set persist
  set_profiles refused p r a = ground (arith, a, named_of_valid p a.valid)
  set_profiles profiles_only p r a = ground (arith, a, named_of_valid p a.valid)
  set_profiles written p r a = ground (arith, a, named_of_valid p a.valid)

  pub battery_profile_set-IsSound :
      (w : Write) (p : Profile F) (r : Registry F)
      → IsSound r
      → IsAcceptable p
      → IsSound (battery_profile_set w p r).1
  battery_profile_set-IsSound w p r h a =
      let (e, n) = set_profiles w p r a in
      record {
        full_length = rw e (length-set r.profiles p.id p ∙ h.full_length);
        builtins_counted = ground (arith, n, h.builtins_counted);
        populated_le = ground (arith, n, h.populated_le, a.in_range);
        hidden = λ i past. rw e (
            rw (get_or-set_ne r.profiles p.id i p zeroed (λ q. ground (arith, n, past, q)))
              (h.hidden i (ground (arith, n, past))));
      }

  -- After an acceptable profile is set, its id has it, and every other id has the profile that it had,
  -- whatever the store does with the write.
  pub get-set :
      (w : Write) (p : Profile F) (j : ℕ) (r : Registry F)
      → IsSound r
      → IsAcceptable p
      → battery_profile_get j (battery_profile_set w p r).1
        ≡ (if p.id == j then some p else battery_profile_get j r)
  get-set w p j r h a =
      let after = battery_profile_set-IsSound w p r h a in
      let (e, n) = set_profiles w p r a in
      let inside : p.id < length r.profiles = omega (arith, a.in_range, h.full_length) in
      cc (
        battery_profile_get-shown j (battery_profile_set w p r).1 after,
        battery_profile_get-shown j r h,
        e,
        shown-set r.profiles p.id j p inside a.valid,
      )

  zeroed_slots :
      (p : Profile F) (n i : ℕ)
      → slot_valid p ≡ false
      → slot_valid (get_or (replicate n p) i zeroed) ≡ false
  unfolding slot_valid
  zeroed_slots p zero i h = refl
  zeroed_slots p (suc n) zero h = h
  zeroed_slots p (suc n) (suc i) h = zeroed_slots p n i h

  pub hidden_defaults :
      (r : Registry F) (i : ℕ)
      → builtin_count ≤ i
      → slot_valid (get_or (with_defaults r).profiles i zeroed) ≡ false
  unfolding slot_valid
  hidden_defaults r zero h = absurd (omega (arith, h))
  hidden_defaults r (suc zero) h = absurd (omega (arith, h))
  hidden_defaults r (suc (suc zero)) h = absurd (omega (arith, h))
  hidden_defaults r (suc (suc (suc zero))) h = absurd (omega (arith, h))
  hidden_defaults r (suc (suc (suc (suc i)))) h = zeroed_slots zeroed 12 i refl

  -- The registry without overrides is sound.
  pub with_defaults-IsSound : (r : Registry F) → IsSound (with_defaults r)
  with_defaults-IsSound r = record {
    full_length = refl;
    builtins_counted = omega arith;
    populated_le = omega arith;
    hidden = hidden_defaults r;
  }
