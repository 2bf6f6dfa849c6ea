-- ===== src/Profiles.antt =====
-- src/battery_profile.cpp and include/battery_profile.h: the registry of battery chemistry profiles,
-- with the row of the non-volatile store that src/battery_nvs.cpp keeps for it. A name is its
-- characters without the terminator. A row of the wrong length is not read, which is the same as
-- no row. What the store does with a write is a parameter. The critical sections are left out.
mod Slots
mod Reload
mod Tests
use power_monitoring.Base.{
  ℕ, zero, suc, ◌+◌, ◌-◌, Bool, true, false, not, ◌&&◌, Option, none, some, List, [], ◌∷◌, ◌++◌,
  ltb, leb, ◌==◌, if◌then◌else◌, get_or, set, replicate, for_range,
}
use power_monitoring.Floats.{Float, lit, flt, fle}

abbrev pub builtin_count : ℕ
builtin_count = 4

abbrev pub max_profiles : ℕ
max_profiles = 16

abbrev pub blob_version : ℕ
blob_version = 1

-- The byte in a profile, which can also hold a number that the source does not name.
pub data Chemistry : Type 0 where
  lead_acid liion lfp lipo nicd nimh custom : Chemistry
  other_chemistry : ℕ → Chemistry

pub record Profile (F : Type 0) : Type 0 where
  pub id : ℕ
  pub name : List ℕ
  pub chemistry : Chemistry
  pub nominal_voltage : F
  pub rated_capacity_ah : F
  pub c_rating : F
  pub cutoff_voltage : F
  pub float_voltage : F
  pub charge_efficiency : F
  pub cycle_life_rated : ℕ
  pub min_soc_pct : F
  pub max_soc_pct : F

-- The two rows of the store: the version and the profiles.
pub record ProfileStore (F : Type 0) : Type 0 where
  pub version : Option ℕ
  pub blob : Option (List (Profile F))

pub record Registry (F : Type 0) : Type 0 where
  pub profiles : List (Profile F)
  pub populated : ℕ
  pub store : ProfileStore F

abbrev pub has_name : List ℕ → Bool
has_name [] = false
has_name (c ∷ cs) = true

-- The ids from `i` on, for `k` more slots, while `room` is left.
abbrev pub ids_from : ℕ → ℕ → ℕ → List ℕ
ids_from i zero room = []
ids_from i (suc k) zero = []
ids_from i (suc k) (suc room) = i ∷ ids_from (suc i) k room

-- What the store does with the two writes: none, the profiles only, both.
pub data Write : Type 0 where
  refused profiles_only written : Write

abbrev pub accepted : Write → Bool
accepted refused = false
accepted profiles_only = true
accepted written = true

module _ {F : Type 0} ⦃m : Float F⦄ where
  -- What `memset` leaves.
  abbrev pub zeroed : Profile F
  zeroed = record {
    id = 0;
    name = [];
    chemistry = lead_acid;
    nominal_voltage = lit 0 1;
    rated_capacity_ah = lit 0 1;
    c_rating = lit 0 1;
    cutoff_voltage = lit 0 1;
    float_voltage = lit 0 1;
    charge_efficiency = lit 0 1;
    cycle_life_rated = 0;
    min_soc_pct = lit 0 1;
    max_soc_pct = lit 0 1;
  }

  -- `kBuiltins`.
  abbrev pub lead_acid_builtin : Profile F
  lead_acid_builtin = record {
    id = 0;
    name =
        b'1' ∷ b'2' ∷ b'V' ∷ b' ' ∷ b'L' ∷ b'e' ∷ b'a' ∷ b'd' ∷ b'-' ∷ b'A' ∷ b'c' ∷ b'i' ∷ b'd'
        ∷ [];
    chemistry = lead_acid;
    nominal_voltage = lit 12 1;
    rated_capacity_ah = lit 100 1;
    c_rating = lit 2 10;
    cutoff_voltage = lit 105 10;
    float_voltage = lit 138 10;
    charge_efficiency = lit 85 100;
    cycle_life_rated = 500;
    min_soc_pct = lit 20 1;
    max_soc_pct = lit 100 1;
  }

  abbrev pub liion_builtin : Profile F
  liion_builtin = record {
    id = 1;
    name = b'L' ∷ b'i' ∷ b'-' ∷ b'i' ∷ b'o' ∷ b'n' ∷ b' ' ∷ b'3' ∷ b'.' ∷ b'7' ∷ b'V' ∷ [];
    chemistry = liion;
    nominal_voltage = lit 37 10;
    rated_capacity_ah = lit 25 10;
    c_rating = lit 1 1;
    cutoff_voltage = lit 3 1;
    float_voltage = lit 42 10;
    charge_efficiency = lit 95 100;
    cycle_life_rated = 500;
    min_soc_pct = lit 10 1;
    max_soc_pct = lit 95 1;
  }

  abbrev pub lfp_builtin : Profile F
  lfp_builtin = record {
    id = 2;
    name = b'L' ∷ b'i' ∷ b'F' ∷ b'e' ∷ b'P' ∷ b'O' ∷ b'4' ∷ b' ' ∷ b'3' ∷ b'.' ∷ b'2' ∷ b'V' ∷ [];
    chemistry = lfp;
    nominal_voltage = lit 32 10;
    rated_capacity_ah = lit 100 1;
    c_rating = lit 1 1;
    cutoff_voltage = lit 25 10;
    float_voltage = lit 365 100;
    charge_efficiency = lit 95 100;
    cycle_life_rated = 2000;
    min_soc_pct = lit 10 1;
    max_soc_pct = lit 100 1;
  }

  abbrev pub lipo_builtin : Profile F
  lipo_builtin = record {
    id = 3;
    name = b'L' ∷ b'i' ∷ b'P' ∷ b'o' ∷ b' ' ∷ b'3' ∷ b'.' ∷ b'7' ∷ b'V' ∷ [];
    chemistry = lipo;
    nominal_voltage = lit 37 10;
    rated_capacity_ah = lit 22 10;
    c_rating = lit 1 1;
    cutoff_voltage = lit 3 1;
    float_voltage = lit 42 10;
    charge_efficiency = lit 94 100;
    cycle_life_rated = 300;
    min_soc_pct = lit 20 1;
    max_soc_pct = lit 95 1;
  }

  abbrev pub builtins : List (Profile F)
  builtins = lead_acid_builtin ∷ liion_builtin ∷ lfp_builtin ∷ lipo_builtin ∷ []

  -- `profile_slot_valid`.
  unfoldable pub slot_valid : Profile F → Bool
  slot_valid p = has_name p.name && flt (lit 1 1000) p.rated_capacity_ah

  -- `persist_profiles_locked`: the profiles, then their version.
  unfoldable pub persist : Write → Registry F → Registry F
  persist refused r = r
  persist profiles_only r = record r {
    store = record { version = r.store.version; blob = some r.profiles };
  }
  persist written r = record r {
    store = record { version = some blob_version; blob = some r.profiles };
  }

  -- A round of the loop that overlays the stored profiles, on the profiles and the populated count.
  unfoldable pub overlay : List (Profile F) → ℕ → List (Profile F) × ℕ → List (Profile F) × ℕ
  unfolding slot_valid
  overlay stored i (profiles, populated) =
      let p = get_or stored i zeroed in
      if p.id == i && slot_valid p
      then (
        set profiles i p,
        (if leb builtin_count i && ltb populated (i + 1) then i + 1 else populated),
      )
      else (profiles, populated)

  -- The profiles before any override.
  abbrev pub defaults : List (Profile F)
  defaults = builtins ++ replicate (max_profiles - builtin_count) zeroed

  abbrev pub with_defaults : Registry F → Registry F
  with_defaults r = record r { profiles = defaults; populated = builtin_count }

  abbrev pub overlaid : List (Profile F) → Registry F → Registry F
  overlaid stored r =
      let s = for_range max_profiles 0 (overlay stored) (defaults, builtin_count) in
      record r { profiles = s.0; populated = s.1 }

  abbrev pub load_blob : Option (List (Profile F)) → Registry F → Registry F
  load_blob none r = with_defaults r
  load_blob (some stored) r = overlaid stored r

  unfoldable pub init_battery_profiles : Registry F → Registry F
  init_battery_profiles r = elim r.store.version [
    | none ↦ with_defaults r
    | some version ↦ if version == blob_version then load_blob r.store.blob r else with_defaults r
  ]

  unfoldable pub battery_profile_get : ℕ → Registry F → Option (Profile F)
  unfolding slot_valid
  battery_profile_get id r =
      let p = get_or r.profiles id zeroed in
      if leb max_profiles id
      then none
      else if ltb id r.populated
      then (if slot_valid p then some p else none)
      else none

  abbrev pub battery_profile_count : Registry F → ℕ
  battery_profile_count r = r.populated

  unfoldable pub battery_profile_list_ids : ℕ → Registry F → List ℕ
  battery_profile_list_ids max r = ids_from 0 r.populated max

  -- What the function answers, and the registry after it.
  unfoldable pub battery_profile_set : Write → Profile F → Registry F → Bool × Registry F
  unfolding persist
  battery_profile_set w p r =
      if leb max_profiles p.id
      then (false, r)
      else if not (has_name p.name)
      then (false, r)
      else if fle p.rated_capacity_ah (lit 1 1000)
      then (false, r)
      else (
        accepted w,
        persist w (record r {
          profiles = set r.profiles p.id p;
          populated = if ltb r.populated (p.id + 1) then p.id + 1 else r.populated;
        }),
      )

  -- `while (populated > 4) { if (valid(profiles[populated - 1])) break; populated--; }`
  unfoldable pub trim : List (Profile F) → ℕ → ℕ
  unfolding slot_valid
  trim profiles zero = zero
  trim profiles (suc n) =
      let rest = trim profiles n in
      if ltb builtin_count (suc n)
      then (if slot_valid (get_or profiles n zeroed) then suc n else rest)
      else suc n

  unfoldable pub battery_profile_delete : Write → ℕ → Registry F → Bool × Registry F
  unfolding persist trim
  battery_profile_delete w id r =
      let cleared = set r.profiles id zeroed in
      if ltb id builtin_count
      then (false, r)
      else if leb max_profiles id
      then (false, r)
      else if leb r.populated id
      then (false, r)
      else (
        accepted w,
        persist w (record r {
          profiles = cleared;
          populated = if id + 1 == r.populated then trim cleared r.populated else r.populated;
        }),
      )

  unfoldable pub battery_profile_reset_builtin : Write → ℕ → Registry F → Registry F
  unfolding persist
  battery_profile_reset_builtin w id r =
      if leb builtin_count id
      then r
      else persist w (record r { profiles = set r.profiles id (get_or builtins id zeroed) })
