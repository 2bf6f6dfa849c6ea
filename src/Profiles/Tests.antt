-- ===== src/Profiles/Tests.antt =====
-- Runs of the registry over numbers in millionths, and witnesses.
use power_monitoring.Base.{
  ℕ, zero, suc, ◌<◌, ◌≡◌, refl, true, none, some, [], ◌∷◌, arith, ◌==◌, if◌then◌else◌, get_or,
}
use power_monitoring.Floats.{ℤ, millionths}
use power_monitoring.Profiles.{
  builtin_count, custom, Profile, Registry, refused, written, zeroed, lipo_builtin, slot_valid,
  persist, with_defaults, init_battery_profiles, battery_profile_get, battery_profile_count,
  battery_profile_list_ids, battery_profile_set, battery_profile_delete,
}
use power_monitoring.Profiles.Slots.{
  get-delete, IsAcceptable, battery_profile_set-IsSound, get-set, hidden_defaults,
  with_defaults-IsSound,
}
use power_monitoring.Profiles.Reload.{IsOwned, get-init}

abbrev empty : Registry ℤ
empty = record { profiles = []; populated = 0; store = record { version = none; blob = none } }

-- A custom profile in slot 6: slots 4 and 5 stay empty.
abbrev custom_six : Profile ℤ
custom_six = record (lipo_builtin {F = ℤ}) { id = 6; chemistry = custom }

abbrev with_six : Registry ℤ
with_six = (battery_profile_set written custom_six (with_defaults empty)).1

custom_six-IsAcceptable : IsAcceptable custom_six
unfolding slot_valid
custom_six-IsAcceptable = record { in_range = omega arith; enough = refl; valid = refl }

-- The list of ids has the two empty slots too.
listed : battery_profile_list_ids 16 with_six ≡ 0 ∷ 1 ∷ 2 ∷ 3 ∷ 4 ∷ 5 ∷ 6 ∷ []
unfolding battery_profile_list_ids battery_profile_set
listed = refl

-- Deleting it trims the three of them.
trimmed : battery_profile_count (battery_profile_delete refused 6 with_six).1 ≡ 4
unfolding battery_profile_delete battery_profile_set
trimmed = refl

six_counted : with_six.populated ≡ 7
unfolding battery_profile_set
six_counted = refl

get-set_example :
    battery_profile_get 6 with_six
    ≡ (if 6 == 6 then some custom_six else battery_profile_get 6 (with_defaults empty))
get-set_example =
    get-set written custom_six 6 (with_defaults empty) (with_defaults-IsSound empty)
      custom_six-IsAcceptable

get-delete_example :
    battery_profile_get 2 (battery_profile_delete refused 6 with_six).1
    ≡ (if 6 == 2 then none else battery_profile_get 2 with_six)
get-delete_example =
    get-delete refused 6 2 with_six
      (battery_profile_set-IsSound written custom_six (with_defaults empty)
        (with_defaults-IsSound empty) custom_six-IsAcceptable)
      (omega arith) (omega (arith, six_counted))

defaults-IsOwned : IsOwned (with_defaults empty)
unfolding slot_valid
defaults-IsOwned = record { own = own_id; builtins_valid = valid_builtin }
  where
    own_id :
        (i : ℕ)
        → slot_valid (get_or (with_defaults empty).profiles i zeroed) ≡ true
        → (get_or (with_defaults empty).profiles i zeroed).id ≡ i
    own_id zero h = refl
    own_id (suc zero) h = refl
    own_id (suc (suc zero)) h = refl
    own_id (suc (suc (suc zero))) h = refl
    own_id (suc (suc (suc (suc i)))) h =
        absurd (ground (arith, h, hidden_defaults empty (suc (suc (suc (suc i)))) (omega arith)))

    valid_builtin :
        (i : ℕ)
        → i < builtin_count
        → slot_valid (get_or (with_defaults empty).profiles i zeroed) ≡ true
    valid_builtin zero h = refl
    valid_builtin (suc zero) h = refl
    valid_builtin (suc (suc zero)) h = refl
    valid_builtin (suc (suc (suc zero))) h = refl
    valid_builtin (suc (suc (suc (suc i)))) h = absurd (omega (arith, h))

get-init_example :
    battery_profile_get 3 (
      init_battery_profiles (record {
        profiles = [];
        populated = 9;
        store = (persist written (with_defaults empty)).store;
      }))
    ≡ battery_profile_get 3 (with_defaults empty)
get-init_example =
    get-init (with_defaults empty) [] 9 3 (with_defaults-IsSound empty) defaults-IsOwned
