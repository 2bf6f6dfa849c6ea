-- ===== src/Provisioning/Guessing.antt =====
-- `set_pin` as a way to guess the PIN: wrong old PINs are not counted.
use mathlib.Core.Path.{subst}
use power_monitoring.Base.{
  ℕ, ◌≤◌, ◌<◌, ◌≡◌, refl, sym, ◌∙◌, true, false, List, [], ◌∷◌, ◌++◌, arith, ◌==◌, All, sub32,
}
use power_monitoring.Provisioning.{
  set_pin, Request, Provisioner, number_or_zero, renew_window, count_command, check_rate_limit,
  handle_set_pin, dispatch, handle_command,
}
use power_monitoring.Provisioning.Access.{handle_all}

-- Commands of which each comes 100 ms or more, by the 32-bit clock, after the one before.
abbrev pub IsSpaced : ℕ → List (ℕ × Request) → Type 0
IsSpaced last [] = Unit
IsSpaced last ((now, r) ∷ more) = (100 ≤ sub32 now last) × IsSpaced now more

-- A `set_pin` with a wrong old PIN.
pub record IsGuess (ble_pin : ℕ) (r : Request) : Type 0 where
  pub is_set_pin : r.cmd ≡ set_pin
  pub is_wrong : (number_or_zero r.old_pin == ble_pin) ≡ false

-- The PIN and its failures are as before, and the command was let through at `now`.
record LeavesPin (now : ℕ) (s s' : Provisioner) : Type 0 where
  same_pin : s'.ble_pin ≡ s.ble_pin
  same_count : s'.fail_count ≡ s.fail_count
  same_time : s'.last_fail_ms ≡ s.last_fail_ms
  let_through : s'.rate_last_cmd ≡ now

-- A command that comes 100 ms or more after the last one is not limited.
slow_command :
    (now : ℕ) (s : Provisioner)
    → 100 ≤ sub32 now s.rate_last_cmd
    → ((check_rate_limit now s).0 ≡ true) × LeavesPin now s (check_rate_limit now s).1
unfolding check_rate_limit renew_window count_command
slow_command now s h = ground (arith, h)

handle_slow :
    (atoi : List ℕ → ℕ) (now : ℕ) (r : Request) (s : Provisioner)
    → 100 ≤ sub32 now s.rate_last_cmd
    → r.cmd ≡ set_pin
    → handle_command atoi now r s ≡ handle_set_pin r (check_rate_limit now s).1
unfolding handle_command dispatch
handle_slow atoi now r s h e = rw ((slow_command now s h).0, e) refl

guess-LeavesPin :
    (atoi : List ℕ → ℕ) (now : ℕ) (r : Request) (s : Provisioner)
    → 0 < s.ble_pin
    → 100 ≤ sub32 now s.rate_last_cmd
    → IsGuess s.ble_pin r
    → LeavesPin now s (handle_command atoi now r s)
unfolding handle_set_pin
guess-LeavesPin atoi now r s p h g =
    let through = (slow_command now s h).1 in
    rw (handle_slow atoi now r s h g.is_set_pin) (ground (arith, through, p, g.is_wrong))

right_one :
    (atoi : List ℕ → ℕ) (now : ℕ) (r : Request) (s : Provisioner)
    → 100 ≤ sub32 now s.rate_last_cmd
    → r.cmd ≡ set_pin
    → number_or_zero r.old_pin ≡ s.ble_pin
    → 0 < number_or_zero r.new_pin
    → number_or_zero r.new_pin ≤ 999999
    → (handle_command atoi now r s).ble_pin ≡ number_or_zero r.new_pin
unfolding handle_set_pin
right_one atoi now r s h c e low high =
    rw (handle_slow atoi now r s h c) (ground (arith, (slow_command now s h).1, e, low, high))

-- With a PIN: `set_pin` commands with wrong old PINs, however many, each at least 100 ms after the
-- command before, are not counted as failures: the count and the time of the last failure stay. One
-- more such command, with the right old PIN and a new one of 1 to 999999, then sets the PIN.
pub set_pin-unlimited :
    (atoi : List ℕ → ℕ) (guesses : List (ℕ × Request)) (now : ℕ) (r : Request) (s : Provisioner)
    → 0 < s.ble_pin
    → IsSpaced s.rate_last_cmd (guesses ++ (now, r) ∷ [])
    → All (λ g. IsGuess s.ble_pin g.1) guesses
    → r.cmd ≡ set_pin
    → number_or_zero r.old_pin ≡ s.ble_pin
    → 0 < number_or_zero r.new_pin
    → number_or_zero r.new_pin ≤ 999999
    → let s' = handle_all atoi guesses s in
      (s'.fail_count ≡ s.fail_count)
      × ((s'.last_fail_ms ≡ s.last_fail_ms)
          × ((handle_command atoi now r s').ble_pin ≡ number_or_zero r.new_pin))
set_pin-unlimited atoi [] now r s p d h c e low high =
    (refl, (refl, right_one atoi now r s d.0 c e low high))
set_pin-unlimited atoi ((t, g) ∷ guesses) now r s p d h c e low high =
    let one = guess-LeavesPin atoi t g s p d.0 h.0 in
    let s' = handle_command atoi t g s in
    let rest =
      set_pin-unlimited atoi guesses now r s' (rw one.same_pin p)
        (subst (λ x. IsSpaced x (guesses ++ (now, r) ∷ [])) (sym one.let_through) d.1)
        (subst (λ x. All (λ q. IsGuess x q.1) guesses) (sym one.same_pin) h.1) c
        (e ∙ sym one.same_pin) low high in
    (rest.0 ∙ one.same_count, (rest.1.0 ∙ one.same_time, rest.1.1))
