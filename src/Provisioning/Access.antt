-- ===== src/Provisioning/Access.antt =====
-- What a client that does not know the PIN can do.
use mathlib.Core.Path.{subst}
use power_monitoring.Base.{
  ℕ, suc, ◌+◌, ◌<◌, ◌≡◌, refl, sym, ◌∙◌, Bool, true, false, not, List, [], ◌∷◌, ◌++◌, arith, ltb,
  leb, ◌==◌, if◌then◌else◌, length, All, u16, sub32, if_keeps,
}
use power_monitoring.Provisioning.{
  Field, Reply, rate_limited, invalid_pin, invalid_old_pin, bad_new_pin, pin_updated, pin_required,
  update_triggered, update_status, interval_updated, url_required, url_updated, unknown_command,
  bad_json, obeyed, Command, protected, get_status, set_pin, ota_check, ota_status,
  ota_set_interval, ota_start, ota_set_backend_url, unknown, malformed, Request, Provisioner,
  send_response, provided, number_or_zero, is_cooling, note_failure, check_pin, rate_window_ms,
  max_commands, renew_window, count_command, check_rate_limit, handle_set_pin, clamp_interval,
  dispatch, handle_command,
}

-- How many protected commands were obeyed.
abbrev pub obeyed_count : List Reply → ℕ
obeyed_count [] = 0
obeyed_count (obeyed n ∷ more) = suc (obeyed_count more)
obeyed_count (_ ∷ more) = obeyed_count more

obeyed_count-append :
    (xs ys : List Reply) → obeyed_count (xs ++ ys) ≡ obeyed_count xs + obeyed_count ys
obeyed_count-append [] ys = omega arith
obeyed_count-append (obeyed n ∷ xs) ys = omega (arith, obeyed_count-append xs ys)
obeyed_count-append (rate_limited ∷ xs) ys = obeyed_count-append xs ys
obeyed_count-append (invalid_pin ∷ xs) ys = obeyed_count-append xs ys
obeyed_count-append (invalid_old_pin ∷ xs) ys = obeyed_count-append xs ys
obeyed_count-append (bad_new_pin ∷ xs) ys = obeyed_count-append xs ys
obeyed_count-append (pin_updated ∷ xs) ys = obeyed_count-append xs ys
obeyed_count-append (pin_required ∷ xs) ys = obeyed_count-append xs ys
obeyed_count-append (update_triggered ∷ xs) ys = obeyed_count-append xs ys
obeyed_count-append (update_status ∷ xs) ys = obeyed_count-append xs ys
obeyed_count-append (interval_updated ∷ xs) ys = obeyed_count-append xs ys
obeyed_count-append (url_required ∷ xs) ys = obeyed_count-append xs ys
obeyed_count-append (url_updated ∷ xs) ys = obeyed_count-append xs ys
obeyed_count-append (unknown_command ∷ xs) ys = obeyed_count-append xs ys
obeyed_count-append (bad_json ∷ xs) ys = obeyed_count-append xs ys

-- Neither the PIN nor the number of obeyed commands is another.
abbrev pub Protects : Provisioner → Provisioner → Type 0
Protects s s' = (s'.ble_pin ≡ s.ble_pin) × (obeyed_count s'.replies ≡ obeyed_count s.replies)

reply-Protects :
    (r : Reply) (s s' : Provisioner)
    → obeyed_count (r ∷ []) ≡ 0
    → Protects s s'
    → Protects s (send_response r s')
reply-Protects r s s' e h = (h.0, omega (arith, obeyed_count-append s'.replies (r ∷ []), e, h.1))

check_pin-Protects :
    (atoi : List ℕ → ℕ) (now : ℕ) (pin : Field) (s : Provisioner)
    → (provided atoi pin == s.ble_pin) ≡ false
    → Protects s (check_pin atoi now pin s).1 × ((check_pin atoi now pin s).0 ≡ false)
unfolding check_pin
check_pin-Protects atoi now pin s w =
    let P : Bool × Provisioner → Type 0 = λ r. Protects s r.1 × (r.0 ≡ false) in
    rw w (
      if_keeps P (s.ble_pin == 0) _ _ ((refl, refl), refl)
        (if_keeps P (is_cooling now s) _ _ (reply-Protects rate_limited s s refl (refl, refl), refl)
          (reply-Protects invalid_pin s (note_failure now s) refl (refl, refl), refl)))

check_rate_limit-Protects : (now : ℕ) (s : Provisioner) → Protects s (check_rate_limit now s).1
unfolding check_rate_limit renew_window count_command
check_rate_limit-Protects now s =
    let fresh = renew_window now s in
    let counted : Provisioner = record fresh { rate_cmd_count = u16 (fresh.rate_cmd_count + 1) } in
    let P : Bool × Provisioner → Type 0 = λ r. Protects s r.1 in
    let same =
      if_keeps (Protects s) (leb rate_window_ms (sub32 now s.rate_window_start))
        (record s { rate_window_start = now; rate_cmd_count = 0 }) s (refl, refl) (refl, refl) in
    if_keeps P (ltb (sub32 now fresh.rate_last_cmd) 100)
      (if ltb max_commands counted.rate_cmd_count
        then (false, send_response rate_limited counted)
        else (true, record counted { rate_last_cmd = now }))
      (true, record fresh { rate_cmd_count = 0; rate_last_cmd = now })
      (if_keeps P (ltb max_commands counted.rate_cmd_count)
        (false, send_response rate_limited counted) (true, record counted { rate_last_cmd = now })
        (reply-Protects rate_limited s counted refl same) same)
      same

-- The request has neither the PIN nor the old PIN.
pub record IsStranger (atoi : List ℕ → ℕ) (ble_pin : ℕ) (r : Request) : Type 0 where
  pub wrong_pin : (provided atoi r.pin == ble_pin) ≡ false
  pub wrong_old_pin : (number_or_zero r.old_pin == ble_pin) ≡ false

dispatch-Protects :
    (atoi : List ℕ → ℕ) (now : ℕ) (c : Command) (r : Request) (s : Provisioner)
    → 0 < s.ble_pin
    → IsStranger atoi s.ble_pin r
    → Protects s (dispatch atoi now c r s)
unfolding dispatch handle_set_pin
dispatch-Protects atoi now (protected n) r s p h =
    let c = check_pin-Protects atoi now r.pin s h.wrong_pin in rw c.1 c.0
dispatch-Protects atoi now get_status r s p h =
    let c = check_pin-Protects atoi now r.pin s h.wrong_pin in
    rw c.1 (reply-Protects pin_required s (check_pin atoi now r.pin s).1 refl c.0)
dispatch-Protects atoi now set_pin r s p h =
    let set_up : (s.ble_pin == 0) ≡ false = ground (arith, p) in
    rw (set_up, h.wrong_old_pin) (reply-Protects invalid_old_pin s s refl (refl, refl))
dispatch-Protects atoi now ota_check r s p h = reply-Protects update_triggered s s refl (refl, refl)
dispatch-Protects atoi now ota_status r s p h = reply-Protects update_status s s refl (refl, refl)
dispatch-Protects atoi now ota_set_interval r s p h =
    reply-Protects interval_updated s
      (record s { poll_interval = clamp_interval (number_or_zero r.interval) }) refl (refl, refl)
dispatch-Protects atoi now ota_start r s p h = reply-Protects update_triggered s s refl (refl, refl)
dispatch-Protects atoi now ota_set_backend_url r s p h =
    if_keeps (Protects s) (length r.url == 0) (send_response url_required s)
      (send_response url_updated (record s { backend_url = r.url }))
      (reply-Protects url_required s s refl (refl, refl))
      (reply-Protects url_updated s (record s { backend_url = r.url }) refl (refl, refl))
dispatch-Protects atoi now unknown r s p h = reply-Protects unknown_command s s refl (refl, refl)
dispatch-Protects atoi now malformed r s p h = reply-Protects bad_json s s refl (refl, refl)

handle_command-Protects :
    (atoi : List ℕ → ℕ) (now : ℕ) (r : Request) (s : Provisioner)
    → 0 < s.ble_pin
    → IsStranger atoi s.ble_pin r
    → Protects s (handle_command atoi now r s)
unfolding handle_command
handle_command-Protects atoi now r s p h =
    let s' = (check_rate_limit now s).1 in
    let limited = check_rate_limit-Protects now s in
    let done =
      dispatch-Protects atoi now r.cmd r s' (rw limited.0 p)
        (subst (λ x. IsStranger atoi x r) (sym limited.0) h) in
    if_keeps (Protects s) (not (check_rate_limit now s).0) s' (dispatch atoi now r.cmd r s') limited
      (done.0 ∙ limited.0, done.1 ∙ limited.1)

abbrev pub handle_all : (List ℕ → ℕ) → List (ℕ × Request) → Provisioner → Provisioner
handle_all atoi [] s = s
handle_all atoi ((now, r) ∷ more) s = handle_all atoi more (handle_command atoi now r s)

-- With a PIN: whatever commands come, at whatever times, from clients whose PIN and old PIN are wrong,
-- the PIN stays, and no command that wants the PIN is obeyed.
pub strangers-Protects :
    (atoi : List ℕ → ℕ) (requests : List (ℕ × Request)) (s : Provisioner)
    → 0 < s.ble_pin
    → All (λ q. IsStranger atoi s.ble_pin q.1) requests
    → Protects s (handle_all atoi requests s)
strangers-Protects atoi [] s p h = (refl, refl)
strangers-Protects atoi ((now, r) ∷ more) s p h =
    let one = handle_command-Protects atoi now r s p h.0 in
    let s' = handle_command atoi now r s in
    let rest =
      strangers-Protects atoi more s' (rw one.0 p)
        (subst (λ x. All (λ q. IsStranger atoi x q.1) more) (sym one.0) h.1) in
    (rest.0 ∙ one.0, rest.1 ∙ one.1)
