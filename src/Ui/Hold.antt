-- ===== src/Ui/Hold.antt =====
-- How often a button can reset the device.
use power_monitoring.Base.{
  ℕ, suc, ◌+◌, ◌≤◌, ◌≡◌, refl, ap, ◌∙◌, Bool, true, false, not, ◌&&◌, List, [], ◌∷◌, ◌++◌, arith,
  ltb, leb, ◌==◌, if◌then◌else◌, sub32, if_keeps, if_cases,
}
use power_monitoring.Ui.{
  Button, Effect, toggle_switch, calibrate_baseline, rediscover, factory_reset, no_pin, is_other,
  note_change, note_release, settle, note_hold, poll_button,
}

abbrev pub weight : Bool → ℕ
weight true = 1
weight false = 0

-- The resets among the effects.
abbrev pub resets : List Effect → ℕ
resets [] = 0
resets (factory_reset ∷ es) = suc (resets es)
resets (toggle_switch ∷ es) = resets es
resets (calibrate_baseline ∷ es) = resets es
resets (rediscover ∷ es) = resets es

pub resets-append : (xs ys : List Effect) → resets (xs ++ ys) ≡ resets xs + resets ys
resets-append [] ys = omega arith
resets-append (factory_reset ∷ es) ys = omega (arith, resets-append es ys)
resets-append (toggle_switch ∷ es) ys = resets-append es ys
resets-append (calibrate_baseline ∷ es) ys = resets-append es ys
resets-append (rediscover ∷ es) ys = resets-append es ys

-- A button that does not exist.
abbrev pub blank : Button
blank = record {
  pin = no_pin;
  last_raw = false;
  stable = false;
  last_change_ms = 0;
  press_start_ms = 0;
  last_release_ms = 0;
  pending_short = false;
  pending_long = false;
  pending_double = false;
  long_fired = true;
}

-- Whether a poll takes the button as newly pressed.
abbrev pub is_press : Button → Button → Bool
is_press b b' = not b.stable && b'.stable

-- How many long presses a button may still report in the hold that it is in.
abbrev pub budget : Button → ℕ
budget b = weight (not b.long_fired && b.stable)

pub weight_off : (p q : Bool) → q ≡ false → weight (p && q) ≡ 0
weight_off true q e = ap weight e
weight_off false q e = refl

-- What a poll may report: at most what is left and one more for a new press.
abbrev pub Pays : Button → Button → Type 0
Pays b b' = weight b'.pending_long + budget b' ≤ budget b + weight (is_press b b')

-- The fields that a change or a release leaves alone.
abbrev pub Same : Button → Button → Type 0
Same b x =
    (x.long_fired ≡ b.long_fired) × ((x.pending_long ≡ b.pending_long) × (x.stable ≡ b.stable))

note_release-Same : (now : ℕ) (b : Button) → Same b (note_release now b)
unfolding note_release
note_release-Same now b =
    let dur = sub32 now b.press_start_ms in
    let soon = ltb (sub32 now b.last_release_ms) 300 in
    let one =
      if soon then record b { pending_double = true } else record b { pending_short = true } in
    let k : Same b (if ltb dur 5000 && leb 30 dur then one else b) =
      if_keeps (Same b) (ltb dur 5000 && leb 30 dur) one b
        (if_keeps (Same b) soon (record b { pending_double = true })
          (record b { pending_short = true }) (refl, (refl, refl)) (refl, (refl, refl)))
        (refl, (refl, refl)) in
    (k.0, (k.1.0, k.1.1))

unchanged-Pays : (b : Button) → b.pending_long ≡ false → Pays b b
unchanged-Pays b e =
    let none_new : weight b.pending_long ≡ 0 = ap weight e in omega (arith, none_new)

released-Pays : (b x : Button) → x.stable ≡ false → x.pending_long ≡ false → Pays b x
released-Pays b x f e =
    let none_new : weight x.pending_long ≡ 0 = ap weight e in
    omega (arith, none_new, weight_off (not x.long_fired) x.stable f)

settle-Pays :
    (now : ℕ) (raw : Bool) (b : Button)
    → b.pending_long ≡ false
    → Pays b (settle now raw b) × ((settle now raw b).pending_long ≡ false)
unfolding settle
settle-Pays now raw b e =
    let P : Button → Type 0 = λ x. Pays b x × (x.pending_long ≡ false) in
    let pressed : Button = record b { stable = true; press_start_ms = now; long_fired = false } in
    let loose : Button = record b { stable = false } in
    let k = note_release-Same now loose in
    if_cases P (leb 20 (sub32 now b.last_change_ms) && is_other raw b.stable)
      (if raw then pressed else note_release now loose) b
      (λ c.
        if_cases P raw pressed (note_release now loose)
          (λ r.
            let up : (not b.stable && true) ≡ true = ground (arith, c, r) in
            let none_new : weight b.pending_long ≡ 0 = ap weight e in
            let new : weight (not b.stable && true) ≡ 1 = ap weight up in
            (omega (arith, none_new, new), e))
          (λ _. (released-Pays b (note_release now loose) k.1.1 (k.1.0 ∙ e), k.1.0 ∙ e)))
      (λ _. (unchanged-Pays b e, e))

note_hold-Pays :
    (now : ℕ) (b x : Button) → Pays b x → x.pending_long ≡ false → Pays b (note_hold now x)
unfolding note_hold
note_hold-Pays now b x p e =
    if_cases (Pays b) (x.stable && leb 5000 (sub32 now x.press_start_ms) && not x.long_fired)
      (record x { pending_long = true; long_fired = true }) x
      (λ c.
        let left : (not x.long_fired && x.stable) ≡ true = ground (arith, c) in
        let none_new : weight x.pending_long ≡ 0 = ap weight e in
        let one : budget x ≡ 1 = ap weight left in omega (arith, p, none_new, one))
      (λ _. p)

pub poll_button-Pays :
    (now : ℕ) (raw : Bool) (b : Button) → b.pending_long ≡ false → Pays b (poll_button now raw b)
unfolding poll_button note_change
poll_button-Pays now raw b e =
    let noted = note_change now raw b in
    let same =
      if_keeps (Same b) (is_other raw b.last_raw)
        (record b { last_change_ms = now; last_raw = raw }) b (refl, (refl, refl))
        (refl, (refl, refl)) in
    let settled = settle-Pays now raw noted (same.1.0 ∙ e) in
    let held = note_hold-Pays now noted (settle now raw noted) settled.0 settled.1 in
    let after = note_hold now (settle now raw noted) in
    let moved : budget noted ≡ budget b =
      ap (λ t. weight (not t && noted.stable)) same.0
      ∙ ap (λ t. weight (not b.long_fired && t)) same.1.1 in
    let press : weight (is_press noted after) ≡ weight (is_press b after) =
      ap (λ t. weight (not t && after.stable)) same.1.1 in
    if_keeps (Pays b) (b.pin == no_pin) b after (unchanged-Pays b e)
      (omega (arith, held, moved, press))
