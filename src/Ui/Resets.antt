-- ===== src/Ui/Resets.antt =====
-- Resets by the button in a round of the loop.
use power_monitoring.Base.{
  ℕ, zero, suc, ◌+◌, ◌≤◌, ◌<◌, ◌≡◌, refl, ap, ◌∙◌, Bool, true, false, ◌&&◌, ◌||◌, List, [], ◌∷◌,
  map, arith, ◌==◌, if◌then◌else◌, get_or, if_keeps, if_cases,
}
use power_monitoring.Ui.{
  Button, Effect, toggle_switch, calibrate_baseline, rediscover, factory_reset, Ui, poll_button,
  poll_all, act, on_short, on_long, handle_button_event, handle_events, clear_pending, loop_ui,
}
use power_monitoring.Ui.Hold.{
  weight, resets, resets-append, blank, is_press, budget, weight_off, poll_button-Pays,
}

abbrev pub reset_button : Ui → Button
reset_button u = get_or u.buttons 3 blank

abbrev pub loop_all : List (ℕ × (ℕ → Bool)) → Ui → Ui
loop_all [] u = u
loop_all ((now, pressed) ∷ more) u = loop_all more (loop_ui now pressed u)

act-resets : (e : Effect) (u : Ui) → resets (act e u).effects ≡ resets u.effects + resets (e ∷ [])
act-resets e u = resets-append u.effects (e ∷ [])

on_short-resets : (idx : ℕ) (u : Ui) → resets (on_short idx u).effects ≡ resets u.effects
unfolding on_short
on_short-resets idx u =
    let P : Ui → Type 0 = λ v. resets v.effects ≡ resets u.effects in
    if_keeps P (idx == 0) _ _ refl (
      if_keeps P (idx == 1) _ _ (omega (arith, act-resets toggle_switch u))
        (if_keeps P (idx == 2) _ _ (omega (arith, act-resets calibrate_baseline u)) refl))

on_long-resets :
    (idx : ℕ) (u : Ui) → resets (on_long idx u).effects ≡ resets u.effects + weight (idx == 3)
unfolding on_long
on_long-resets idx u =
    let P : Ui → Type 0 = λ v. resets v.effects ≡ resets u.effects + weight (idx == 3) in
    if_cases P (idx == 2) _ _
      (λ e.
        let off : (idx == 3) ≡ false = ground (arith, e) in
        let other : weight (idx == 3) ≡ 0 = ap weight off in
        omega (arith, act-resets rediscover u, other))
      (λ _.
        if_cases P (idx == 3) _ _
          (λ e.
            let one : weight (idx == 3) ≡ 1 = ap weight e in
            omega (arith, act-resets factory_reset u, one))
          (λ e. let other : weight (idx == 3) ≡ 0 = ap weight e in omega (arith, other)))

handle_button_event-resets :
    (idx : ℕ) (short_press long_press double_press : Bool) (u : Ui)
    → resets (handle_button_event idx short_press long_press double_press u).effects
      ≡ resets u.effects + weight (long_press && idx == 3)
unfolding handle_button_event
handle_button_event-resets idx short_press true double_press u =
    let after =
      if_keeps (λ (v : Ui). resets v.effects ≡ resets u.effects) short_press (on_short idx u) u
        (on_short-resets idx u) refl in
    omega (arith, after, on_long-resets idx (if short_press then on_short idx u else u))
handle_button_event-resets idx short_press false double_press u =
    let after =
      if_keeps (λ (v : Ui). resets v.effects ≡ resets u.effects) short_press (on_short idx u) u
        (on_short-resets idx u) refl in
    omega (arith, after)

-- The long presses among the buttons that reset.
longs : ℕ → List Button → ℕ
longs idx [] = 0
longs idx (b ∷ bs) = weight (b.pending_long && idx == 3) + longs (suc idx) bs

weight_on : (p : Bool) → weight (p && true) ≡ weight p
weight_on true = refl
weight_on false = refl

handle_events-resets :
    (idx : ℕ) (bs : List Button) (u : Ui)
    → resets (handle_events idx bs u).effects ≡ resets u.effects + longs idx bs
unfolding handle_events longs
handle_events-resets idx [] u = omega arith
handle_events-resets idx (b ∷ bs) u =
    let any = b.pending_short || (b.pending_long || b.pending_double) in
    let handled = handle_button_event idx b.pending_short b.pending_long b.pending_double u in
    let now =
      if_cases
        (λ (v : Ui). resets v.effects ≡ resets u.effects + weight (b.pending_long && idx == 3)) any
        handled u
        (λ _. handle_button_event-resets idx b.pending_short b.pending_long b.pending_double u)
        (λ e.
          let off : b.pending_long ≡ false = ground (arith, e) in
          let zero_long : weight (b.pending_long && idx == 3) ≡ 0 =
            ap (λ t. weight (t && idx == 3)) off in
          omega (arith, zero_long)) in
    omega (arith, now, handle_events-resets (suc idx) bs (if any then handled else u))

longs_none : (idx : ℕ) (bs : List Button) → 3 < idx → longs idx bs ≡ 0
unfolding longs
longs_none idx [] h = refl
longs_none idx (b ∷ bs) h =
    let off : (idx == 3) ≡ false = ground (arith, h) in
    omega
      (arith, weight_off b.pending_long (idx == 3) off, longs_none (suc idx) bs (omega (arith, h)))

longs-button : (bs : List Button) → longs 0 bs ≡ weight (get_or bs 3 blank).pending_long
unfolding longs
longs-button [] = refl
longs-button (a ∷ []) = omega (arith, weight_off a.pending_long false refl)
longs-button (a ∷ b ∷ []) =
    omega (arith, weight_off a.pending_long false refl, weight_off b.pending_long false refl)
longs-button (a ∷ b ∷ c ∷ []) = omega (
  arith,
  weight_off a.pending_long false refl,
  weight_off b.pending_long false refl,
  weight_off c.pending_long false refl,
)
longs-button (a ∷ b ∷ c ∷ d ∷ bs) = omega (
  arith,
  weight_off a.pending_long false refl,
  weight_off b.pending_long false refl,
  weight_off c.pending_long false refl,
  weight_on d.pending_long,
  longs_none 4 bs (omega arith),
)

poll_all-get_or :
    (now : ℕ) (pressed : ℕ → Bool) (bs : List Button) (i : ℕ)
    → get_or (poll_all now pressed bs) i blank
      ≡ poll_button now (pressed (get_or bs i blank).pin) (get_or bs i blank)
unfolding poll_button
poll_all-get_or now pressed [] i = refl
poll_all-get_or now pressed (b ∷ bs) zero = refl
poll_all-get_or now pressed (b ∷ bs) (suc i) = poll_all-get_or now pressed bs i

cleared-get_or :
    (bs : List Button) (i : ℕ)
    → get_or (map clear_pending bs) i blank ≡ clear_pending (get_or bs i blank)
cleared-get_or [] i = refl
cleared-get_or (b ∷ bs) zero = refl
cleared-get_or (b ∷ bs) (suc i) = cleared-get_or bs i

-- Events leave the buttons alone.
handle_events-buttons :
    (idx : ℕ) (bs : List Button) (u : Ui) → (handle_events idx bs u).buttons ≡ u.buttons
unfolding handle_events handle_button_event on_short on_long
handle_events-buttons idx [] u = refl
handle_events-buttons idx (b ∷ bs) u =
    let P : Ui → Type 0 = λ v. v.buttons ≡ u.buttons in
    let any = b.pending_short || (b.pending_long || b.pending_double) in
    let after = if b.pending_short then on_short idx u else u in
    let handled = handle_button_event idx b.pending_short b.pending_long b.pending_double u in
    let short =
      if_keeps P b.pending_short (on_short idx u) u
        (if_keeps P (idx == 0) _ _ refl
          (if_keeps P (idx == 1) _ _ refl (if_keeps P (idx == 2) _ _ refl refl)))
        refl in
    let long =
      if_keeps P b.pending_long (on_long idx after) after
        (if_keeps P (idx == 2) _ _ short (if_keeps P (idx == 3) _ _ short short)) short in
    handle_events-buttons (suc idx) bs (if any then handled else u)
    ∙ if_keeps P any handled u long refl

-- Button 3 after a round of the loop.
pub reset_button-loop_ui :
    (now : ℕ) (pressed : ℕ → Bool) (u : Ui)
    → reset_button (loop_ui now pressed u)
      ≡ clear_pending (poll_button now (pressed (reset_button u).pin) (reset_button u))
unfolding loop_ui
reset_button-loop_ui now pressed u =
    let polled = poll_all now pressed u.buttons in
    ap (λ bs. get_or bs 3 blank)
      (handle_events-buttons 0 polled (record u { buttons = map clear_pending polled }))
    ∙ cleared-get_or polled 3
    ∙ ap clear_pending (poll_all-get_or now pressed u.buttons 3)

-- What a round of the loop may reset.
pub loop_ui-resets :
    (now : ℕ) (pressed : ℕ → Bool) (u : Ui)
    → (reset_button u).pending_long ≡ false
    → let b = reset_button u in
      let u' = loop_ui now pressed u in
      resets u'.effects + budget (reset_button u')
      ≤ resets u.effects + budget b + weight (is_press b (poll_button now (pressed b.pin) b))
unfolding loop_ui
loop_ui-resets now pressed u e =
    let b = reset_button u in
    let polled = poll_all now pressed u.buttons in
    let cleared : Ui = record u { buttons = map clear_pending polled } in
    let b' = poll_button now (pressed b.pin) b in
    let at : get_or polled 3 blank ≡ b' = poll_all-get_or now pressed u.buttons 3 in
    let fired = handle_events-resets 0 polled cleared in
    let long : longs 0 polled ≡ weight b'.pending_long =
      longs-button polled ∙ ap (λ (x : Button). weight x.pending_long) at in
    let same : budget (reset_button (loop_ui now pressed u)) ≡ budget b' =
      ap budget (reset_button-loop_ui now pressed u) in
    omega (arith, fired, long, same, poll_button-Pays now (pressed b.pin) b e)
