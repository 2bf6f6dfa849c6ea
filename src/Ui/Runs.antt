-- ===== src/Ui/Runs.antt =====
-- Resets by the button over a run of the loop, against the readings of its pin.
use power_monitoring.Base.{
  ℕ, ◌+◌, ◌≤◌, ◌≡◌, ap, ◌∙◌, Bool, true, false, not, ◌&&◌, ◌||◌, List, [], ◌∷◌, arith, leb, ◌==◌,
  if◌then◌else◌, sub32,
}
use power_monitoring.Ui.{
  Button, Ui, no_pin, is_other, note_change, note_release, settle, note_hold, poll_button, loop_ui,
}
use power_monitoring.Ui.Hold.{weight, resets, is_press, budget, weight_off}
use power_monitoring.Ui.Resets.{reset_button, loop_all, reset_button-loop_ui, loop_ui-resets}

-- What the pin reads at each tick.
abbrev pub readings : ℕ → List (ℕ × (ℕ → Bool)) → List (ℕ × Bool)
readings pin [] = []
readings pin ((now, pressed) ∷ more) = (now, pressed pin) ∷ readings pin more

-- How many of the unbroken runs of pressed readings last 20 ms or more by the 32-bit clock: `prev` is
-- the reading before, `since` the time at which its run began, and `counted` whether that run has been
-- counted.
abbrev pub long_runs : Bool → ℕ → Bool → List (ℕ × Bool) → ℕ
long_runs prev since counted [] = 0
long_runs prev since counted ((now, false) ∷ more) = long_runs false 0 false more
long_runs false since counted ((now, true) ∷ more) = long_runs true now false more
long_runs true since counted ((now, true) ∷ more) =
    let long = leb 20 (sub32 now since) in
    weight (long && not counted) + long_runs true since (long || counted) more

-- What a poll does to the debounced reading.
record IsPolled (now : ℕ) (raw : Bool) (b b' : Button) : Type 0 where
  same_pin : b'.pin ≡ b.pin
  read : b'.last_raw ≡ raw
  changed : b'.last_change_ms ≡ (if is_other raw b.last_raw then now else b.last_change_ms)
  settled : b'.stable ≡ (if leb 20 (sub32 now b'.last_change_ms) then raw else b.stable)

poll_button-IsPolled :
    (now : ℕ) (raw : Bool) (b : Button)
    → (b.pin == no_pin) ≡ false
    → IsPolled now raw b (poll_button now raw b)
unfolding poll_button note_change settle note_release note_hold
poll_button-IsPolled now raw b h = ground (arith, h)

-- The button's fields follow the run of readings that it is in.
record Follows (prev : Bool) (since : ℕ) (counted : Bool) (b : Button) : Type 0 where
  read : b.last_raw ≡ prev
  began : prev ≡ true → b.last_change_ms ≡ since
  held : prev ≡ true → counted ≡ true → b.stable ≡ true

released-step :
    (now : ℕ) (b b' : Button)
    → IsPolled now false b b'
    → Follows false 0 false b' × (weight (is_press b b') ≡ 0)
released-step now b b' q =
    let quiet : is_press b b' ≡ false = ground (arith, q.settled) in
    (
      record { read = q.read; began = λ e. ground (arith, e); held = λ e. ground (arith, e) },
      ap weight quiet,
    )

first-step :
    (now since : ℕ) (counted : Bool) (b b' : Button)
    → Follows false since counted b
    → IsPolled now true b b'
    → Follows true now false b' × (weight (is_press b b') ≡ 0)
first-step now since counted b b' h q =
    let at : b'.last_change_ms ≡ now = ground (arith, q.changed, h.read) in
    let same : b'.stable ≡ b.stable = ground (arith, q.settled, at) in
    let quiet : is_press b b' ≡ false = ground (arith, same) in
    (record { read = q.read; began = λ _. at; held = λ _ e. ground (arith, e) }, ap weight quiet)

later-step :
    (now since : ℕ) (counted : Bool) (b b' : Button)
    → Follows true since counted b
    → IsPolled now true b b'
    → let long = leb 20 (sub32 now since) in
      Follows true since (long || counted) b'
      × (weight (is_press b b') ≤ weight (long && not counted))
later-step now since counted b b' h q =
    let at : b'.last_change_ms ≡ since = ground (arith, q.changed, h.read, h.began) in
    let settled : b'.stable ≡ (if leb 20 (sub32 now since) then true else b.stable) =
      ground (arith, q.settled, at) in
    (
      record { read = q.read; began = λ _. at; held = λ _ e. ground (arith, e, settled, h.held) },
      ground (arith, settled, h.held),
    )

-- Where a poll leaves the run of readings, of which a new press uses one up.
record Step (now : ℕ) (raw prev : Bool) (since : ℕ) (counted : Bool) (b b' : Button)
    (more : List (ℕ × Bool)) : Type 0 where
  start : ℕ
  done : Bool
  follows : Follows raw start done b'
  paid :
      weight (is_press b b') + long_runs raw start done more
      ≤ long_runs prev since counted ((now, raw) ∷ more)

poll-Step :
    (now : ℕ) (raw prev : Bool) (since : ℕ) (counted : Bool) (b b' : Button)
    (more : List (ℕ × Bool))
    → Follows prev since counted b
    → IsPolled now raw b b'
    → Step now raw prev since counted b b' more
poll-Step now false prev since counted b b' more h q =
    let step = released-step now b b' q in
    record { start = 0; done = false; follows = step.0; paid = omega (arith, step.1) }
poll-Step now true false since counted b b' more h q =
    let step = first-step now since counted b b' h q in
    record { start = now; done = false; follows = step.0; paid = omega (arith, step.1) }
poll-Step now true true since counted b b' more h q =
    let step = later-step now since counted b b' h q in
    record {
      start = since;
      done = leb 20 (sub32 now since) || counted;
      follows = step.0;
      paid = omega (arith, step.1);
    }

loop_all-runs :
    (prev : Bool) (since : ℕ) (counted : Bool) (ticks : List (ℕ × (ℕ → Bool))) (u : Ui)
    → ((reset_button u).pin == no_pin) ≡ false
    → (reset_button u).pending_long ≡ false
    → Follows prev since counted (reset_button u)
    → resets (loop_all ticks u).effects
      ≤ resets u.effects
        + budget (reset_button u)
        + long_runs prev since counted (readings (reset_button u).pin ticks)
loop_all-runs prev since counted [] u p e h = omega arith
loop_all-runs prev since counted ((now, pressed) ∷ more) u p e h =
    let b = reset_button u in
    let b' = poll_button now (pressed b.pin) b in
    let u' = loop_ui now pressed u in
    let polled = poll_button-IsPolled now (pressed b.pin) b p in
    let step =
      poll-Step now (pressed b.pin) prev since counted b b' (readings b.pin more) h polled in
    let kept = reset_button-loop_ui now pressed u in
    let pin : (reset_button u').pin ≡ b.pin = ap (λ (x : Button). x.pin) kept ∙ polled.same_pin in
    let follows : Follows (pressed b.pin) step.start step.done (reset_button u') = record {
      read = ap (λ (x : Button). x.last_raw) kept ∙ step.follows.read;
      began = λ r. ap (λ (x : Button). x.last_change_ms) kept ∙ step.follows.began r;
      held = λ r c. ap (λ (x : Button). x.stable) kept ∙ step.follows.held r c;
    } in
    let rest =
      loop_all-runs (pressed b.pin) step.start step.done more u' (rw pin p)
        (ap (λ (x : Button). x.pending_long) kept) follows in
    let same : long_runs (pressed b.pin) step.start step.done (readings (reset_button u').pin more)
        ≡ long_runs (pressed b.pin) step.start step.done (readings b.pin more) =
      ap (λ k. long_runs (pressed b.pin) step.start step.done (readings k more)) pin in
    omega (arith, loop_ui-resets now pressed u e, rest, same, step.paid)

-- Button 3 has a pin and is at rest: not pressed and no long press pending. In a run of the loop,
-- whatever the readings and their times, the device is reset at most as often as there are unbroken
-- runs of pressed readings of that pin that last 20 ms or more; holding it longer does not reset again.
pub loop_all-presses :
    (ticks : List (ℕ × (ℕ → Bool))) (u : Ui)
    → ((reset_button u).pin == no_pin) ≡ false
    → (reset_button u).last_raw ≡ false
    → (reset_button u).stable ≡ false
    → (reset_button u).pending_long ≡ false
    → resets (loop_all ticks u).effects
      ≤ resets u.effects + long_runs false 0 false (readings (reset_button u).pin ticks)
loop_all-presses ticks u p r q e =
    let at_rest : Follows false 0 false (reset_button u) = record {
      read = r;
      began = λ t. ground (arith, t);
      held = λ t. ground (arith, t);
    } in
    omega (
      arith,
      loop_all-runs false 0 false ticks u p e at_rest,
      weight_off (not (reset_button u).long_fired) (reset_button u).stable q,
    )
