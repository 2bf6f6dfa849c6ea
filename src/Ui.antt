-- ===== src/Ui.antt =====
-- src/ui_manager.cpp: the buttons and the lamps. A button number `255`, and a lamp's, has no pin.
mod Hold
mod Resets
mod Runs
mod Tests
use power_monitoring.Base.{
  ℕ, zero, suc, ◌/◌, ◌%◌, Bool, true, false, not, ◌&&◌, ◌||◌, Option, none, some, List, [], ◌∷◌,
  ◌++◌, map, ltb, leb, ◌==◌, if◌then◌else◌, update, sub32,
}

pub record Button : Type 0 where
  pub pin : ℕ
  pub last_raw : Bool
  pub stable : Bool
  pub last_change_ms : ℕ
  pub press_start_ms : ℕ
  pub last_release_ms : ℕ
  pub pending_short : Bool
  pub pending_long : Bool
  pub pending_double : Bool
  pub long_fired : Bool

pub data LedPattern : Type 0 where
  led_off led_on led_slow_blink led_fast_blink led_pulse : LedPattern

pub record Led : Type 0 where
  pub pin : ℕ
  pub pattern : LedPattern
  pub current : Bool
  pub last_toggle_ms : ℕ

-- What a button does to the other parts; a factory reset restarts the device.
pub data Effect : Type 0 where
  toggle_switch calibrate_baseline rediscover factory_reset : Effect

-- `page_wanted` is `next_display_page > 0`, `effects` are oldest first, and `levels` are what was
-- written to the pins.
pub record Ui : Type 0 where
  pub buttons : List Button
  pub leds : List Led
  pub page_wanted : Bool
  pub network_wifi : Bool
  pub network_cloud : Bool
  pub system_fault : Bool
  pub system_healthy : Bool
  pub effects : List Effect
  pub levels : ℕ → Bool

abbrev pub no_pin : ℕ
no_pin = 255

-- Two readings are different.
abbrev pub is_other : Bool → Bool → Bool
is_other true b = not b
is_other false b = b

unfoldable pub note_change : ℕ → Bool → Button → Button
note_change now raw b =
    if is_other raw b.last_raw then record b { last_change_ms = now; last_raw = raw } else b

-- A press shorter than a long one is a short one, or the second of two.
unfoldable pub note_release : ℕ → Button → Button
note_release now b =
    let dur = sub32 now b.press_start_ms in
    let classified =
      if ltb dur 5000 && leb 30 dur
      then if ltb (sub32 now b.last_release_ms) 300
        then record b { pending_double = true }
        else record b { pending_short = true }
      else b in
    record classified { last_release_ms = now }

-- A reading that has lasted for 20 ms.
unfoldable pub settle : ℕ → Bool → Button → Button
unfolding note_release
settle now raw b =
    let pressed = record b { stable = true; press_start_ms = now; long_fired = false } in
    let released = note_release now (record b { stable = false }) in
    if leb 20 (sub32 now b.last_change_ms) && is_other raw b.stable
    then if raw then pressed else released
    else b

-- A long press fires once for a hold.
unfoldable pub note_hold : ℕ → Button → Button
note_hold now b =
    if b.stable && leb 5000 (sub32 now b.press_start_ms) && not b.long_fired
    then record b { pending_long = true; long_fired = true }
    else b

unfoldable pub poll_button : ℕ → Bool → Button → Button
unfolding note_change settle note_hold
poll_button now raw b =
    if b.pin == no_pin then b else note_hold now (settle now raw (note_change now raw b))

-- Whether a button is pressed is read from its pin.
abbrev pub poll_all : ℕ → (ℕ → Bool) → List Button → List Button
poll_all now pressed [] = []
poll_all now pressed (b ∷ bs) = poll_button now (pressed b.pin) b ∷ poll_all now pressed bs

abbrev pub act : Effect → Ui → Ui
act e u = record u { effects = u.effects ++ e ∷ [] }

unfoldable pub on_short : ℕ → Ui → Ui
on_short idx u =
    if idx == 0
    then record u { page_wanted = true }
    else if idx == 1
    then act toggle_switch u
    else if idx == 2
    then act calibrate_baseline u
    else u

unfoldable pub on_long : ℕ → Ui → Ui
on_long idx u = if idx == 2 then act rediscover u else if idx == 3 then act factory_reset u else u

unfoldable pub handle_button_event : ℕ → Bool → Bool → Bool → Ui → Ui
unfolding on_short on_long
handle_button_event idx short_press long_press double_press u =
    let after = if short_press then on_short idx u else u in
    if long_press then on_long idx after else after

unfoldable pub handle_events : ℕ → List Button → Ui → Ui
unfolding handle_button_event
handle_events idx [] u = u
handle_events idx (b ∷ bs) u =
    let handled = handle_button_event idx b.pending_short b.pending_long b.pending_double u in
    let u' = if b.pending_short || (b.pending_long || b.pending_double) then handled else u in
    handle_events (suc idx) bs u'

abbrev pub clear_pending : Button → Button
clear_pending b = record b { pending_short = false; pending_long = false; pending_double = false }

unfoldable pub blink : ℕ → ℕ → Led → Led
blink interval now led =
    if leb interval (sub32 now led.last_toggle_ms)
    then record led { last_toggle_ms = now; current = not led.current }
    else led

-- A lamp after a tick, and whether it is lit.
unfoldable pub led_after : LedPattern → ℕ → Led → Led × Bool
unfolding blink
led_after led_off now led = (led, false)
led_after led_on now led = (led, true)
led_after led_slow_blink now led = let led' = blink 500 now led in (led', led'.current)
led_after led_fast_blink now led = let led' = blink 125 now led in (led', led'.current)
led_after led_pulse now led = (led, now / 250 % 2 == 0)

unfoldable pub update_leds : ℕ → List Led → (ℕ → Bool) → List Led × (ℕ → Bool)
unfolding led_after
update_leds now [] levels = ([], levels)
update_leds now (led ∷ leds) levels =
    let (led', lit) = led_after led.pattern now led in
    let skipped = update_leds now leds levels in
    let shown = update_leds now leds (update levels led.pin lit) in
    if led.pin == no_pin then (led ∷ skipped.0, skipped.1) else (led' ∷ shown.0, shown.1)

unfoldable pub loop_ui : ℕ → (ℕ → Bool) → Ui → Ui
unfolding poll_button handle_events update_leds
loop_ui now pressed u =
    let polled = poll_all now pressed u.buttons in
    let handled = handle_events 0 polled (record u { buttons = map clear_pending polled }) in
    let (leds, levels) = update_leds now handled.leds handled.levels in
    record handled { leds = leds; levels = levels }

unfoldable pub ui_set_led : ℕ → LedPattern → Ui → Ui
ui_set_led led pattern u = record u { leds = set_pattern led u.leds }
  where
    set_pattern : ℕ → List Led → List Led
    set_pattern i [] = []
    set_pattern zero (l ∷ ls) = record l { pattern = pattern } ∷ ls
    set_pattern (suc i) (l ∷ ls) = l ∷ set_pattern i ls

unfoldable pub ui_set_network_status : Bool → Bool → Ui → Ui
unfolding ui_set_led
ui_set_network_status wifi cloud u =
    let pattern =
      if not wifi then led_slow_blink else if not cloud then led_fast_blink else led_on in
    ui_set_led 0 pattern (record u { network_wifi = wifi; network_cloud = cloud })

unfoldable pub ui_set_fault : Bool → Ui → Ui
unfolding ui_set_led
ui_set_fault fault u =
    ui_set_led 1 (if fault then led_on else led_off) (record u { system_fault = fault })

unfoldable pub ui_set_heartbeat : Bool → Ui → Ui
unfolding ui_set_led
ui_set_heartbeat healthy u =
    ui_set_led 2 (if healthy then led_pulse else led_off) (record u { system_healthy = healthy })

unfoldable pub ui_next_display_page : Ui → Bool × Ui
ui_next_display_page u =
    if u.page_wanted then (true, record u { page_wanted = false }) else (false, u)

-- The pins of a board: `none` is a negative number.
abbrev pub pin_or_none : Option ℕ → ℕ
pin_or_none none = no_pin
pin_or_none (some pin) = pin

abbrev pub init_button : (ℕ → Bool) → Option ℕ → Button → Button
init_button pressed none b = record b { pin = no_pin }
init_button pressed (some pin) b = record b {
  pin = pin;
  last_raw = pressed pin;
  stable = pressed pin;
}

abbrev pub init_buttons : (ℕ → Bool) → List (Option ℕ) → List Button → List Button
init_buttons pressed (pin ∷ pins) (b ∷ bs) =
    init_button pressed pin b ∷ init_buttons pressed pins bs
init_buttons pressed pins bs = bs

abbrev pub init_leds : List (Option ℕ) → List Led → (ℕ → Bool) → List Led × (ℕ → Bool)
init_leds (pin ∷ pins) (led ∷ leds) levels =
    let p = pin_or_none pin in
    let rest = init_leds pins leds (if p == no_pin then levels else update levels p false) in
    (record led { pin = p } ∷ rest.0, rest.1)
init_leds pins leds levels = (leds, levels)

abbrev pub init_ui : List (Option ℕ) → List (Option ℕ) → (ℕ → Bool) → Ui → Ui
init_ui button_pins led_pins pressed u =
    let (leds, levels) = init_leds led_pins u.leds u.levels in
    record u { buttons = init_buttons pressed button_pins u.buttons; leds = leds; levels = levels }
