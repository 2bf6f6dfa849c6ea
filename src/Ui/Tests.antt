-- ===== src/Ui/Tests.antt =====
-- Runs of the buttons and the lamps, and witnesses.
use power_monitoring.Base.{ℕ, ◌+◌, ◌≤◌, ◌≡◌, refl, Bool, false, List, [], ◌∷◌, ◌==◌}
use power_monitoring.Ui.{
  Button, toggle_switch, factory_reset, Ui, note_change, note_release, settle, note_hold,
  poll_button, on_short, on_long, handle_button_event, handle_events, update_leds, loop_ui,
}
use power_monitoring.Ui.Hold.{resets}
use power_monitoring.Ui.Resets.{loop_all}
use power_monitoring.Ui.Runs.{readings, long_runs, loop_all-presses}

abbrev button : ℕ → Button
button n = record {
  pin = n;
  last_raw = false;
  stable = false;
  last_change_ms = 0;
  press_start_ms = 0;
  last_release_ms = 0;
  pending_short = false;
  pending_long = false;
  pending_double = false;
  long_fired = false;
}

abbrev panel : Ui
panel = record {
  buttons = button 0 ∷ button 1 ∷ button 2 ∷ button 3 ∷ [];
  leds = [];
  page_wanted = false;
  network_wifi = false;
  network_cloud = false;
  system_fault = false;
  system_healthy = false;
  effects = [];
  levels = λ pin. false;
}

abbrev only : ℕ → ℕ → Bool
only n pin = pin == n

-- Button 3 is held from 1 s to 9 s, and then let go.
abbrev hold : List (ℕ × (ℕ → Bool))
hold =
    (1000, only 3)
    ∷ (1020, only 3)
    ∷ (6000, only 3)
    ∷ (6020, only 3)
    ∷ (9000, only 3)
    ∷ (9050, λ pin. false)
    ∷ (9100, λ pin. false)
    ∷ []

one_reset : (loop_all hold panel).effects ≡ factory_reset ∷ []
unfolding loop_ui poll_button note_change settle note_release note_hold handle_events
    handle_button_event on_short on_long update_leds
one_reset = refl

one_run : long_runs false 0 false (readings 3 hold) ≡ 1
one_run = refl

loop_all-presses_example :
    resets (loop_all hold panel).effects ≤ 0 + long_runs false 0 false (readings 3 hold)
loop_all-presses_example = loop_all-presses hold panel refl refl refl refl

-- Button 1 is tapped twice within 300 ms: the second tap is not acted on.
abbrev taps : List (ℕ × (ℕ → Bool))
taps =
    (1000, only 1)
    ∷ (1020, only 1)
    ∷ (1080, λ pin. false)
    ∷ (1100, λ pin. false)
    ∷ (1150, only 1)
    ∷ (1170, only 1)
    ∷ (1230, λ pin. false)
    ∷ (1250, λ pin. false)
    ∷ []

one_toggle : (loop_all taps panel).effects ≡ toggle_switch ∷ []
unfolding loop_ui poll_button note_change settle note_release note_hold handle_events
    handle_button_event on_short on_long update_leds
one_toggle = refl
