-- ===== src/Expander/Tests.antt =====
-- Runs of the expander driver.
use power_monitoring.Base.{◌≡◌, refl, true, some, List, [], ◌∷◌, arith, ◌==◌, if◌then◌else◌}
use power_monitoring.Expander.{Wire, Expander, power_on, init, set_pin}
use power_monitoring.Expander.Shadow.{
  SetsPin, set_pin_lem, Call, start, pin, calls, acknowledged, calls-Tracks,
}

-- The second transmission fails.
abbrev flaky : Wire
flaky n a b = if n == 1 then 2 else 0

abbrev script : List Call
script = start 0x3f ∷ pin 3 true ∷ pin 3 true ∷ pin 0 true ∷ []

script_run : (calls flaky script power_on).shadow ≡ 9
unfolding init set_pin
script_run = refl

abbrev started : Expander
started = record power_on { inited = true; shadow = 1 }

set_pin_lem_example : SetsPin flaky 3 true started (set_pin flaky 3 true started)
set_pin_lem_example = set_pin_lem flaky 3 true started refl (omega arith) (omega arith)

calls-Tracks_example :
    acknowledged (calls flaky script power_on).sent ≡ some (calls flaky script power_on).shadow
unfolding init set_pin
calls-Tracks_example = calls-Tracks flaky script refl
