-- ===== src/Provisioning.antt =====
-- src/ble_provisioner.cpp: the PIN, the limit on the rate of commands, and which commands are obeyed.
-- What the commands do to the other parts is left out, but for the PIN and the update's settings.
mod Lockout
mod Accepts
mod Access
mod Guessing
mod Tests
-- A field of a command: a string, or what ArduinoJson makes of it as a number (0 for no number).
use power_monitoring.Base.{
  ℕ, ◌+◌, ◌*◌, ◌^◌, Bool, true, false, not, ◌&&◌, ◌||◌, List, [], ◌∷◌, ◌++◌, ltb, leb, ◌==◌,
  if◌then◌else◌, length, u16, sub32,
}

pub data Field : Type 0 where
  as_text : List ℕ → Field
  as_number : ℕ → Field

pub data Reply : Type 0 where
  rate_limited : Reply
  invalid_pin : Reply
  invalid_old_pin : Reply
  bad_new_pin : Reply
  pin_updated : Reply
  pin_required : Reply
  update_triggered : Reply
  update_status : Reply
  interval_updated : Reply
  url_required : Reply
  url_updated : Reply
  unknown_command : Reply
  bad_json : Reply
  obeyed : ℕ → Reply

-- The commands: those of the first kind have a number here, and begin with `check_pin`; the last one
-- is a text that is no JSON.
pub data Command : Type 0 where
  protected : ℕ → Command
  get_status : Command
  set_pin : Command
  ota_check : Command
  ota_status : Command
  ota_set_interval : Command
  ota_start : Command
  ota_set_backend_url : Command
  unknown : Command
  malformed : Command

pub record Request : Type 0 where
  pub cmd : Command
  pub pin : Field
  pub old_pin : Field
  pub new_pin : Field
  pub interval : Field
  pub url : List ℕ

-- `ble_pin` and `fail_count` are rows of the settings, and so are `poll_interval` and `backend_url` of
-- the update client; `replies` are the responses, oldest first.
pub record Provisioner : Type 0 where
  pub ble_pin : ℕ
  pub fail_count : ℕ
  pub last_fail_ms : ℕ
  pub rate_window_start : ℕ
  pub rate_cmd_count : ℕ
  pub rate_last_cmd : ℕ
  pub poll_interval : ℕ
  pub backend_url : List ℕ
  pub replies : List Reply

abbrev pub send_response : Reply → Provisioner → Provisioner
send_response r s = record s { replies = s.replies ++ r ∷ [] }

abbrev pub max_cooloff : ℕ
max_cooloff = 3600000

unfoldable pub cooloff_ms : ℕ → ℕ
cooloff_ms fails =
    let unit = 1000 * 2 ^ (if ltb 12 fails then 12 else fails) in
    if ltb 0 fails then (if ltb max_cooloff unit then max_cooloff else unit) else 1000

-- `doc["pin"]` as number or as string; `atoi` is the C library's, as an unsigned number.
unfoldable pub provided : (List ℕ → ℕ) → Field → ℕ
provided atoi (as_text t) = atoi t
provided atoi (as_number n) = n

-- `doc["..."] | 0`.
abbrev pub number_or_zero : Field → ℕ
number_or_zero (as_text t) = 0
number_or_zero (as_number n) = n

unfoldable pub is_cooling : ℕ → Provisioner → Bool
unfolding cooloff_ms
is_cooling now s = ltb 0 s.fail_count && ltb (sub32 now s.last_fail_ms) (cooloff_ms s.fail_count)

abbrev pub note_failure : ℕ → Provisioner → Provisioner
note_failure now s = record s {
  last_fail_ms = now;
  fail_count = if ltb s.fail_count 65535 then s.fail_count + 1 else s.fail_count;
}

unfoldable pub check_pin : (List ℕ → ℕ) → ℕ → Field → Provisioner → Bool × Provisioner
unfolding is_cooling provided
check_pin atoi now pin s =
    if s.ble_pin == 0
    then (false, s)
    else if is_cooling now s
    then (false, send_response rate_limited s)
    else if not (provided atoi pin == s.ble_pin)
    then (false, send_response invalid_pin (note_failure now s))
    else (true, record s { fail_count = 0 })

abbrev pub rate_window_ms : ℕ
rate_window_ms = 10000

abbrev pub max_commands : ℕ
max_commands = 10

unfoldable pub renew_window : ℕ → Provisioner → Provisioner
renew_window now s =
    if leb rate_window_ms (sub32 now s.rate_window_start)
    then record s { rate_window_start = now; rate_cmd_count = 0 }
    else s

unfoldable pub count_command : ℕ → Provisioner → Bool × Provisioner
count_command now s =
    let counted = record s { rate_cmd_count = u16 (s.rate_cmd_count + 1) } in
    if ltb (sub32 now s.rate_last_cmd) 100
    then if ltb max_commands counted.rate_cmd_count
      then (false, send_response rate_limited counted)
      else (true, record counted { rate_last_cmd = now })
    else (true, record s { rate_cmd_count = 0; rate_last_cmd = now })

unfoldable pub check_rate_limit : ℕ → Provisioner → Bool × Provisioner
unfolding renew_window count_command
check_rate_limit now s = count_command now (renew_window now s)

-- The branch of `set_pin`.
unfoldable pub handle_set_pin : Request → Provisioner → Provisioner
handle_set_pin r s =
    let old = s.ble_pin in
    let new_pin = number_or_zero r.new_pin in
    if not (old == 0) && not (number_or_zero r.old_pin == old)
    then send_response invalid_old_pin s
    else if new_pin == 0 || ltb 999999 new_pin
    then send_response bad_new_pin s
    else send_response pin_updated (record s { ble_pin = new_pin })

unfoldable pub clamp_interval : ℕ → ℕ
clamp_interval n = let low = if ltb n 60 then 60 else n in if ltb 86400 low then 86400 else low

-- The parsing and the branches of `handle_command`.
unfoldable pub dispatch : (List ℕ → ℕ) → ℕ → Command → Request → Provisioner → Provisioner
unfolding handle_set_pin clamp_interval
dispatch atoi now (protected n) r s =
    let (ok, s') = check_pin atoi now r.pin s in if not ok then s' else send_response (obeyed n) s'
dispatch atoi now get_status r s =
    let (ok, s') = check_pin atoi now r.pin s in
    if not ok then send_response pin_required s' else send_response (obeyed 0) s'
dispatch atoi now set_pin r s = handle_set_pin r s
dispatch atoi now ota_check r s = send_response update_triggered s
dispatch atoi now ota_status r s = send_response update_status s
dispatch atoi now ota_set_interval r s =
    send_response interval_updated
      (record s { poll_interval = clamp_interval (number_or_zero r.interval) })
dispatch atoi now ota_start r s = send_response update_triggered s
dispatch atoi now ota_set_backend_url r s =
    if length r.url == 0
    then send_response url_required s
    else send_response url_updated (record s { backend_url = r.url })
dispatch atoi now unknown r s = send_response unknown_command s
dispatch atoi now malformed r s = send_response bad_json s

unfoldable pub handle_command : (List ℕ → ℕ) → ℕ → Request → Provisioner → Provisioner
unfolding check_rate_limit dispatch
handle_command atoi now r s =
    let (ok, s') = check_rate_limit now s in if not ok then s' else dispatch atoi now r.cmd r s'

-- `supa_pin_ok`, for commands from the server.
unfoldable pub supa_pin_ok : (List ℕ → ℕ) → Field → Provisioner → Bool
unfolding provided
supa_pin_ok atoi pin s = if s.ble_pin == 0 then true else provided atoi pin == s.ble_pin
