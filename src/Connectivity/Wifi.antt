-- ===== src/Connectivity/Wifi.antt =====
-- `wifi_state_tick`, `loop_connectivity` and the hook of `set_wifi`: the state machine of the network.
-- What WiFi, the settings and the clock of the network answer is the record `Answer`.
use power_monitoring.Base.{
  ℕ, ◌+◌, ◌-◌, ◌/◌, ◌%◌, Bool, true, false, not, ◌&&◌, ◌||◌, List, [], ◌∷◌, ◌++◌, ltb, leb, ◌==◌,
  if◌then◌else◌, u32, sub32,
}

pub data WifiState : Type 0 where
  wst_init wst_connecting wst_connected wst_retry_backoff : WifiState

pub data PostConnectStep : Type 0 where
  pcs_idle pcs_ntp pcs_cal pcs_mqtt pcs_done : PostConnectStep

pub data SyncResult : Type 0 where
  sync_ok sync_timeout sync_no_wifi : SyncResult

-- The calls of the other parts and of the libraries.
pub data Action : Type 0 where
  begin_saved begin_built_in stop_ble start_ble sync_time sync_calibration connect_mqtt : Action
  reset_http sync_device_channels sync_ble_pin publish_switch_state : Action

-- `joined` is `WiFi.status()` in the tick, `linked` in the loop; `mqtt_up` is `mqtt.connected()`.
pub record Answer : Type 0 where
  pub now : ℕ
  pub joined : Bool
  pub linked : Bool
  pub has_saved : Bool
  pub has_built_in : Bool
  pub has_mqtt : Bool
  pub mqtt_up : Bool
  pub sync : SyncResult

pub record Network : Type 0 where
  pub state : WifiState
  pub entered_ms : ℕ
  pub connect_deadline : ℕ
  pub post_connect : PostConnectStep
  pub skip_network : Bool
  pub was_connected : Bool
  pub deferred_requests : ℕ
  pub defer_cooldown : ℕ
  pub actions : List Action

abbrev pub perform_action : Action → Network → Network
perform_action x n = record n { actions = n.actions ++ x ∷ [] }

abbrev pub wifi_state_enter : WifiState → Answer → Network → Network
wifi_state_enter s a n = record n { state = s; entered_ms = a.now }

-- `sync_time`, which does nothing without a network.
unfoldable pub run_sync : Answer → Network → SyncResult × Network
run_sync a n = if n.skip_network then (sync_no_wifi, n) else (a.sync, perform_action sync_time n)

abbrev pub after_sync : SyncResult → PostConnectStep
after_sync sync_ok = pcs_cal
after_sync sync_timeout = pcs_mqtt
after_sync sync_no_wifi = pcs_mqtt

unfoldable pub post_connect_tick : PostConnectStep → Answer → Network → Network
unfolding run_sync
post_connect_tick pcs_ntp a n =
    let (r, n') = run_sync a n in record n' { post_connect = after_sync r }
post_connect_tick pcs_cal a n = record (perform_action sync_calibration n) {
  post_connect = pcs_mqtt;
}
post_connect_tick pcs_mqtt a n =
    let configured = if a.has_mqtt then perform_action connect_mqtt n else n in
    record configured { post_connect = pcs_done }
post_connect_tick pcs_idle a n = n
post_connect_tick pcs_done a n = n

unfoldable pub init_tick : Answer → Network → Network
init_tick a n =
    let begun =
      if a.has_saved then perform_action begin_saved n else perform_action begin_built_in n in
    if a.has_saved || a.has_built_in
    then wifi_state_enter wst_connecting a (record begun { connect_deadline = u32 (a.now + 5000) })
    else wifi_state_enter wst_retry_backoff a (record n { skip_network = true })

unfoldable pub connecting_tick : Answer → Network → Network
connecting_tick a n =
    if a.joined
    then wifi_state_enter wst_connected a
        (record (perform_action stop_ble n) { post_connect = pcs_ntp })
    else if leb n.connect_deadline a.now
    then wifi_state_enter wst_retry_backoff a (record n { skip_network = true })
    else n

unfoldable pub backoff_tick : Answer → Network → Network
backoff_tick a n =
    if leb 30000 (sub32 a.now n.entered_ms)
    then wifi_state_enter wst_init a (record n { skip_network = false })
    else n

unfoldable pub tick_in : WifiState → Answer → Network → Network
unfolding init_tick connecting_tick post_connect_tick backoff_tick
tick_in wst_init a n = init_tick a n
tick_in wst_connecting a n = connecting_tick a n
tick_in wst_connected a n = post_connect_tick n.post_connect a n
tick_in wst_retry_backoff a n = backoff_tick a n

unfoldable pub wifi_state_tick : Answer → Network → Network
unfolding tick_in
wifi_state_tick a n = tick_in n.state a n

abbrev pub is_connected : WifiState → Bool
is_connected wst_connected = true
is_connected s = false

-- The changes of the link.
unfoldable pub note_link : Answer → Network → Network
note_link a n =
    let restored =
      if n.skip_network && a.linked && is_connected n.state
      then perform_action reset_http (record n { skip_network = false })
      else n in
    let dropped =
      if n.was_connected && not a.linked
      then perform_action reset_http (perform_action start_ble restored)
      else restored in
    record dropped { was_connected = a.linked }

-- Whether a bit is set in the mask of deferred requests.
abbrev pub has_bit : ℕ → ℕ → Bool
has_bit bit mask = mask / bit % 2 == 1

-- One deferred request; the caller's `millis` are those of the answer.
unfoldable pub run_deferred : Answer → Network → Network
run_deferred a n =
    let cooled = record n { defer_cooldown = a.now } in
    let mask = n.deferred_requests in
    if mask == 0
    then n
    else if ltb (sub32 a.now n.defer_cooldown) 2000
    then n
    else if has_bit 1 mask
    then perform_action sync_device_channels (record cooled { deferred_requests = mask - 1 })
    else if has_bit 2 mask
    then perform_action sync_ble_pin (record cooled { deferred_requests = mask - 2 })
    else if has_bit 4 mask
    then perform_action publish_switch_state (record cooled { deferred_requests = mask - 4 })
    else if has_bit 8 mask
    then perform_action sync_calibration (record cooled { deferred_requests = mask - 8 })
    else cooled

unfoldable pub loop_connectivity : Answer → Network → Network
unfolding wifi_state_tick note_link run_deferred
loop_connectivity a n =
    let noted = note_link a (wifi_state_tick a n) in
    let served = if a.has_mqtt && not a.mqtt_up then perform_action connect_mqtt noted else noted in
    if noted.skip_network || not a.linked then noted else run_deferred a served

abbrev pub init_connectivity : Answer → Network → Network
init_connectivity a n = record n { state = wst_init; entered_ms = a.now; skip_network = false }

-- `apply_settings_posthook("set_wifi")`.
unfoldable pub wifi_posthook : Answer → Network → Network
wifi_posthook a n =
    let begun = perform_action begin_saved n in
    let restarted = wifi_state_enter wst_connecting a (record begun { post_connect = pcs_idle }) in
    if a.has_saved then record restarted { connect_deadline = u32 (a.now + 5000) } else n
