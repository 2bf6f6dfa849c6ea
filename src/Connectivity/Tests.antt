-- ===== src/Connectivity/Tests.antt =====
-- Runs of the publishing of batches, and witnesses.
-- "Man" is "TWFu", and "Ma" is "TWE=".
use power_monitoring.Base.{
  ℕ, zero, suc, ◌≤◌, ◌<◌, ◌≡◌, refl, ap, true, false, not, none, some, List, [], ◌∷◌, ◌++◌, arith,
  ◌==◌, length, take, drop, replicate, for_range,
}
use power_monitoring.Logger.{Entry, Sample, Logger, init_data_logger}
use power_monitoring.Logger.Queue.{Holds}
use power_monitoring.Logger.Contents.{AllByte}
use power_monitoring.Logger.Refine.{
  Op, sample, perform_all, perform_all_queue, perform_all-Matches, no_sample, empty_queue,
  init-Matches,
}
use power_monitoring.Connectivity.Base64.{
  digit, triple_of, quad, rounds, padding, pad_out, base64_encode,
}
use power_monitoring.Connectivity.Publish.{Uplink, Answers, publish_log_batch, IsReader}
use power_monitoring.Connectivity.Delivery.{Conserved, file_bytes, publish_log_batch-conserves}
use power_monitoring.Connectivity.Emptied.{publish_log_batch-empties}
use power_monitoring.Connectivity.Texts.{IsBounded, publish_log_batch-IsBounded}
use power_monitoring.Connectivity.Wifi.{
  wst_init, wst_retry_backoff, pcs_idle, sync_ok, begin_saved, stop_ble, sync_time,
  sync_calibration, connect_mqtt, Answer, Network, run_sync, post_connect_tick, init_tick,
  connecting_tick, backoff_tick, tick_in, wifi_state_tick, note_link, run_deferred,
  loop_connectivity,
}
use power_monitoring.Connectivity.Settled.{IsUp, IsSettled, loop_all, loops-settle}
use power_monitoring.Logger.Sized.{IsFour}

base64_man : base64_encode (77 ∷ 97 ∷ 110 ∷ []) ≡ 84 ∷ 87 ∷ 70 ∷ 117 ∷ 0 ∷ []
unfolding base64_encode rounds quad triple_of digit padding pad_out for_range
base64_man = refl

base64_ma : base64_encode (77 ∷ 97 ∷ []) ≡ 84 ∷ 87 ∷ 69 ∷ 61 ∷ 0 ∷ []
unfolding base64_encode rounds quad triple_of digit padding pad_out for_range
base64_ma = refl

-- Reads that give as much as there is.
take-IsReader : IsReader take
take-IsReader = record { short = length-take_le; piece = take-drop; at_end = nothing_taken }
  where
    length-take_le : (n : ℕ) (rest : List ℕ) → length (take n rest) ≤ n
    length-take_le zero rest = omega arith
    length-take_le (suc n) [] = omega arith
    length-take_le (suc n) (b ∷ rest) = omega (arith, length-take_le n rest)

    take-drop : (n : ℕ) (rest : List ℕ) → take n rest ++ drop (length (take n rest)) rest ≡ rest
    take-drop zero rest = refl
    take-drop (suc n) [] = refl
    take-drop (suc n) (b ∷ rest) = ap (λ t. b ∷ t) (take-drop n rest)

    nothing_taken : (n : ℕ) (rest : List ℕ) → 0 < n → length (take n rest) ≡ 0 → rest ≡ []
    nothing_taken zero rest h e = absurd (omega (arith, h))
    nothing_taken (suc n) [] h e = refl
    nothing_taken (suc n) (b ∷ rest) h e = absurd (omega (arith, e))

-- Two samples in a ring of 64 bytes.
abbrev reading : Sample
reading = record {
  timestamp_ms = 1000;
  v = replicate 4 12000;
  i = replicate 4 5;
  p = replicate 4 60;
}

abbrev powered_on : Logger
powered_on = record {
  buffer = [];
  head = 0;
  tail = 0;
  entry_count = 0;
  warned = false;
  last = no_sample;
  have_base = false;
  flushed = [];
}

abbrev two_samples : List Op
two_samples = sample false false reading ∷ sample false false reading ∷ []

abbrev filled : Logger
filled = (perform_all 64 two_samples (init_data_logger 64 powered_on)).1

abbrev filled_entries : List Entry
filled_entries = (perform_all_queue 64 two_samples empty_queue).1.entries

filled-Holds : Holds 64 filled_entries filled
filled-Holds =
    let four : IsFour reading = record { voltages = refl; currents = refl; powers = refl } in
    (perform_all-Matches 64 (omega arith) (omega arith) two_samples empty_queue
      (init_data_logger 64 powered_on) (four, (four, tt))
      (init-Matches 64 powered_on (omega arith) refl)).1.held

-- Three bytes are pending, and a file has four.
abbrev waiting : Uplink
waiting = record {
  pending = 1 ∷ 2 ∷ 3 ∷ [];
  logger = filled;
  overflow = some (9 ∷ 8 ∷ 7 ∷ 6 ∷ []);
  offered = [];
}

-- The broker refuses the second payload.
abbrev moody : Answers
moody = record { accepts = λ n. not (n == 1); opens = true; read = take }

abbrev willing : Answers
willing = record { accepts = λ n. true; opens = true; read = take }

waiting_pending : AllByte waiting.pending
waiting_pending = (omega arith, (omega arith, (omega arith, tt)))

waiting_file : AllByte (file_bytes waiting.overflow)
waiting_file = (omega arith, (omega arith, (omega arith, (omega arith, tt))))

publish_log_batch-conserves_example :
    Conserved 64 filled_entries waiting (publish_log_batch moody 64 true true waiting)
publish_log_batch-conserves_example =
    publish_log_batch-conserves moody take-IsReader 64 true true filled_entries waiting filled-Holds
      waiting_pending waiting_file

publish_log_batch-empties_example :
    let u' = publish_log_batch willing 64 true true waiting in
    (u'.pending ≡ []) × (u'.overflow ≡ none)
publish_log_batch-empties_example =
    publish_log_batch-empties willing (λ n. refl) take-IsReader 64 filled_entries waiting refl
      filled-Holds waiting_pending waiting_file

publish_log_batch-IsBounded_example : IsBounded (publish_log_batch moody 64 true true waiting)
publish_log_batch-IsBounded_example =
    publish_log_batch-IsBounded moody take-IsReader.short 64 true true waiting
      (record { pending_fits = omega arith; payloads_fit = tt })

-- WiFi that is up, and the network after a failure.
abbrev up : ℕ → Answer
up t = record {
  now = t;
  joined = true;
  linked = true;
  has_saved = true;
  has_built_in = false;
  has_mqtt = true;
  mqtt_up = true;
  sync = sync_ok;
}

abbrev failed : Network
failed = record {
  state = wst_retry_backoff;
  entered_ms = 5000;
  connect_deadline = 5000;
  post_connect = pcs_idle;
  skip_network = true;
  was_connected = false;
  deferred_requests = 0;
  defer_cooldown = 0;
  actions = [];
}

abbrev later_ups : List Answer
later_ups = up 35010 ∷ up 35020 ∷ up 35030 ∷ up 35040 ∷ up 35050 ∷ []

up-IsUp : (t : ℕ) → IsUp (up t)
up-IsUp t = record { joined = refl; linked = refl; credentials = refl }

loops-settle_example : IsSettled (loop_all (up 35000 ∷ later_ups) failed)
loops-settle_example =
    loops-settle (up 35000) later_ups failed (up-IsUp 35000) refl
      (up-IsUp 35010, (up-IsUp 35020, (up-IsUp 35030, (up-IsUp 35040, (up-IsUp 35050, tt)))))
      (omega arith)

steps :
    (loop_all (up 35000 ∷ later_ups) failed).actions
    ≡ begin_saved ∷ stop_ble ∷ sync_time ∷ sync_calibration ∷ connect_mqtt ∷ []
unfolding loop_connectivity wifi_state_tick tick_in init_tick connecting_tick backoff_tick
    post_connect_tick run_sync note_link run_deferred
steps = refl

-- Just before the clock wraps, the deadline is already over in the next tick.
abbrev down : ℕ → Answer
down t = record (up t) { joined = false; linked = false }

early_timeout :
    (loop_all (down 4294966000 ∷ down 4294966010 ∷ []) (record failed { state = wst_init })).state
    ≡ wst_retry_backoff
unfolding loop_connectivity wifi_state_tick tick_in init_tick connecting_tick backoff_tick
    post_connect_tick run_sync note_link run_deferred
early_timeout = refl
