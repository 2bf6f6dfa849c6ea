-- ===== src/Ota/State.antt =====
-- The state of the client, what the platform answers, and the helpers of src/ota_client.cpp.
use power_monitoring.Base.{
  ℕ, ◌+◌, ◌-◌, ◌*◌, ◌/◌, ◌%◌, Bool, true, false, ◌&&◌, Option, some, List, [], ◌∷◌, ltb, leb, ◌==◌,
  if◌then◌else◌, u32, sub32,
}

pub data OtaState : Type 0 where
  idle checking downloading applying rebooting failed : OtaState

-- The messages of `set_error`, with the numbers that they print.
pub data Error : Type 0 where
  http_begin_failed json_parse incomplete_response no_binary_url : Error
  binary_begin_failed no_partition begin_failed timed_out no_stream : Error
  write_failed size_mismatch hash_mismatch end_failed boot_failed : Error
  check_returned : ℕ → Error
  binary_returned : ℕ → Error
  connection_lost : ℕ → Error

-- The texts that `publish_status` is called with.
pub data Status : Type 0 where
  status_checking status_downloading status_applied : Status

-- The calls that leave the client, in the order in which they are made.
pub data Call : Type 0 where
  publish_status : Status → Call
  save_poll_interval : ℕ → Call
  ota_begin : ℕ → Call
  ota_write : List ℕ → Call
  ota_end ota_abort set_boot_partition mark_clean_shutdown restart : Call

-- The static variables. A pointer or handle is whether it is set. `hashed` is what the hash context
-- has been fed, `image` what has been written to the partition since `esp_ota_begin`, and `calls`
-- the calls so far, newest first.
pub record Ota : Type 0 where
  pub state : OtaState
  pub version : List ℕ
  pub expected_sha256 : List ℕ
  pub expected_size : ℕ
  pub progress_pct : ℕ
  pub last_error : Option Error
  pub tls : Bool
  pub http : Bool
  pub ota_handle : Bool
  pub ota_partition : Bool
  pub sha256_inited : Bool
  pub hashed : List ℕ
  pub image : List ℕ
  pub total_written : ℕ
  pub download_start_ms : ℕ
  pub last_reported_pct : ℕ
  pub last_poll_ms : ℕ
  pub poll_interval_s : ℕ
  pub rollback_confirmed : Bool
  pub calls : List Call

-- The fields that the client reads of the update server's reply.
pub record Reply : Type 0 where
  pub update_available : Bool
  pub version : List ℕ
  pub sha256 : List ℕ
  pub binary_size : ℕ
  pub poll_interval_seconds : ℕ
  pub binary_url : List ℕ

-- What the platform answers in one tick, where it is asked.
pub record Answers : Type 0 where
  pub wifi_connected : Bool
  pub now : ℕ
  pub backend_url : Bool
  pub check_begin : Bool
  pub check_code : ℕ
  pub reply : Option Reply
  pub binary_begin : Bool
  pub binary_code : ℕ
  pub partition_found : Bool
  pub begin_ok : Bool
  pub stream : Bool
  pub chunk : List ℕ
  pub connected : Bool
  pub write_ok : Bool
  pub end_ok : Bool
  pub boot_ok : Bool

abbrev pub poll_interval_min_s : ℕ
poll_interval_min_s = 60

abbrev pub poll_interval_max_s : ℕ
poll_interval_max_s = 86400

abbrev pub download_timeout_ms : ℕ
download_timeout_ms = 300000

abbrev pub grace_seconds : ℕ
grace_seconds = 60

-- The buffers of the version (16 bytes) and the hash (65), a byte less for the terminator.
abbrev pub version_max : ℕ
version_max = 15

abbrev pub sha256_max : ℕ
sha256_max = 64

unfoldable pub call : Call → Ota → Ota
call c s = record s { calls = c ∷ s.calls }

unfoldable pub set_state : OtaState → Ota → Ota
set_state st s = record s { state = st }

unfoldable pub set_error : Error → Ota → Ota
set_error e s = record s { last_error = some e }

-- The clients, the handle and the hash context are given up; an open handle is ended.
unfoldable pub cleanup_download : Ota → Ota
cleanup_download s = record s {
  http = false;
  tls = false;
  calls = if s.ota_handle then ota_end ∷ s.calls else s.calls;
  ota_handle = false;
  sha256_inited = false;
  ota_partition = false;
  total_written = 0;
  download_start_ms = 0;
  last_reported_pct = 0;
  version = [];
  expected_sha256 = [];
  expected_size = 0;
  progress_pct = 0;
}

-- `set_error`, `cleanup_download`, `set_state(OTA_IDLE)`.
unfoldable pub give_up : Error → Ota → Ota
unfolding set_error cleanup_download set_state
give_up e s = set_state idle (cleanup_download (set_error e s))

-- `set_error`, `set_state(OTA_IDLE)`, before a download has begun.
unfoldable pub refuse : Error → Ota → Ota
unfolding set_error set_state
refuse e s = set_state idle (set_error e s)

unfoldable pub ota_set_poll_interval : ℕ → Ota → Ota
unfolding call
ota_set_poll_interval interval_s s =
    let low = if ltb interval_s poll_interval_min_s then poll_interval_min_s else interval_s in
    let clamped = if ltb poll_interval_max_s low then poll_interval_max_s else low in
    call (save_poll_interval clamped) (record s { poll_interval_s = clamped })

-- `if (pi > 0) ota_set_poll_interval(pi);`
unfoldable pub poll_interval_given : ℕ → Ota → Ota
unfolding ota_set_poll_interval
poll_interval_given pi s = if pi == 0 then s else ota_set_poll_interval pi s

-- `now - since >= (unsigned long)interval_s * 1000`.
abbrev pub poll_due : ℕ → Ota → Bool
poll_due now s = leb (u32 (s.poll_interval_s * 1000)) (sub32 now s.last_poll_ms)

unfoldable pub hex_digit : ℕ → ℕ
hex_digit d = if ltb d 10 then b'0' + d else b'a' + d - 10

-- `sprintf("%02x")` of each byte.
unfoldable pub to_hex : List ℕ → List ℕ
unfolding hex_digit
to_hex [] = []
to_hex (b ∷ bs) = hex_digit (b / 16) ∷ hex_digit (b % 16) ∷ to_hex bs

unfoldable pub lower : ℕ → ℕ
lower c = if leb b'A' c && leb c b'Z' then c + 32 else c

-- `strcasecmp(a, b) == 0`.
unfoldable pub same_ignoring_case : List ℕ → List ℕ → Bool
unfolding lower
same_ignoring_case [] [] = true
same_ignoring_case [] (y ∷ ys) = false
same_ignoring_case (x ∷ xs) [] = false
same_ignoring_case (x ∷ xs) (y ∷ ys) = lower x == lower y && same_ignoring_case xs ys

unfoldable pub is_empty : List ℕ → Bool
is_empty [] = true
is_empty (x ∷ xs) = false
