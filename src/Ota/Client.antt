-- ===== src/Ota/Client.antt =====
-- The state machine of `loop_ota_client`, and the calls that others make of it.
use power_monitoring.Base.{
  ℕ, ◌+◌, ◌*◌, ◌/◌, Bool, true, false, not, ◌||◌, none, some, List, [], ◌++◌, ltb, leb, ◌==◌,
  if◌then◌else◌, length, take, u8, u32, sub32,
}
use power_monitoring.Ota.State.{
  OtaState, idle, checking, downloading, applying, rebooting, failed, Error, http_begin_failed,
  json_parse, incomplete_response, no_binary_url, binary_begin_failed, no_partition, begin_failed,
  timed_out, no_stream, write_failed, size_mismatch, hash_mismatch, end_failed, boot_failed,
  check_returned, binary_returned, connection_lost, status_checking, status_downloading,
  status_applied, publish_status, ota_begin, ota_write, ota_end, ota_abort, set_boot_partition,
  mark_clean_shutdown, restart, Ota, Reply, Answers, download_timeout_ms, grace_seconds,
  version_max, sha256_max, call, set_state, set_error, cleanup_download, give_up, refuse,
  poll_interval_given, poll_due, to_hex, same_ignoring_case, is_empty,
}

-- `init_ota_client`, with the interval that the settings hold.
unfoldable pub init_ota_client : ℕ → ℕ → Ota → Ota
unfolding set_state
init_ota_client interval_s now s =
    set_state idle (record s { poll_interval_s = interval_s; last_poll_ms = now })

-- The end of OTA_CHECKING, once the binary has an address: the connection, the partition, the hash.
unfoldable pub open_download : Answers → Ota → Ota
unfolding set_state give_up call
open_download env s =
    let opened = record s { tls = true; http = true } in
    let placed = record opened { ota_partition = true } in
    let begun = call (ota_begin s.expected_size) (record placed { image = [] }) in
    if not env.binary_begin
    then give_up binary_begin_failed opened
    else if not (env.binary_code == 200)
    then give_up (binary_returned env.binary_code) opened
    else if not env.partition_found
    then give_up no_partition opened
    else if not env.begin_ok
    then give_up begin_failed (call (ota_begin s.expected_size) placed)
    else set_state downloading (record begun {
      ota_handle = true;
      sha256_inited = true;
      hashed = [];
      total_written = 0;
      download_start_ms = env.now;
    })

-- The reply is noted and announced.
unfoldable pub announce : Reply → Ota → Ota
unfolding poll_interval_given call
announce r s =
    let noted = record s {
      version = take version_max r.version;
      expected_sha256 = take sha256_max r.sha256;
      expected_size = r.binary_size;
      progress_pct = 0;
      last_reported_pct = 0;
    } in
    call (publish_status status_downloading) (poll_interval_given r.poll_interval_seconds noted)

unfoldable pub is_incomplete : Reply → Bool
unfolding is_empty
is_incomplete r = is_empty r.version || is_empty r.sha256 || r.binary_size == 0

unfoldable pub accept_reply : Answers → Reply → Ota → Ota
unfolding open_download poll_interval_given announce is_incomplete refuse set_state
accept_reply env r s =
    if not r.update_available
    then set_state idle (poll_interval_given r.poll_interval_seconds s)
    else if is_incomplete r
    then refuse incomplete_response s
    else if is_empty r.binary_url
    then refuse no_binary_url (announce r s)
    else open_download env (announce r s)

-- OTA_CHECKING.
unfoldable pub check : Answers → Ota → Ota
unfolding accept_reply refuse set_state
check env s =
    if not env.backend_url
    then set_state idle s
    else if not env.check_begin
    then refuse http_begin_failed s
    else if not (env.check_code == 200)
    then refuse (check_returned env.check_code) s
    else elim env.reply [ none ↦ refuse json_parse s | some r ↦ accept_reply env r s ]

-- `(uint8_t)((uint64_t)g_total_written * 100 / g_expected_size)`, then at most 100.
unfoldable pub percent : ℕ → ℕ → ℕ
percent written size = let pct = u8 (written * 100 / size) in if ltb 100 pct then 100 else pct

unfoldable pub report_progress : Ota → Ota
unfolding percent call
report_progress s =
    let pct = percent s.total_written s.expected_size in
    let told = record s { progress_pct = pct } in
    if leb (s.last_reported_pct + 10) pct || pct == 100
    then call (publish_status status_downloading) (record told { last_reported_pct = pct })
    else told

-- A chunk is written and hashed.
unfoldable pub store_chunk : List ℕ → Ota → Ota
unfolding call
store_chunk chunk s = record (call (ota_write chunk) s) {
  image = s.image ++ chunk;
  hashed = s.hashed ++ chunk;
  total_written = u32 (s.total_written + length chunk);
}

unfoldable pub take_chunk : Answers → Ota → Ota
unfolding report_progress give_up set_state call store_chunk
take_chunk env s =
    let told = report_progress (store_chunk env.chunk s) in
    if not env.write_ok
    then give_up write_failed (call (ota_write env.chunk) s)
    else if leb told.expected_size told.total_written
    then set_state applying told
    else told

-- OTA_DOWNLOADING.
unfoldable pub download : Answers → Ota → Ota
unfolding take_chunk give_up set_state
download env s =
    if ltb download_timeout_ms (sub32 env.now s.download_start_ms)
    then give_up timed_out s
    else if not env.stream
    then give_up no_stream s
    else if is_empty env.chunk
    then (if env.connected
        then s
        else if leb s.expected_size s.total_written
        then set_state applying s
        else give_up (connection_lost s.total_written) s)
    else take_chunk env s

-- OTA_APPLYING. `sha256` is the hash of the library.
module _ (sha256 : List ℕ → List ℕ) where
  unfoldable pub abort : Error → Ota → Ota
  unfolding give_up set_error set_state cleanup_download call
  abort e s =
      set_state idle
        (cleanup_download (record (call ota_abort (set_error e s)) { ota_handle = false }))

  unfoldable pub apply : Answers → Ota → Ota
  unfolding abort give_up call set_state cleanup_download
  apply env s =
      let finished = record s { sha256_inited = false } in
      let ended = call ota_end (record finished { ota_handle = false }) in
      let booted = call set_boot_partition ended in
      let applied = call (publish_status status_applied) booted in
      let clean = cleanup_download (call mark_clean_shutdown applied) in
      if not (s.total_written == s.expected_size)
      then abort size_mismatch finished
      else if not (same_ignoring_case (to_hex (sha256 s.hashed)) s.expected_sha256)
      then abort hash_mismatch finished
      else if not env.end_ok
      then give_up end_failed ended
      else if not env.boot_ok
      then give_up boot_failed booted
      else call restart (set_state rebooting clean)

  unfoldable pub dispatch : OtaState → Answers → Ota → Ota
  unfolding check download apply set_state call
  dispatch idle env s =
      let fired = set_state checking (record s { last_poll_ms = env.now }) in
      if poll_due env.now s then check env (call (publish_status status_checking) fired) else s
  dispatch checking env s = check env s
  dispatch downloading env s = download env s
  dispatch applying env s = apply env s
  dispatch rebooting env s = s
  dispatch failed env s =
      if poll_due env.now s
      then set_state checking (record s { last_poll_ms = env.now; last_error = none })
      else s

  unfoldable pub loop_ota_client : Answers → Ota → Ota
  unfolding dispatch
  loop_ota_client env s = if not env.wifi_connected then s else dispatch s.state env s

unfoldable pub may_trigger : OtaState → Bool
may_trigger idle = true
may_trigger failed = true
may_trigger _ = false

unfoldable pub ota_trigger_check : Ota → Ota
unfolding set_state may_trigger
ota_trigger_check s =
    if may_trigger s.state
    then set_state checking (record s { last_poll_ms = 0; last_error = none })
    else s

-- What the platform says of the running partition: none, or that it waits to be verified.
pub data Partition : Type 0 where
  not_found unreadable pending_verify settled : Partition

-- `ota_confirm_valid`; `marked` is whether the platform took the confirmation.
unfoldable pub ota_confirm_valid : ℕ → Partition → Bool → Ota → Ota
ota_confirm_valid now part marked s =
    if s.rollback_confirmed || ltb now (grace_seconds * 1000) then s else elim part [
      | not_found ↦ s
      | unreadable ↦ s
      | pending_verify ↦ record s { rollback_confirmed = marked }
      | settled ↦ record s { rollback_confirmed = true }
    ]
