-- ===== src/Ota/Inv.antt =====
-- What holds between two ticks of the update client.
use power_monitoring.Base.{
  ℕ, ◌≤◌, ◌<◌, ◌≡◌, refl, ap, ◌∙◌, ◌≢◌, inl, inr, Bool, true, false, none, List, [], ◌∷◌, arith,
  leb, Bool-cases, Option-cases, length, length-append, u32,
}
use power_monitoring.Ota.State.{
  OtaState, idle, checking, downloading, applying, rebooting, failed, Error, http_begin_failed,
  json_parse, incomplete_response, no_binary_url, timed_out, no_stream, write_failed,
  check_returned, connection_lost, status_checking, publish_status, ota_write, Ota, Reply, Answers,
  call, set_state, give_up, refuse, ota_set_poll_interval, poll_interval_given, is_empty,
}
use power_monitoring.Ota.Client.{
  init_ota_client, open_download, announce, is_incomplete, accept_reply, check, percent,
  report_progress, store_chunk, take_chunk, download, apply, dispatch, loop_ota_client,
  ota_trigger_check, Partition, ota_confirm_valid,
}

-- A download is under way.
unfoldable pub is_live : OtaState → Bool
is_live downloading = true
is_live applying = true
is_live _ = false

pub record IsSound (s : Ota) : Type 0 where
  -- The connection, the partition, the handle and the hash context are open exactly while a download
  -- is under way.
  pub tls_live : s.tls ≡ is_live s.state
  pub http_live : s.http ≡ is_live s.state
  pub handle_live : s.ota_handle ≡ is_live s.state
  pub partition_live : s.ota_partition ≡ is_live s.state
  pub hash_live : s.sha256_inited ≡ is_live s.state
  -- What is hashed is what is written, and the counter is its length.
  pub sized : is_live s.state ≡ true → 0 < s.expected_size
  pub same : is_live s.state ≡ true → s.hashed ≡ s.image
  pub counted : is_live s.state ≡ true → s.total_written ≡ u32 (length s.image)
  pub progress : s.progress_pct ≤ 100
  pub never_failed : s.state ≢ failed

-- The same, for a client with nothing open.
pub record IsClosed (s : Ota) : Type 0 where
  pub no_tls : s.tls ≡ false
  pub no_http : s.http ≡ false
  pub no_handle : s.ota_handle ≡ false
  pub no_partition : s.ota_partition ≡ false
  pub no_hash : s.sha256_inited ≡ false
  pub progress : s.progress_pct ≤ 100

IsClosed-poll_interval_given : (pi : ℕ) (s : Ota) → IsClosed s → IsClosed (poll_interval_given pi s)
unfolding poll_interval_given
IsClosed-poll_interval_given pi s h = ground (arith, h)

open_download-IsSound :
    (env : Answers) (s : Ota) → 0 < s.expected_size → IsClosed s → IsSound (open_download env s)
unfolding open_download is_live
open_download-IsSound env s z h = ground (arith, h)

-- The part of the state that `poll_interval_given` leaves alone.
size-poll_interval_given :
    (pi : ℕ) (s : Ota) → (poll_interval_given pi s).expected_size ≡ s.expected_size
unfolding poll_interval_given
size-poll_interval_given pi s = ground arith

set_idle-IsSound : (s : Ota) → IsClosed s → IsSound (set_state idle s)
unfolding set_state is_live
set_idle-IsSound s h = ground (arith, h)

refuse-IsSound : (e : Error) (s : Ota) → IsClosed s → IsSound (refuse e s)
unfolding refuse is_live
refuse-IsSound e s h = ground (arith, h)

announce-IsClosed : (r : Reply) (s : Ota) → IsClosed s → IsClosed (announce r s)
unfolding announce
announce-IsClosed r s h = ground (arith, h)

pub size-announce : (r : Reply) (s : Ota) → (announce r s).expected_size ≡ r.binary_size
unfolding announce
size-announce r s = ground arith

sized_of_complete : (r : Reply) → is_incomplete r ≡ false → 0 < r.binary_size
unfolding is_incomplete
sized_of_complete r h = ground arith

accept_reply-IsSound :
    (env : Answers) (r : Reply) (s : Ota) → IsClosed s → IsSound (accept_reply env r s)
unfolding accept_reply
accept_reply-IsSound env r s h = elim (Bool-cases r.update_available) [
  | inr stale ↦
      rw stale (set_idle-IsSound _ (IsClosed-poll_interval_given r.poll_interval_seconds s h))
  | inl fresh ↦ elim (Bool-cases (is_incomplete r)) [
    | inl e ↦ rw (fresh, e) (refuse-IsSound incomplete_response s h)
    | inr e ↦ elim (Bool-cases (is_empty r.binary_url)) [
      | inl u ↦
          rw (fresh, e, u) (refuse-IsSound no_binary_url (announce r s) (announce-IsClosed r s h))
      | inr u ↦
          rw (fresh, e, u)
            (open_download-IsSound env (announce r s)
              (rw (size-announce r s) (sized_of_complete r e)) (announce-IsClosed r s h))
    ]
  ]
]

check-IsSound : (env : Answers) (s : Ota) → IsClosed s → IsSound (check env s)
unfolding check
check-IsSound env s h = elim (Option-cases env.reply) [
  | inl e ↦ ground (
    arith,
    e,
    set_idle-IsSound s h,
    refuse-IsSound http_begin_failed s h,
    refuse-IsSound (check_returned env.check_code) s h,
    refuse-IsSound json_parse s h,
  )
  | inr (r, e) ↦ ground (
    arith,
    e,
    set_idle-IsSound s h,
    refuse-IsSound http_begin_failed s h,
    refuse-IsSound (check_returned env.check_code) s h,
    accept_reply-IsSound env r s h,
  )
]

percent_le : (written size : ℕ) → percent written size ≤ 100
unfolding percent
percent_le written size = ground arith

-- Reporting changes the progress and the calls, and nothing that the invariant reads besides.
report_progress-IsSound : (s : Ota) → IsSound s → IsSound (report_progress s)
unfolding report_progress
report_progress-IsSound s h = ground (arith, h, percent_le s.total_written s.expected_size)

state-report_progress : (s : Ota) → (report_progress s).state ≡ s.state
unfolding report_progress
state-report_progress s = ground arith

give_up-IsSound : (e : Error) (s : Ota) → IsSound (give_up e s)
unfolding give_up is_live
give_up-IsSound e s = ground arith

to_applying-IsSound : (s : Ota) → s.state ≡ downloading → IsSound s → IsSound (set_state applying s)
unfolding set_state is_live
to_applying-IsSound s e h = ground (arith, e, h)

store_chunk-IsSound : (chunk : List ℕ) (s : Ota) → IsSound s → IsSound (store_chunk chunk s)
unfolding store_chunk
store_chunk-IsSound chunk s h = ground (arith, h, length-append s.image chunk)

take_chunk-IsSound :
    (env : Answers) (s : Ota) → s.state ≡ downloading → IsSound s → IsSound (take_chunk env s)
unfolding take_chunk
take_chunk-IsSound env s e h =
    let told = report_progress (store_chunk env.chunk s) in
    let sound =
      report_progress-IsSound (store_chunk env.chunk s) (store_chunk-IsSound env.chunk s h) in
    elim (Bool-cases env.write_ok) [
      | inr bad ↦ rw bad (give_up-IsSound write_failed (call (ota_write env.chunk) s))
      | inl good ↦ elim (Bool-cases (leb told.expected_size told.total_written)) [
        | inl all ↦
            rw (good, all)
              (to_applying-IsSound told (state-report_progress (store_chunk env.chunk s) ∙ e) sound)
        | inr more ↦ rw (good, more) sound
      ]
    ]

download-IsSound :
    (env : Answers) (s : Ota) → s.state ≡ downloading → IsSound s → IsSound (download env s)
unfolding download
download-IsSound env s e h = ground (
  arith,
  h,
  give_up-IsSound timed_out s,
  give_up-IsSound no_stream s,
  give_up-IsSound (connection_lost s.total_written) s,
  to_applying-IsSound s e h,
  take_chunk-IsSound env s e h,
)

module _ (sha256 : List ℕ → List ℕ) where
  apply-IsSound :
      (env : Answers) (s : Ota) → s.state ≡ applying → IsSound s → IsSound (apply sha256 env s)
  unfolding apply is_live
  apply-IsSound env s e h = ground (arith, h)

  nothing_open : (s : Ota) → is_live s.state ≡ false → IsSound s → IsClosed s
  nothing_open s e h = ground (arith, e, h)

  fire-IsClosed :
      (now : ℕ) (s : Ota)
      → IsClosed s
      → IsClosed (
          call
            (publish_status status_checking)
            (set_state checking (record s { last_poll_ms = now })))
  unfolding call set_state
  fire-IsClosed now s h = ground (arith, h)

  dispatch-IsSound :
      (st : OtaState) (env : Answers) (s : Ota)
      → s.state ≡ st
      → IsSound s
      → IsSound (dispatch sha256 st env s)
  unfolding dispatch is_live
  dispatch-IsSound idle env s e h =
      let closed = nothing_open s (ap is_live e) h in
      ground (arith, h, check-IsSound env _ (fire-IsClosed env.now s closed))
  dispatch-IsSound checking env s e h = check-IsSound env s (nothing_open s (ap is_live e) h)
  dispatch-IsSound downloading env s e h = download-IsSound env s e h
  dispatch-IsSound applying env s e h = apply-IsSound env s e h
  dispatch-IsSound rebooting env s e h = h
  dispatch-IsSound failed env s e h = absurd (h.never_failed e)

  -- A tick keeps the invariant, whatever the platform answers.
  pub loop_ota_client-IsSound :
      (env : Answers) (s : Ota) → IsSound s → IsSound (loop_ota_client sha256 env s)
  unfolding loop_ota_client
  loop_ota_client-IsSound env s h = ground (arith, h, dispatch-IsSound s.state env s refl h)

-- The client before `init_ota_client`: the initial values of the static variables.
abbrev pub powered_on : Ota
powered_on = record {
  state = idle;
  version = [];
  expected_sha256 = [];
  expected_size = 0;
  progress_pct = 0;
  last_error = none;
  tls = false;
  http = false;
  ota_handle = false;
  ota_partition = false;
  sha256_inited = false;
  hashed = [];
  image = [];
  total_written = 0;
  download_start_ms = 0;
  last_reported_pct = 0;
  last_poll_ms = 0;
  poll_interval_s = 300;
  rollback_confirmed = false;
  calls = [];
}

-- What happens to the client after boot.
pub data Event : Type 0 where
  tick : Answers → Event
  trigger : Event
  interval : ℕ → Event
  confirm : ℕ → Partition → Bool → Event

module _ (sha256 : List ℕ → List ℕ) where
  abbrev pub happen : Event → Ota → Ota
  happen (tick env) s = loop_ota_client sha256 env s
  happen trigger s = ota_trigger_check s
  happen (interval n) s = ota_set_poll_interval n s
  happen (confirm now part marked) s = ota_confirm_valid now part marked s

  abbrev pub happen_all : List Event → Ota → Ota
  happen_all [] s = s
  happen_all (e ∷ es) s = happen_all es (happen e s)

  happen-IsSound : (e : Event) (s : Ota) → IsSound s → IsSound (happen e s)
  unfolding ota_trigger_check ota_set_poll_interval ota_confirm_valid is_live
  happen-IsSound (tick env) s h = loop_ota_client-IsSound sha256 env s h
  happen-IsSound trigger s h = ground (arith, h)
  happen-IsSound (interval n) s h = ground (arith, h)
  happen-IsSound (confirm now part marked) s h = ground (arith, h)

  happen_all-IsSound : (es : List Event) (s : Ota) → IsSound s → IsSound (happen_all es s)
  happen_all-IsSound [] s h = h
  happen_all-IsSound (e ∷ es) s h = happen_all-IsSound es (happen e s) (happen-IsSound e s h)

  -- After boot and any events, whatever the platform answers: the connection, the partition, the
  -- handle and the hash context are open exactly while a download is under way; then the hash context
  -- has been fed what is written, the expected size is not 0, and the counter is the image's length in
  -- 32 bits. The progress stays within 100, and the failed state is never entered.
  pub client-IsSound :
      (interval_s now : ℕ) (es : List Event)
      → IsSound (happen_all es (init_ota_client interval_s now powered_on))
  unfolding init_ota_client is_live
  client-IsSound interval_s now es =
      happen_all-IsSound es (init_ota_client interval_s now powered_on) (ground arith)
