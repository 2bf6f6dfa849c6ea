-- ===== src/Connectivity/Settled.antt =====
-- With a link the network settles.
-- How many loops with a link are left.
use power_monitoring.Base.{
  ℕ, suc, ◌-◌, ◌≤◌, ◌≡◌, refl, ap, ◌∙◌, Bool, true, false, not, ◌&&◌, ◌||◌, List, [], ◌∷◌, arith,
  ltb, leb, ◌==◌, if◌then◌else◌, length, All, sub32, if_keeps, if_cases,
}
use power_monitoring.Connectivity.Wifi.{
  WifiState, wst_init, wst_connecting, wst_connected, wst_retry_backoff, PostConnectStep, pcs_idle,
  pcs_ntp, pcs_cal, pcs_mqtt, pcs_done, SyncResult, sync_ok, sync_timeout, sync_no_wifi, start_ble,
  sync_time, connect_mqtt, reset_http, Answer, Network, perform_action, run_sync, after_sync,
  post_connect_tick, init_tick, connecting_tick, backoff_tick, tick_in, wifi_state_tick,
  is_connected, note_link, has_bit, run_deferred, loop_connectivity,
}

abbrev pub step_rank : PostConnectStep → ℕ
step_rank pcs_ntp = 3
step_rank pcs_cal = 2
step_rank pcs_mqtt = 1
step_rank pcs_idle = 0
step_rank pcs_done = 0

abbrev pub rank : WifiState → PostConnectStep → ℕ
rank wst_retry_backoff p = 6
rank wst_init p = 5
rank wst_connecting p = 4
rank wst_connected p = step_rank p

abbrev pub is_backoff : WifiState → Bool
is_backoff wst_retry_backoff = true
is_backoff s = false

-- WiFi is up, and there are credentials.
pub record IsUp (a : Answer) : Type 0 where
  pub joined : a.joined ≡ true
  pub linked : a.linked ≡ true
  pub credentials : (a.has_saved || a.has_built_in) ≡ true

-- The wait after a failure is over.
abbrev pub IsOver : Answer → Network → Type 0
IsOver a n = (is_backoff n.state && ltb (sub32 a.now n.entered_ms) 30000) ≡ false

-- A step nearer, and not waiting.
abbrev Nearer : ℕ → Network → Type 0
Nearer k n = (rank n.state n.post_connect ≤ k - 1) × (is_backoff n.state ≡ false)

after_sync_rank : (r : SyncResult) → step_rank (after_sync r) ≤ 2
after_sync_rank sync_ok = omega arith
after_sync_rank sync_timeout = omega arith
after_sync_rank sync_no_wifi = omega arith

post_connect_tick-Nearer :
    (p : PostConnectStep) (a : Answer) (n : Network)
    → n.state ≡ wst_connected
    → n.post_connect ≡ p
    → Nearer (step_rank p) (post_connect_tick p a n)
unfolding post_connect_tick run_sync
post_connect_tick-Nearer pcs_ntp a n s e =
    let Q : SyncResult × Network → Type 0 =
      λ r. Nearer 3 (record r.1 { post_connect = after_sync r.0 }) in
    if_keeps Q n.skip_network (sync_no_wifi, n) (a.sync, perform_action sync_time n)
      (rw s (omega arith, refl)) (rw s (after_sync_rank a.sync, refl))
post_connect_tick-Nearer pcs_cal a n s e = rw s (omega arith, refl)
post_connect_tick-Nearer pcs_mqtt a n s e =
    if_keeps (λ (v : Network). Nearer 1 (record v { post_connect = pcs_done })) a.has_mqtt
      (perform_action connect_mqtt n) n (rw s (omega arith, refl)) (rw s (omega arith, refl))
post_connect_tick-Nearer pcs_idle a n s e = rw (s, e) (omega arith, refl)
post_connect_tick-Nearer pcs_done a n s e = rw (s, e) (omega arith, refl)

tick_in-Nearer :
    (s : WifiState) (a : Answer) (n : Network)
    → n.state ≡ s
    → IsUp a
    → IsOver a n
    → Nearer (rank s n.post_connect) (tick_in s a n)
unfolding tick_in init_tick connecting_tick backoff_tick
tick_in-Nearer wst_init a n e up over = rw up.credentials (omega arith, refl)
tick_in-Nearer wst_connecting a n e up over = rw up.joined (omega arith, refl)
tick_in-Nearer wst_connected a n e up over = post_connect_tick-Nearer n.post_connect a n e refl
tick_in-Nearer wst_retry_backoff a n e up over =
    let backing : is_backoff n.state ≡ true = ap is_backoff e in
    let waited : leb 30000 (sub32 a.now n.entered_ms) ≡ true = ground (arith, over, backing) in
    rw waited (omega arith, refl)

-- What follows the tick leaves the state, and has the network skipped only without a connection.
record Follows (t n : Network) : Type 0 where
  same_state : n.state ≡ t.state
  same_step : n.post_connect ≡ t.post_connect
  skips : (n.skip_network && is_connected n.state) ≡ false

-- Nor does a change of other fields.
alike :
    (t n x : Network)
    → x.state ≡ n.state
    → x.post_connect ≡ n.post_connect
    → x.skip_network ≡ n.skip_network
    → Follows t n
    → Follows t x
alike t n x s p k h = record {
  same_state = s ∙ h.same_state;
  same_step = p ∙ h.same_step;
  skips = cc (s, k, h.skips);
}

note_link-Follows : (a : Answer) (t : Network) → a.linked ≡ true → Follows t (note_link a t)
unfolding note_link
note_link-Follows a t l =
    let back = t.skip_network && a.linked && is_connected t.state in
    let enabled : Network = perform_action reset_http (record t { skip_network = false }) in
    let restored = if back then enabled else t in
    let k =
      if_cases (Follows t) back enabled t
        (λ _. record { same_state = refl; same_step = refl; skips = refl })
        (λ c. record { same_state = refl; same_step = refl; skips = ground (arith, c, l) }) in
    let fell : Network = perform_action reset_http (perform_action start_ble restored) in
    let lost = t.was_connected && not a.linked in
    let dropped = if lost then fell else restored in
    let d = if_keeps (Follows t) lost fell restored (alike t restored fell refl refl refl k) k in
    alike t dropped (record dropped { was_connected = a.linked }) refl refl refl d

run_deferred-Follows : (a : Answer) (t n : Network) → Follows t n → Follows t (run_deferred a n)
unfolding run_deferred
run_deferred-Follows a t n h =
    let P = Follows t in
    let mask = n.deferred_requests in
    let other : (x : Network)
        → x.state ≡ n.state
        → x.post_connect ≡ n.post_connect
        → x.skip_network ≡ n.skip_network
        → Follows t x =
      λ x s p k. alike t n x s p k h in
    if_keeps P (mask == 0) n _ h (
      if_keeps P (ltb (sub32 a.now n.defer_cooldown) 2000) n _ h (
        if_keeps P (has_bit 1 mask) _ _ (other _ refl refl refl) (
          if_keeps P (has_bit 2 mask) _ _ (other _ refl refl refl) (
            if_keeps P (has_bit 4 mask) _ _ (other _ refl refl refl) (
              if_keeps P (has_bit 8 mask) _ _ (other _ refl refl refl) (other _ refl refl refl))))))

loop-Follows :
    (a : Answer) (n : Network)
    → a.linked ≡ true
    → Follows (wifi_state_tick a n) (loop_connectivity a n)
unfolding loop_connectivity
loop-Follows a n l =
    let t = wifi_state_tick a n in
    let noted = note_link a t in
    let k = note_link-Follows a t l in
    let connect = a.has_mqtt && not a.mqtt_up in
    let served = if connect then perform_action connect_mqtt noted else noted in
    let s =
      if_keeps (Follows t) connect (perform_action connect_mqtt noted) noted
        (alike t noted (perform_action connect_mqtt noted) refl refl refl k) k in
    if_keeps (Follows t) (noted.skip_network || not a.linked) noted (run_deferred a served) k
      (run_deferred-Follows a t served s)

loop-Nearer :
    (a : Answer) (n : Network)
    → IsUp a
    → IsOver a n
    → Nearer (rank n.state n.post_connect) (loop_connectivity a n)
unfolding wifi_state_tick
loop-Nearer a n up over =
    let f = loop-Follows a n up.linked in
    let k = tick_in-Nearer n.state a n refl up over in
    let t = tick_in n.state a n in
    let same : rank (loop_connectivity a n).state (loop_connectivity a n).post_connect
        ≡ rank t.state t.post_connect =
      cc (f.same_state, f.same_step) in
    (omega (arith, k.0, same), ap is_backoff f.same_state ∙ k.1)

-- Connected, with nothing left to do after the connection, and not skipped.
pub record IsSettled (n : Network) : Type 0 where
  pub connected : n.state ≡ wst_connected
  pub nothing_left : step_rank n.post_connect ≡ 0
  pub enabled : n.skip_network ≡ false

abbrev pub loop_all : List Answer → Network → Network
loop_all [] n = n
loop_all (a ∷ more) n = loop_all more (loop_connectivity a n)

settled :
    (s : WifiState) (n : Network)
    → n.state ≡ s
    → rank s n.post_connect ≤ 0
    → (n.skip_network && is_connected n.state) ≡ false
    → IsSettled n
settled wst_init n e r k = absurd (omega (arith, r))
settled wst_connecting n e r k = absurd (omega (arith, r))
settled wst_retry_backoff n e r k = absurd (omega (arith, r))
settled wst_connected n e r k =
    let linked : is_connected n.state ≡ true = ap is_connected e in
    record { connected = e; nothing_left = omega (arith, r); enabled = ground (arith, k, linked) }

loop_all-settles :
    (answers : List Answer) (a : Answer) (n : Network)
    → IsUp a
    → IsOver a n
    → All IsUp answers
    → rank n.state n.post_connect ≤ suc (length answers)
    → IsSettled (loop_all answers (loop_connectivity a n))
loop_all-settles [] a n up over all r =
    let k = loop-Nearer a n up over in
    let n' = loop_connectivity a n in
    settled n'.state n' refl (omega (arith, k.0, r)) (loop-Follows a n up.linked).skips
loop_all-settles (b ∷ more) a n up over all r =
    let k = loop-Nearer a n up over in
    let n' = loop_connectivity a n in
    let go : (is_backoff n'.state && ltb (sub32 b.now n'.entered_ms) 30000) ≡ false =
      ground (arith, k.1) in
    loop_all-settles more b n' all.0 go all.1 (omega (arith, k.0, r))

rank_le : (s : WifiState) (p : PostConnectStep) → rank s p ≤ 6
rank_le wst_retry_backoff p = omega arith
rank_le wst_init p = omega arith
rank_le wst_connecting p = omega arith
rank_le wst_connected pcs_ntp = omega arith
rank_le wst_connected pcs_cal = omega arith
rank_le wst_connected pcs_mqtt = omega arith
rank_le wst_connected pcs_idle = omega arith
rank_le wst_connected pcs_done = omega arith

-- From any state of the network, if there are credentials, and WiFi is up from a loop on which is 30 s
-- or more after a failure, if there was one: six loops, or more, connect it, finish what follows a
-- connection, whatever the clock's server answers, and leave the network enabled.
pub loops-settle :
    (a : Answer) (answers : List Answer) (n : Network)
    → IsUp a
    → IsOver a n
    → All IsUp answers
    → 5 ≤ length answers
    → IsSettled (loop_all (a ∷ answers) n)
loops-settle a answers n up over all l =
    loop_all-settles answers a n up over all (omega (arith, l, rank_le n.state n.post_connect))
