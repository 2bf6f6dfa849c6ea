-- ===== src/Connectivity/Texts.antt =====
-- Every payload fits into the buffer that it is encoded to.
use power_monitoring.Base.{
  ℕ, zero, suc, ◌-◌, ◌≤◌, ◌≡◌, refl, ap, inl, inr, Bool, true, false, not, ◌||◌, Option, none, some,
  List, [], ◌∷◌, ◌++◌, arith, ltb, ◌==◌, if◌then◌else◌, Bool-cases, length, drop, length-append,
  All, if_keeps,
}
use power_monitoring.Logger.{
  delta_size, Logger, next_pos, read_bytes, size_at_tail, drop_entry, pop_ring, log_pop_batch,
}
use power_monitoring.Connectivity.Base64.{base64_encode}
use power_monitoring.Connectivity.Decode.{length-base64_encode}
use power_monitoring.Connectivity.Publish.{
  batch_size, Uplink, Answers, offer, send_pending, send_batch, drain, drain_file, drain_overflow,
  publish_log_batch,
}

length-read_bytes : (size k pos : ℕ) (buf : List ℕ) → length (read_bytes size k pos buf) ≡ k
unfolding read_bytes
length-read_bytes size zero pos buf = refl
length-read_bytes size (suc k) pos buf = ap suc (length-read_bytes size k (next_pos size pos 1) buf)

length-pop_ring : (size fuel room : ℕ) (l : Logger) → length (pop_ring size fuel room l).0 ≤ room
unfolding pop_ring
length-pop_ring size zero room l = omega arith
length-pop_ring size (suc fuel) room l =
    let es = size_at_tail size l in
    let rest = pop_ring size fuel (room - es) (drop_entry size es l) in
    let more = length-pop_ring size fuel (room - es) (drop_entry size es l) in
    let long = length-append (read_bytes size es l.tail l.buffer) rest.0 in
    let read = length-read_bytes size es l.tail l.buffer in
    elim (Bool-cases (ltb room delta_size || l.tail == l.head)) [
      | inl stop ↦ rw stop (omega arith)
      | inr go ↦ elim (Bool-cases (ltb room es)) [
        | inl short ↦ rw (go, short) (omega arith)
        | inr enough ↦ rw (go, enough) (ground (arith, enough, more, long, read))
      ]
    ]

-- `char encoded[700]`.
abbrev pub buffer_size : ℕ
buffer_size = 700

abbrev pub Fits : List ℕ × Bool → Type 0
Fits text = length text.0 ≤ buffer_size

-- The pending batch is within its buffer of 512 bytes, and the payloads within theirs.
pub record IsBounded (u : Uplink) : Type 0 where
  pub pending_fits : length u.pending ≤ batch_size
  pub payloads_fit : All Fits u.offered

All-append :
    (xs : List (List ℕ × Bool)) (x : List ℕ × Bool) → All Fits xs → Fits x → All Fits (xs ++ x ∷ [])
All-append [] x h k = (k, tt)
All-append (y ∷ xs) x h k = (h.0, All-append xs x h.1 k)

offer-IsBounded :
    (a : Answers) (bytes : List ℕ) (u : Uplink)
    → length bytes ≤ batch_size
    → IsBounded u
    → IsBounded (offer a bytes u).1
unfolding offer
offer-IsBounded a bytes u n h = record {
  pending_fits = h.pending_fits;
  payloads_fit =
      All-append u.offered (base64_encode bytes, a.accepts (length u.offered)) h.payloads_fit
        (omega (arith, n, length-base64_encode bytes));
}

send_pending-IsBounded : (a : Answers) (u : Uplink) → IsBounded u → IsBounded (send_pending a u).1
unfolding send_pending
send_pending-IsBounded a u h =
    let (ok, u') = offer a u.pending u in
    let k = offer-IsBounded a u.pending u h.pending_fits h in
    if_keeps (λ (r : Bool × Uplink). IsBounded r.1) (length u.pending == 0) (true, u)
      (if ok then (true, record u' { pending = [] }) else (false, u')) h
      (if_keeps (λ (r : Bool × Uplink). IsBounded r.1) ok (true, record u' { pending = [] })
        (false, u') (record { pending_fits = omega arith; payloads_fit = k.payloads_fit }) k)

send_batch-IsBounded :
    (a : Answers) (size : ℕ) (u : Uplink) → IsBounded u → IsBounded (send_batch a size u).1
unfolding send_batch log_pop_batch
send_batch-IsBounded a size u h =
    let (batch, l) = log_pop_batch size batch_size u.logger in
    let popped : Uplink = record u { logger = l } in
    let same : IsBounded popped = record {
      pending_fits = h.pending_fits;
      payloads_fit = h.payloads_fit;
    } in
    let n = length-pop_ring size size batch_size u.logger in
    let (ok, u') = offer a batch popped in
    let k = offer-IsBounded a batch popped n same in
    if_keeps (λ (r : Bool × Uplink). IsBounded r.1) (length batch == 0) (true, popped)
      (if ok then (true, u') else (false, record u' { pending = batch })) same
      (if_keeps (λ (r : Bool × Uplink). IsBounded r.1) ok (true, u')
        (false, record u' { pending = batch }) k
        (record { pending_fits = n; payloads_fit = k.payloads_fit }))

module _ (a : Answers) (short : (n : ℕ) (rest : List ℕ) → length (a.read n rest) ≤ n) where
  drain-IsBounded :
      (fuel : ℕ) (rest : List ℕ) (u : Uplink) → IsBounded u → IsBounded (drain a fuel rest u).1
  unfolding drain
  drain-IsBounded zero rest u h = h
  drain-IsBounded (suc fuel) rest u h =
      let chunk = a.read batch_size rest in
      let (ok, u') = offer a chunk u in
      let k = offer-IsBounded a chunk u (short batch_size rest) h in
      let next = drain a fuel (drop (length chunk) rest) u' in
      if_keeps (λ (r : Bool × Uplink). IsBounded r.1) (length chunk == 0) (true, u)
        (if not ok then (false, u') else next) h
        (if_keeps (λ (r : Bool × Uplink). IsBounded r.1) (not ok) (false, u') next k
          (drain-IsBounded fuel (drop (length chunk) rest) u' k))

  drain_file-IsBounded :
      (file : Option (List ℕ)) (u : Uplink) → IsBounded u → IsBounded (drain_file a file u)
  unfolding drain_file
  drain_file-IsBounded none u h = h
  drain_file-IsBounded (some bytes) u h =
      let (drained, u') = drain a (suc (length bytes)) bytes u in
      let k = drain-IsBounded (suc (length bytes)) bytes u h in
      if_keeps IsBounded (not a.opens) u (if drained then record u' { overflow = none } else u') h (
        if_keeps IsBounded drained (record u' { overflow = none }) u'
          (record { pending_fits = k.pending_fits; payloads_fit = k.payloads_fit }) k)

  -- If no read of the file gives more than it was asked for: whatever the broker answers, a call of
  -- `publish_log_batch` keeps the pending batch within 512 bytes and gives the broker only payloads
  -- that fit, with their final zero, into the buffer of 700 characters.
  pub publish_log_batch-IsBounded :
      (size : ℕ) (configured connected : Bool) (u : Uplink)
      → IsBounded u
      → IsBounded (publish_log_batch a size configured connected u)
  unfolding publish_log_batch drain_overflow
  publish_log_batch-IsBounded size configured connected u h =
      let (sent, u1) = send_pending a u in
      let (popped, u2) = send_batch a size u1 in
      let one = send_pending-IsBounded a u h in
      let two = send_batch-IsBounded a size u1 one in
      let three = drain_file-IsBounded u2.overflow u2 two in
      if_keeps IsBounded (not configured) u _ h (
        if_keeps IsBounded (not connected) u _ h (
          if_keeps IsBounded (not sent) u1 _ one
            (if_keeps IsBounded (not popped) u2 (drain_overflow a u2) two three)))
