-- ===== src/Connectivity/Publish.antt =====
-- `publish_log_batch`, with the reading of the overflow file of src/data_logger.cpp.
use power_monitoring.Base.{
  ℕ, zero, suc, ◌≤◌, ◌<◌, ◌≡◌, Bool, true, false, not, Option, none, some, List, [], ◌∷◌, ◌++◌,
  ◌==◌, if◌then◌else◌, length, drop,
}
use power_monitoring.Logger.{Logger, log_pop_batch}
use power_monitoring.Connectivity.Base64.{base64_encode}

abbrev pub batch_size : ℕ
batch_size = 512

-- `offered` are the payloads given to `mqtt.publish`, oldest first, and its answers; `pending` are the
-- first `pending_len` bytes of that buffer; `overflow` is the file on the card.
pub record Uplink : Type 0 where
  pub pending : List ℕ
  pub logger : Logger
  pub overflow : Option (List ℕ)
  pub offered : List (List ℕ × Bool)

-- What the broker answers to payload number `n`, whether the file can be opened, and what a read of at
-- most so many bytes gives of the rest of a file.
pub record Answers : Type 0 where
  pub accepts : ℕ → Bool
  pub opens : Bool
  pub read : ℕ → List ℕ → List ℕ

-- `mqtt.publish` of a payload in base64.
unfoldable pub offer : Answers → List ℕ → Uplink → Bool × Uplink
offer a bytes u =
    let ok = a.accepts (length u.offered) in
    (ok, record u { offered = u.offered ++ (base64_encode bytes, ok) ∷ [] })

-- The pending batch; false is the early return.
unfoldable pub send_pending : Answers → Uplink → Bool × Uplink
unfolding offer
send_pending a u =
    let (ok, u') = offer a u.pending u in
    if length u.pending == 0
    then (true, u)
    else if ok
    then (true, record u' { pending = [] })
    else (false, u')

-- A batch from the ring, which is pending if it is not accepted.
unfoldable pub send_batch : Answers → ℕ → Uplink → Bool × Uplink
unfolding offer
send_batch a size u =
    let (batch, l) = log_pop_batch size batch_size u.logger in
    let popped = record u { logger = l } in
    let (ok, u') = offer a batch popped in
    if length batch == 0
    then (true, popped)
    else if ok
    then (true, u')
    else (false, record u' { pending = batch })

-- The loop over the chunks of the open file; each round takes a byte at least, so as many rounds as
-- bytes, and one, are enough.
unfoldable pub drain : Answers → ℕ → List ℕ → Uplink → Bool × Uplink
unfolding offer
drain a zero rest u = (false, u)
drain a (suc fuel) rest u =
    let chunk = a.read batch_size rest in
    let (ok, u') = offer a chunk u in
    let next = drain a fuel (drop (length chunk) rest) u' in
    if length chunk == 0 then (true, u) else if not ok then (false, u') else next

unfoldable pub drain_file : Answers → Option (List ℕ) → Uplink → Uplink
unfolding drain
drain_file a none u = u
drain_file a (some bytes) u =
    let (drained, u') = drain a (suc (length bytes)) bytes u in
    if not a.opens then u else if drained then record u' { overflow = none } else u'

unfoldable pub drain_overflow : Answers → Uplink → Uplink
unfolding drain_file
drain_overflow a u = drain_file a u.overflow u

unfoldable pub publish_log_batch : Answers → ℕ → Bool → Bool → Uplink → Uplink
unfolding send_pending send_batch drain_overflow
publish_log_batch a size configured connected u =
    let (sent, u1) = send_pending a u in
    let (popped, u2) = send_batch a size u1 in
    let u3 = drain_overflow a u2 in
    if not configured
    then u
    else if not connected
    then u
    else if not sent
    then u1
    else if not popped
    then u2
    else u3

-- Reads without faults give the file piece by piece: at most what is asked for, and nothing at its end
-- alone.
pub record IsReader (read : ℕ → List ℕ → List ℕ) : Type 0 where
  pub short : (n : ℕ) (rest : List ℕ) → length (read n rest) ≤ n
  pub piece : (n : ℕ) (rest : List ℕ) → read n rest ++ drop (length (read n rest)) rest ≡ rest
  pub at_end : (n : ℕ) (rest : List ℕ) → 0 < n → length (read n rest) ≡ 0 → rest ≡ []
