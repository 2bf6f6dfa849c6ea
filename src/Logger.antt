-- ===== src/Logger.antt =====
-- src/data_logger.cpp and include/data_logger.h: the ring of log entries in memory.
-- A signed 16-bit number is its two's complement, below 2 ^ 16. The readings in millivolts,
-- milliamperes and watts come converted. The memory card is left out, but for what is handed to it.
mod Bytes
pub mod Queue
mod Batches
pub mod Sized
mod Keeps
pub mod Refine
mod Rebuild
pub mod Contents
mod Tests
use power_monitoring.Base.{
  ℕ, zero, suc, ◌+◌, ◌-◌, ◌*◌, ◌/◌, ◌%◌, Bool, true, false, not, ◌&&◌, ◌||◌, List, [], ◌∷◌, ◌++◌,
  ltb, leb, ◌==◌, if◌then◌else◌, length, get_or, set, take, drop, replicate, u16, u32, sub32,
}

pub data Entry : Type 0 where
  base : ℕ → List ℕ → List ℕ → List ℕ → Entry
  delta : ℕ → List ℕ → List ℕ → List ℕ → Entry

abbrev pub entry_base : ℕ
entry_base = 0xB0

abbrev pub entry_delta : ℕ
entry_delta = 0xD0

-- The sizes of the two packed structs.
abbrev pub base_size : ℕ
base_size = 29

abbrev pub delta_size : ℕ
delta_size = 27

abbrev pub max_delta : ℕ
max_delta = 32760

abbrev pub high_water_pct : ℕ
high_water_pct = 80

-- A reading of the first four channels.
pub record Sample : Type 0 where
  pub timestamp_ms : ℕ
  pub v : List ℕ
  pub i : List ℕ
  pub p : List ℕ

-- `size` is LOG_BUFFER_BYTES; `flushed` is what was handed to the card, the newest block first.
pub record Logger : Type 0 where
  pub buffer : List ℕ
  pub head : ℕ
  pub tail : ℕ
  pub entry_count : ℕ
  pub warned : Bool
  pub last : Sample
  pub have_base : Bool
  pub flushed : List (List ℕ)

abbrev pub halves : List ℕ → List ℕ
halves [] = []
halves (x ∷ xs) = x % 256 ∷ x / 256 % 256 ∷ halves xs

-- The bytes of an entry, lowest byte first.
unfoldable pub encode : Entry → List ℕ
encode (base ts v i p) =
    entry_base
    ∷ ts % 256
    ∷ ts / 256 % 256
    ∷ ts / 65536 % 256
    ∷ ts / 16777216 % 256
    ∷ (halves v ++ (halves i ++ halves p))
encode (delta dt dv di dp) =
    entry_delta ∷ dt % 256 ∷ dt / 256 % 256 ∷ (halves dv ++ (halves di ++ halves dp))

-- `(int16_t)(a - b)` of each channel.
abbrev pub differences : List ℕ → List ℕ → List ℕ
differences [] ys = []
differences (x ∷ xs) [] = []
differences (x ∷ xs) (y ∷ ys) = u16 (x + 65536 - y) ∷ differences xs ys

-- `abs(d) > LOG_MAX_DELTA`.
abbrev pub is_large : ℕ → Bool
is_large d = ltb max_delta (if ltb d 32768 then d else 65536 - d)

abbrev pub any_large : List ℕ → Bool
any_large [] = false
any_large (d ∷ ds) = is_large d || any_large ds

-- The entry of a sample, after the previous one.
unfoldable pub entry_of : Bool → Sample → Sample → Entry
entry_of have_base last s =
    let dv = differences s.v last.v in
    let di = differences s.i last.i in
    let dp = differences s.p last.p in
    let dt = sub32 s.timestamp_ms last.timestamp_ms in
    let overflow = any_large dv || (any_large di || any_large dp) in
    if not have_base
    then base s.timestamp_ms s.v s.i s.p
    else if overflow || ltb 60000 dt
    then base s.timestamp_ms s.v s.i s.p
    else delta (u16 dt) dv di dp

-- `memcpy` to the buffer.
abbrev pub copy_at : ℕ → List ℕ → List ℕ → List ℕ
copy_at at [] buf = buf
copy_at at (b ∷ bytes) buf = copy_at (suc at) bytes (set buf at b)

abbrev pub log_entries_count : Logger → ℕ
log_entries_count l = l.entry_count

module _ (size : ℕ) where
  -- `init_data_logger`.
  abbrev pub init_data_logger : Logger → Logger
  init_data_logger l = record l {
    buffer = replicate size 0;
    head = 0;
    tail = 0;
    entry_count = 0;
    have_base = false;
    warned = false;
  }

  unfoldable pub next_pos : ℕ → ℕ → ℕ
  next_pos pos n = if leb size (pos + n) then pos + n - size else pos + n

  unfoldable pub free_space : ℕ → ℕ → ℕ
  free_space h t = if leb t h then size - (h - t) - 1 else t - h - 1

  unfoldable pub can_fit : ℕ → Logger → Bool
  unfolding free_space
  can_fit n l = if leb size n then false else ltb n (free_space l.head l.tail)

  unfoldable pub used : Logger → ℕ
  used l = if leb l.tail l.head then l.head - l.tail else size - l.tail + l.head

  -- How much of `n` bytes is copied before the end of the buffer.
  unfoldable pub first_part : ℕ → ℕ → ℕ
  first_part h n = if leb size (h + n) then size - h else n

  -- The two copies of an entry to the buffer, and its count.
  unfoldable pub put : List ℕ → Logger → Logger
  unfolding first_part
  put bytes l =
      let n = length bytes in
      let first = first_part l.head n in
      let head' = (l.head + first) % size in
      let buf' = copy_at l.head (take first bytes) l.buffer in
      if ltb first n
      then record l {
        buffer = copy_at head' (drop first bytes) buf';
        head = (head' + n - first) % size;
        entry_count = u32 (l.entry_count + 1);
      }
      else record l { buffer = buf'; head = head'; entry_count = u32 (l.entry_count + 1) }

  -- The bytes from `pos` on.
  unfoldable pub read_bytes : ℕ → ℕ → List ℕ → List ℕ
  unfolding next_pos
  read_bytes zero pos buf = []
  read_bytes (suc k) pos buf = get_or buf pos 0 ∷ read_bytes k (next_pos pos 1) buf

  -- A full ring is emptied, and handed to the card if the network is down and there is a card.
  unfoldable pub make_room : Bool → Logger → Logger
  unfolding used read_bytes
  make_room to_card l =
      let empty = record l { tail = l.head; entry_count = 0 } in
      if to_card
      then record empty { flushed = read_bytes (used l) l.tail l.buffer ∷ l.flushed }
      else empty

  unfoldable pub store : Bool → List ℕ → Logger → Logger
  store to_card bytes l =
      let emptied = make_room to_card l in
      if can_fit (length bytes) l
      then put bytes l
      else if can_fit (length bytes) emptied
      then put bytes emptied
      else emptied

  -- The warning about a nearly full ring.
  unfoldable pub is_high : Logger → Bool
  unfolding used
  is_high l = leb (high_water_pct * size) (used l * 100)

  unfoldable pub log_sample : Bool → Bool → Sample → Logger → Logger
  log_sample network_down card s l =
      let e = entry_of l.have_base l.last s in
      let noted = record l { last = s; have_base = true; warned = l.warned || is_high l } in
      store (network_down && card) (encode e) noted

  -- The size of the entry at the tail, by its first byte.
  unfoldable pub size_at_tail : Logger → ℕ
  size_at_tail l = if get_or l.buffer l.tail 0 == entry_base then base_size else delta_size

  -- The entry at the tail, of `es` bytes, is taken off.
  unfoldable pub drop_entry : ℕ → Logger → Logger
  drop_entry es l = record l {
    tail = next_pos l.tail es;
    entry_count = if l.entry_count == 0 then 0 else l.entry_count - 1;
  }

  -- The loop of `pop_ring`, of which each round takes an entry; `room` is `out_len - written`.
  unfoldable pub pop_ring : ℕ → ℕ → Logger → List ℕ × Logger
  pop_ring zero room l = ([], l)
  pop_ring (suc fuel) room l =
      let es = size_at_tail l in
      let rest = pop_ring fuel (room - es) (drop_entry es l) in
      if ltb room delta_size || l.tail == l.head
      then ([], l)
      else if ltb room es
      then ([], l)
      else (read_bytes es l.tail l.buffer ++ rest.0, rest.1)

  unfoldable pub log_pop_batch : ℕ → Logger → List ℕ × Logger
  log_pop_batch out_len l =
      let (out, l') = pop_ring size out_len l in
      (out, record l' { warned = l'.warned && is_high l' })

  unfoldable pub log_is_full : Logger → Bool
  unfolding can_fit
  log_is_full l = not (can_fit delta_size l)

  unfoldable pub log_buffer_used_pct : Logger → ℕ
  unfolding used
  log_buffer_used_pct l = used l * 100 / size
