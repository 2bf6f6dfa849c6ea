-- ===== src/Events.antt =====
-- src/event_log.cpp and include/event_log.h: the log of device events, a ring of 64.
-- Texts are lists of characters without the terminator; a pointer that may be null is an option, and
-- the message is the text that the format gives. The dump to the serial console is left out.
mod History
mod Tests
use power_monitoring.Base.{
  ℕ, ◌+◌, ◌-◌, ◌%◌, Bool, true, false, not, Option, none, some, List, [], ◌∷◌, ltb, leb,
  if◌then◌else◌, get_or, set, take, replicate, u8, u32,
}

abbrev pub max_entries : ℕ
max_entries = 64

-- The buffers of the texts (12 and 60 bytes), a byte less for the terminator.
abbrev pub subsystem_max : ℕ
subsystem_max = 11

abbrev pub message_max : ℕ
message_max = 59

abbrev pub severity_info : ℕ
severity_info = 1

abbrev pub severity_error : ℕ
severity_error = 3

pub record EventLogEntry : Type 0 where
  pub uptime_ms : ℕ
  pub severity : ℕ
  pub subsystem : List ℕ
  pub message : List ℕ

pub record EventRing : Type 0 where
  pub buf : List EventLogEntry
  pub head : ℕ
  pub count : ℕ
  pub total : ℕ
  pub initialized : Bool

abbrev pub blank : EventLogEntry
blank = record { uptime_ms = 0; severity = 0; subsystem = []; message = [] }

abbrev pub clear_ring : EventRing
clear_ring = record {
  buf = replicate max_entries blank;
  head = 0;
  count = 0;
  total = 0;
  initialized = false;
}

abbrev pub entry_of : ℕ → ℕ → List ℕ → List ℕ → EventLogEntry
entry_of now severity subsystem message = record {
  uptime_ms = now;
  severity = if ltb severity_error severity then severity_error else severity;
  subsystem = take subsystem_max subsystem;
  message = take message_max message;
}

-- An entry is written at the head.
unfoldable pub push : EventLogEntry → EventRing → EventRing
push e r = record r {
  buf = set r.buf r.head e;
  head = (r.head + 1) % max_entries;
  count = if ltb r.count max_entries then r.count + 1 else r.count;
  total = u32 (r.total + 1);
}

unfoldable pub log_event : ℕ → ℕ → Option (List ℕ) → Option (List ℕ) → EventRing → EventRing
unfolding push
log_event now severity subsystem message r = if not r.initialized then r else elim subsystem [
  | none ↦ r
  | some s ↦ elim message [ none ↦ r | some m ↦ push (entry_of now severity s m) r ]
]

-- The texts that `init_event_log` logs.
abbrev pub system_text : List ℕ
system_text = b's' ∷ b'y' ∷ b's' ∷ b't' ∷ b'e' ∷ b'm' ∷ []

abbrev pub init_text : List ℕ
init_text =
    b'e' ∷ b'v' ∷ b'e' ∷ b'n' ∷ b't' ∷ b' ' ∷ b'l' ∷ b'o' ∷ b'g' ∷ b' ' ∷ b'i' ∷ b'n' ∷ b'i' ∷ b't'
    ∷ b'i' ∷ b'a' ∷ b'l' ∷ b'i' ∷ b'z' ∷ b'e' ∷ b'd' ∷ []

unfoldable pub init_event_log : ℕ → EventRing → EventRing
unfolding log_event
init_event_log now r =
    log_event now severity_info (some system_text) (some init_text)
      (record clear_ring { initialized = true })

abbrev pub get_total_event_count : EventRing → ℕ
get_total_event_count r = r.total

abbrev pub get_ring_event_count : EventRing → ℕ
get_ring_event_count r = r.count

-- `(head - count) % 64` is computed on `int`, where a negative difference has a negative remainder,
-- and then cut to eight bits.
unfoldable pub tail_of : EventRing → ℕ
tail_of r =
    if ltb r.head r.count
    then u8 (256 - (r.count - r.head) % max_entries)
    else u8 ((r.head - r.count) % max_entries)

unfoldable pub get_ring_event : ℕ → EventRing → Option EventLogEntry
unfolding tail_of
get_ring_event idx r =
    if leb r.count idx
    then none
    else some (get_or r.buf (u8 ((tail_of r + idx) % max_entries)) blank)
