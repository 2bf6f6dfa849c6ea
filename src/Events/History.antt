-- ===== src/Events/History.antt =====
-- The event log keeps the newest 64 events, and numbers them from the oldest.
use power_monitoring.Base.{
  ℕ, zero, suc, ◌+◌, ◌-◌, ◌%◌, ◌≤◌, ◌<◌, ◌≡◌, refl, sym, ap, ◌∙◌, inl, inr, Bool, true, false, not,
  Option, none, some, List, [], ◌∷◌, ◌++◌, arith, ltb, leb, if◌then◌else◌, ltb→lt, leb→le,
  Bool-cases, length, get_elem?, length-append, length-set, u8, u32, slot, newest, remember, window,
  length-window, window-remember, window_full-remember, get_elem?-window, remember-newest,
  append_nil, append_assoc,
}
use power_monitoring.Events.{
  max_entries, severity_info, EventLogEntry, EventRing, blank, clear_ring, entry_of, push,
  log_event, system_text, init_text, init_event_log, get_total_event_count, tail_of, get_ring_event,
}

-- The cell of the oldest event.
abbrev pub oldest : EventRing → ℕ
oldest r = if ltb r.head r.count then r.head + max_entries - r.count else r.head - r.count

-- The events kept, oldest first.
unfoldable pub history : EventRing → List EventLogEntry
unfolding window
history r = window max_entries blank r.buf (oldest r) r.count

pub record IsRing (r : EventRing) : Type 0 where
  pub full_length : length r.buf ≡ max_entries
  pub head_lt : r.head < max_entries
  pub count_le : r.count ≤ max_entries

push-IsRing : (e : EventLogEntry) (r : EventRing) → IsRing r → IsRing (push e r)
unfolding push
push-IsRing e r h = ground (arith, h, length-set r.buf r.head e)

oldest_lt : (r : EventRing) → IsRing r → oldest r < max_entries
oldest_lt r h = ground (arith, h)

head_slot : (r : EventRing) → IsRing r → r.head ≡ slot max_entries (oldest r) r.count
unfolding slot
head_slot r h = ground (arith, h)

history-push :
    (e : EventLogEntry) (r : EventRing)
    → IsRing r
    → history (push e r) ≡ remember max_entries e (history r)
unfolding history push slot
history-push e r h = elim (Bool-cases (ltb r.count max_entries)) [
  | inl room ↦
      let grown =
        window-remember max_entries blank r.buf e r.count (oldest r) h.full_length
          (ltb→lt r.count max_entries room) (oldest_lt r h) in
      let more : r.count + 1 ≡ suc r.count = omega arith in
      let same : oldest (push e r) ≡ oldest r = ground (arith, h, room) in
      rw room (cc (grown, head_slot r h, more, same))
  | inr full ↦
      let filled : max_entries ≡ r.count = ground (arith, full, h.count_le) in
      let here : oldest r ≡ r.head = ground (arith, h, filled) in
      let next : oldest (push e r) ≡ slot max_entries r.head 1 = ground (arith, h, filled) in
      let turned =
        window_full-remember max_entries blank r.buf e r.head r.count h.full_length h.head_lt
          filled in
      rw full (cc (turned, here, next))
]

-- The place that the source computes, with its remainder of a negative number and its cuts.
tail_of_lem :
    (r : EventRing) (idx : ℕ)
    → IsRing r
    → idx < r.count
    → u8 ((tail_of r + idx) % max_entries) ≡ slot max_entries (oldest r) idx
unfolding tail_of slot
tail_of_lem r idx h i = ground (arith, h)

get_elem?-past : (xs : List EventLogEntry) (i : ℕ) → length xs ≤ i → get_elem? xs i ≡ none
get_elem?-past [] i h = refl
get_elem?-past (x ∷ xs) zero h = absurd (omega (arith, h))
get_elem?-past (x ∷ xs) (suc i) h = get_elem?-past xs i (omega (arith, h))

get_ring_event-history :
    (idx : ℕ) (r : EventRing) → IsRing r → get_ring_event idx r ≡ get_elem? (history r) idx
unfolding get_ring_event history
get_ring_event-history idx r h = elim (Bool-cases (leb r.count idx)) [
  | inl past ↦
      let size = length-window max_entries blank r.buf (oldest r) r.count in
      rw past (
        sym (
          get_elem?-past (window max_entries blank r.buf (oldest r) r.count) idx
            (omega (arith, size, leb→le r.count idx past))))
  | inr found ↦
      let i : idx < r.count = ground (arith, found) in
      let there =
        get_elem?-window max_entries blank r.buf r.count (oldest r) idx h.full_length h.count_le
          (oldest_lt r h) i in
      rw found (cc (there, tail_of_lem r idx h i))
]

-- A call of `log_event`, and the entries that several calls make.
pub record LogCall : Type 0 where
  pub now : ℕ
  pub severity : ℕ
  pub subsystem : Option (List ℕ)
  pub message : Option (List ℕ)

abbrev pub log_all : List LogCall → EventRing → EventRing
log_all [] r = r
log_all (c ∷ cs) r = log_all cs (log_event c.now c.severity c.subsystem c.message r)

abbrev pub entry_or_none : ℕ → ℕ → Option (List ℕ) → Option (List ℕ) → List EventLogEntry
entry_or_none now severity none message = []
entry_or_none now severity (some s) none = []
entry_or_none now severity (some s) (some m) = entry_of now severity s m ∷ []

abbrev pub entries : List LogCall → List EventLogEntry
entries [] = []
entries (c ∷ cs) = entry_or_none c.now c.severity c.subsystem c.message ++ entries cs

-- The ring holds the newest of `es`, and has counted them.
pub record Holds (es : List EventLogEntry) (r : EventRing) : Type 0 where
  pub ring : IsRing r
  pub started : r.initialized ≡ true
  pub kept : history r ≡ newest max_entries es
  pub counted : r.total ≡ u32 (length es)

push-Holds :
    (e : EventLogEntry) (es : List EventLogEntry) (r : EventRing)
    → Holds es r
    → Holds (es ++ e ∷ []) (push e r)
push-Holds e es r h = record {
  ring = push-IsRing e r h.ring;
  started = unfold push in h.started;
  kept =
      history-push e r h.ring
      ∙ ap (remember max_entries e) h.kept
      ∙ remember-newest max_entries e es;
  counted = unfold push in omega (arith, h.counted, length-append es (e ∷ []));
}

started-Holds :
    (b : Bool) (es : List EventLogEntry) (r s : EventRing)
    → b ≡ true
    → Holds es s
    → Holds es (if not b then r else s)
started-Holds true es r s e h = h
started-Holds false es r s e h = absurd (ground (arith, e))

log_event-Holds :
    (now severity : ℕ) (subsystem message : Option (List ℕ)) (es : List EventLogEntry)
    (r : EventRing)
    → Holds es r
    → Holds
        (es ++ entry_or_none now severity subsystem message)
        (log_event now severity subsystem message r)
unfolding log_event
log_event-Holds now severity none message es r h =
    rw (append_nil es) (started-Holds r.initialized es r r h.started h)
log_event-Holds now severity (some s) none es r h =
    rw (append_nil es) (started-Holds r.initialized es r r h.started h)
log_event-Holds now severity (some s) (some m) es r h =
    let e = entry_of now severity s m in
    started-Holds r.initialized (es ++ e ∷ []) r (push e r) h.started (push-Holds e es r h)

log_all-Holds :
    (cs : List LogCall) (es : List EventLogEntry) (r : EventRing)
    → Holds es r
    → Holds (es ++ entries cs) (log_all cs r)
log_all-Holds [] es r h = rw (append_nil es) h
log_all-Holds (c ∷ cs) es r h =
    rw (append_assoc es (entry_or_none c.now c.severity c.subsystem c.message) (entries cs)) (
      log_all-Holds cs (es ++ entry_or_none c.now c.severity c.subsystem c.message)
        (log_event c.now c.severity c.subsystem c.message r)
        (log_event-Holds c.now c.severity c.subsystem c.message es r h))

clear_ring-Holds : Holds [] (record clear_ring { initialized = true })
unfolding history window newest
clear_ring-Holds = record {
  ring = record { full_length = refl; head_lt = omega arith; count_le = omega arith };
  started = refl;
  kept = refl;
  counted = refl;
}

-- The entries that the log has been given since boot, the one of `init_event_log` first.
abbrev pub all_entries : ℕ → List LogCall → List EventLogEntry
all_entries now cs = entry_of now severity_info system_text init_text ∷ entries cs

-- After `init_event_log` and any calls of `log_event`, `get_ring_event` reads, by its index, the list
-- of the newest 64 entries, oldest first, and answers none exactly past its end; the total is the
-- number of all entries in 32 bits. A call without a subsystem or a message makes no entry.
pub log_all-history :
    (now : ℕ) (cs : List LogCall) (before : EventRing) (idx : ℕ)
    → let r = log_all cs (init_event_log now before) in
      (get_ring_event idx r ≡ get_elem? (newest max_entries (all_entries now cs)) idx)
      × (get_total_event_count r ≡ u32 (length (all_entries now cs)))
unfolding init_event_log
log_all-history now cs before idx =
    let e =
      log_event-Holds now severity_info (some system_text) (some init_text) []
        (record clear_ring { initialized = true }) clear_ring-Holds in
    let h =
      log_all-Holds cs (entry_of now severity_info system_text init_text ∷ [])
        (init_event_log now before) e in
    (
      get_ring_event-history idx (log_all cs (init_event_log now before)) h.ring
          ∙ ap (λ es. get_elem? es idx) h.kept,
      h.counted,
    )
