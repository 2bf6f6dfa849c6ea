-- ===== src/Events/Tests.antt =====
-- A run of the event log, and a witness.
use power_monitoring.Base.{◌≡◌, refl, none, some, List, [], ◌∷◌, length, get_elem?, u32, newest}
use power_monitoring.Events.{
  max_entries, severity_error, clear_ring, entry_of, log_event, init_event_log,
  get_total_event_count, get_ring_event,
}
use power_monitoring.Events.History.{LogCall, log_all, all_entries, log_all-history}

-- Two entries with a severity out of range, and a call without a subsystem.
abbrev some_calls : List LogCall
some_calls =
    record { now = 10; severity = 9; subsystem = some (1 ∷ []); message = some (2 ∷ []) }
    ∷ record { now = 11; severity = 1; subsystem = none; message = some [] }
    ∷ record { now = 12; severity = 0; subsystem = some []; message = some [] }
    ∷ []

severity_cut :
    get_ring_event 1 (log_all some_calls (init_event_log 5 clear_ring))
    ≡ some (entry_of 10 severity_error (1 ∷ []) (2 ∷ []))
unfolding get_ring_event log_event init_event_log
severity_cut = refl

log_all-history_example :
    let r = log_all some_calls (init_event_log 5 clear_ring) in
    (get_ring_event 2 r ≡ get_elem? (newest max_entries (all_entries 5 some_calls)) 2)
    × (get_total_event_count r ≡ u32 (length (all_entries 5 some_calls)))
log_all-history_example = log_all-history 5 some_calls clear_ring 2
