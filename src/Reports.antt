-- ===== src/Reports.antt =====
-- src/error_reporter.cpp and include/error_reporter.h: the pending error reports, a ring of eight.
-- Texts are lists of characters without the terminator, and not null; `uptime_ms` is what
-- `millis()` answers.
mod Queue
mod Tests
use power_monitoring.Base.{
  ℕ, ◌+◌, ◌-◌, ◌%◌, Option, none, some, List, [], ltb, ◌==◌, if◌then◌else◌, get_or, set, take,
  replicate,
}

abbrev pub max_pending : ℕ
max_pending = 8

-- The buffers of the texts (16 and 64 bytes), a byte less for the terminator.
abbrev pub subsystem_max : ℕ
subsystem_max = 15

abbrev pub message_max : ℕ
message_max = 63

pub record ErrorReport : Type 0 where
  pub uptime_ms : ℕ
  pub subsystem : List ℕ
  pub code : ℕ
  pub message : List ℕ

pub record ErrorRing : Type 0 where
  pub buf : List ErrorReport
  pub head : ℕ
  pub tail : ℕ
  pub count : ℕ

abbrev pub blank : ErrorReport
blank = record { uptime_ms = 0; subsystem = []; code = 0; message = [] }

-- The initial value of `g_ring`.
abbrev pub no_reports : ErrorRing
no_reports = record { buf = replicate max_pending blank; head = 0; tail = 0; count = 0 }

abbrev pub report_of : ℕ → List ℕ → ℕ → List ℕ → ErrorReport
report_of now subsystem code message = record {
  uptime_ms = now;
  subsystem = take subsystem_max subsystem;
  code = code;
  message = take message_max message;
}

unfoldable pub report_error : ℕ → List ℕ → ℕ → List ℕ → ErrorRing → ErrorRing
report_error now subsystem code message r =
    let written = record r {
      buf = set r.buf r.head (report_of now subsystem code message);
      head = (r.head + 1) % max_pending;
    } in
    if ltb r.count max_pending
    then record written { count = r.count + 1 }
    else record written { tail = (r.tail + 1) % max_pending }

abbrev pub pending_error_count : ErrorRing → ℕ
pending_error_count r = r.count

unfoldable pub pop_pending_error : ErrorRing → Option ErrorReport × ErrorRing
pop_pending_error r = if r.count == 0 then (none, r) else (
  some (get_or r.buf r.tail blank),
  record r { tail = (r.tail + 1) % max_pending; count = r.count - 1 },
)

unfoldable pub clear_pending_errors : ErrorRing → ErrorRing
clear_pending_errors r = record r { head = 0; tail = 0; count = 0 }
