-- ===== src/Reports/Queue.antt =====
-- The ring of error reports implements a queue that forgets the oldest report when it is full.
use power_monitoring.Base.{
  ℕ, zero, suc, ◌+◌, ◌-◌, ◌%◌, ◌≤◌, ◌<◌, ◌≡◌, refl, sym, ap, ◌∙◌, inl, inr, false, Option, none,
  some, List, [], ◌∷◌, arith, ltb, ◌==◌, ltb→lt, Bool-cases, length, length-set, slot, slot_self,
  remember, window, window-remember, window_full-remember,
}
use power_monitoring.Reports.{
  max_pending, ErrorReport, ErrorRing, blank, no_reports, report_of, report_error,
  pop_pending_error, clear_pending_errors,
}

-- The pending reports, oldest first.
unfoldable pub pending : ErrorRing → List ErrorReport
unfolding window
pending r = window max_pending blank r.buf r.tail r.count

pub record IsRing (r : ErrorRing) : Type 0 where
  pub full_length : length r.buf ≡ max_pending
  pub tail_lt : r.tail < max_pending
  pub count_le : r.count ≤ max_pending
  pub head_follows : r.head ≡ slot max_pending r.tail r.count

pub data Op : Type 0 where
  report : ℕ → List ℕ → ℕ → List ℕ → Op
  pop clear : Op

-- What an operation does to the ring, and what it hands out.
abbrev pub perform : Op → ErrorRing → Option ErrorReport × ErrorRing
perform (report now subsystem code message) r = (none, report_error now subsystem code message r)
perform pop r = pop_pending_error r
perform clear r = (none, clear_pending_errors r)

-- The same of a queue.
abbrev pub pop_queue : List ErrorReport → Option ErrorReport × List ErrorReport
pop_queue [] = (none, [])
pop_queue (x ∷ xs) = (some x, xs)

abbrev pub perform_queue : Op → List ErrorReport → Option ErrorReport × List ErrorReport
perform_queue (report now subsystem code message) q =
    (none, remember max_pending (report_of now subsystem code message) q)
perform_queue pop q = pop_queue q
perform_queue clear q = (none, [])

report_error-IsRing :
    (now : ℕ) (subsystem : List ℕ) (code : ℕ) (message : List ℕ) (r : ErrorRing)
    → IsRing r
    → IsRing (report_error now subsystem code message r)
unfolding report_error slot
report_error-IsRing now subsystem code message r h =
    ground (arith, h, length-set r.buf r.head (report_of now subsystem code message))

pop_pending_error-IsRing : (r : ErrorRing) → IsRing r → IsRing ((pop_pending_error r).1)
unfolding pop_pending_error slot
pop_pending_error-IsRing r h = ground (arith, h)

clear_pending_errors-IsRing : (r : ErrorRing) → IsRing r → IsRing (clear_pending_errors r)
unfolding clear_pending_errors slot
clear_pending_errors-IsRing r h = ground (arith, h)

-- One step after a cell, as the source computes it.
pub next_slot : (pos : ℕ) → pos < max_pending → (pos + 1) % max_pending ≡ slot max_pending pos 1
unfolding slot
next_slot pos h = ground arith

pending-report_error :
    (now : ℕ) (subsystem : List ℕ) (code : ℕ) (message : List ℕ) (r : ErrorRing)
    → IsRing r
    → pending (report_error now subsystem code message r)
      ≡ remember max_pending (report_of now subsystem code message) (pending r)
unfolding pending report_error
pending-report_error now subsystem code message r h =
    let e = report_of now subsystem code message in
    elim (Bool-cases (ltb r.count max_pending)) [
      | inl room ↦
          let grown =
            window-remember max_pending blank r.buf e r.count r.tail h.full_length
              (ltb→lt r.count max_pending room) h.tail_lt in
          let more : r.count + 1 ≡ suc r.count = omega arith in
          rw room (cc (grown, h.head_follows, more))
      | inr full ↦
          let filled : max_pending ≡ r.count = ground (arith, full, h.count_le) in
          let wrapped : r.head ≡ r.tail =
            h.head_follows
            ∙ ap (slot max_pending r.tail) (sym filled)
            ∙ slot_self max_pending r.tail h.tail_lt in
          let turned =
            window_full-remember max_pending blank r.buf e r.tail r.count h.full_length h.tail_lt
              filled in
          rw full (cc (turned, wrapped, next_slot r.tail h.tail_lt))
    ]

pop_window :
    (buf : List ErrorReport) (head tail count : ℕ)
    → tail < max_pending
    → let r : ErrorRing = record { buf = buf; head = head; tail = tail; count = count } in
      ((pop_pending_error r).0 ≡ (pop_queue (pending r)).0)
      × (pending (pop_pending_error r).1 ≡ (pop_queue (pending r)).1)
unfolding pending pop_pending_error window
pop_window buf head tail zero h = (refl, refl)
pop_window buf head tail (suc k) h =
    let some_left : (suc k == 0) ≡ false = ground arith in
    let fewer : suc k - 1 ≡ k = omega arith in
    (rw some_left refl, rw some_left (cc (next_slot tail h, fewer)))

pending-pop_pending_error :
    (r : ErrorRing)
    → IsRing r
    → ((pop_pending_error r).0 ≡ (pop_queue (pending r)).0)
      × (pending (pop_pending_error r).1 ≡ (pop_queue (pending r)).1)
pending-pop_pending_error r h = pop_window r.buf r.head r.tail r.count h.tail_lt

perform-IsRing : (op : Op) (r : ErrorRing) → IsRing r → IsRing (perform op r).1
perform-IsRing (report now subsystem code message) r h =
    report_error-IsRing now subsystem code message r h
perform-IsRing pop r h = pop_pending_error-IsRing r h
perform-IsRing clear r h = clear_pending_errors-IsRing r h

perform-pending :
    (op : Op) (r : ErrorRing)
    → IsRing r
    → ((perform op r).0 ≡ (perform_queue op (pending r)).0)
      × (pending (perform op r).1 ≡ (perform_queue op (pending r)).1)
unfolding pending clear_pending_errors window
perform-pending (report now subsystem code message) r h =
    (refl, pending-report_error now subsystem code message r h)
perform-pending pop r h = pending-pop_pending_error r h
perform-pending clear r h = (refl, refl)

-- Several operations: what they hand out, and what stays pending.
abbrev pub perform_all : List Op → ErrorRing → List (Option ErrorReport) × ErrorRing
perform_all [] r = ([], r)
perform_all (op ∷ ops) r =
    let (out, r') = perform op r in let (outs, r'') = perform_all ops r' in (out ∷ outs, r'')

abbrev pub perform_all_queue :
    List Op → List ErrorReport → List (Option ErrorReport) × List ErrorReport
perform_all_queue [] q = ([], q)
perform_all_queue (op ∷ ops) q =
    let (out, q') = perform_queue op q in
    let (outs, q'') = perform_all_queue ops q' in (out ∷ outs, q'')

perform_all-refines :
    (ops : List Op) (r : ErrorRing)
    → IsRing r
    → ((perform_all ops r).0 ≡ (perform_all_queue ops (pending r)).0)
      × (pending (perform_all ops r).1 ≡ (perform_all_queue ops (pending r)).1)
perform_all-refines [] r h = (refl, refl)
perform_all-refines (op ∷ ops) r h =
    let step = perform-pending op r h in
    let rest = perform_all-refines ops (perform op r).1 (perform-IsRing op r h) in
    (cc (step.0, step.1, rest.0), cc (step.1, rest.1))

-- From power-on, any reports, pops and clears hand out, and leave pending, what the same calls do to
-- a queue of at most eight reports that forgets its oldest one for a ninth.
pub error_ring-refines :
    (ops : List Op)
    → ((perform_all ops no_reports).0 ≡ (perform_all_queue ops []).0)
      × (pending (perform_all ops no_reports).1 ≡ (perform_all_queue ops []).1)
unfolding pending window slot
error_ring-refines ops = perform_all-refines ops no_reports (ground arith)
