-- ===== src/Logger/Refine.antt =====
-- The data logger implements a queue of entries, of which batches are taken.
use mathlib.Core.Path.{subst}
use power_monitoring.Base.{
  ℕ, ◌≤◌, ◌<◌, ◌≡◌, refl, sym, ◌∙◌, Bool, true, false, ◌&&◌, ◌||◌, List, [], ◌∷◌, arith, length,
  replicate, length-replicate, All, slot_zero, window,
}
use power_monitoring.Logger.{
  Entry, Sample, Logger, encode, entry_of, log_entries_count, init_data_logger, store, is_high,
  log_sample, log_pop_batch,
}
use power_monitoring.Logger.Queue.{IsSized, Holds, count-le, admit, store-Holds}
use power_monitoring.Logger.Batches.{pop_queue, pop_ring-pop_queue}
use power_monitoring.Logger.Sized.{IsFour, IsSized-entry_of}
use power_monitoring.Logger.Keeps.{store-Keeps, pop_ring-Keeps, warned-Holds, noted-Holds}

-- The logger as a queue.
pub record Queue : Type 0 where
  pub entries : List Entry
  pub last : Sample
  pub have_base : Bool

pub data Op : Type 0 where
  sample : Bool → Bool → Sample → Op
  pop : ℕ → Op

abbrev pub perform : ℕ → Op → Logger → List ℕ × Logger
perform size (sample network_down card s) l = ([], log_sample size network_down card s l)
perform size (pop out_len) l = log_pop_batch size out_len l

abbrev pub perform_queue : ℕ → Op → Queue → List ℕ × Queue
perform_queue size (sample network_down card s) q = (
  [],
  record {
    entries = admit size (entry_of q.have_base q.last s) q.entries;
    last = s;
    have_base = true;
  },
)
perform_queue size (pop out_len) q =
    let (out, rest) = pop_queue out_len q.entries in (out, record q { entries = rest })

abbrev pub perform_all : ℕ → List Op → Logger → List (List ℕ) × Logger
perform_all size [] l = ([], l)
perform_all size (op ∷ ops) l =
    let (out, l') = perform size op l in
    let (outs, l'') = perform_all size ops l' in (out ∷ outs, l'')

abbrev pub perform_all_queue : ℕ → List Op → Queue → List (List ℕ) × Queue
perform_all_queue size [] q = ([], q)
perform_all_queue size (op ∷ ops) q =
    let (out, q') = perform_queue size op q in
    let (outs, q'') = perform_all_queue size ops q' in (out ∷ outs, q'')

abbrev pub IsOp : Op → Type 0
IsOp (sample network_down card s) = IsFour s
IsOp (pop out_len) = Unit

-- The logger holds what the queue holds.
pub record Matches (size : ℕ) (q : Queue) (l : Logger) : Type 0 where
  pub held : Holds size q.entries l
  pub same_last : l.last ≡ q.last
  pub same_base : l.have_base ≡ q.have_base
  pub four : IsFour q.last

module _ (size : ℕ) (big : 30 < size) (small : size < 4294967296) where
  perform-Matches :
      (op : Op) (q : Queue) (l : Logger)
      → IsOp op
      → Matches size q l
      → ((perform size op l).0 ≡ (perform_queue size op q).0)
        × Matches size (perform_queue size op q).1 (perform size op l).1
  unfolding log_sample log_pop_batch
  perform-Matches (sample network_down card s) q l four h =
      let e = entry_of l.have_base l.last s in
      let same : e ≡ entry_of q.have_base q.last s = cc (h.same_last, h.same_base) in
      let noted : Logger = record l {
        last = s;
        have_base = true;
        warned = l.warned || is_high size l;
      } in
      let sized = subst IsSized (sym same) (IsSized-entry_of q.have_base q.last s h.four four) in
      let stored =
        store-Holds size (network_down && card) q.entries noted e big small
          (noted-Holds size q.entries l _ s h.held) sized in
      let after = store size (network_down && card) (encode e) noted in
      let kept = store-Keeps size (network_down && card) (encode e) noted in
      (
        refl,
        record {
          held = subst (λ x. Holds size (admit size x q.entries) after) same stored;
          same_last = kept.0;
          same_base = kept.1;
          four = four;
        },
      )
  perform-Matches (pop out_len) q l four h =
      let few : length q.entries ≤ size =
        omega (arith, count-le q.entries h.held.sized, h.held.fits) in
      let popped = pop_ring-pop_queue size size out_len q.entries l few h.held in
      let kept = pop_ring-Keeps size size out_len l in
      (
        popped.0,
        record {
          held = warned-Holds size _ _ _ popped.1;
          same_last = kept.0 ∙ h.same_last;
          same_base = kept.1 ∙ h.same_base;
          four = h.four;
        },
      )

  pub perform_all-Matches :
      (ops : List Op) (q : Queue) (l : Logger)
      → All IsOp ops
      → Matches size q l
      → ((perform_all size ops l).0 ≡ (perform_all_queue size ops q).0)
        × Matches size (perform_all_queue size ops q).1 (perform_all size ops l).1
  perform_all-Matches [] q l a h = (refl, h)
  perform_all-Matches (op ∷ ops) q l a h =
      let step = perform-Matches op q l a.0 h in
      let rest =
        perform_all-Matches ops (perform_queue size op q).1 (perform size op l).1 a.1 step.1 in
      (cc (step.0, rest.0), rest.1)

abbrev pub no_sample : Sample
no_sample = record { timestamp_ms = 0; v = replicate 4 0; i = replicate 4 0; p = replicate 4 0 }

abbrev pub empty_queue : Queue
empty_queue = record { entries = []; last = no_sample; have_base = false }

pub init-Matches :
    (size : ℕ) (l : Logger)
    → 0 < size
    → l.last ≡ no_sample
    → Matches size empty_queue (init_data_logger size l)
unfolding window
init-Matches size l h e = record {
  held = record {
    full_length = length-replicate size 0;
    tail_lt = h;
    fits = h;
    head_follows = sym (slot_zero size 0 h);
    content = refl;
    counted = refl;
    sized = tt;
  };
  same_last = e;
  same_base = refl;
  four = record { voltages = refl; currents = refl; powers = refl };
}

-- For a ring of more than 30 and less than 2 ^ 32 bytes, from power-on: whatever samples of four
-- channels are logged and batches taken, each batch is the bytes of the whole entries that fit into
-- it, oldest first, of the queue that admits every entry and, when the entry does not fit, first
-- forgets all others; and the count of entries is the length of that queue.
pub logger-refines :
    (size : ℕ) (ops : List Op) (before : Logger)
    → 30 < size
    → size < 4294967296
    → before.last ≡ no_sample
    → All IsOp ops
    → ((perform_all size ops (init_data_logger size before)).0
        ≡ (perform_all_queue size ops empty_queue).0)
      × (log_entries_count (perform_all size ops (init_data_logger size before)).1
          ≡ length (perform_all_queue size ops empty_queue).1.entries)
logger-refines size ops before big small e a =
    let h =
      perform_all-Matches size big small ops empty_queue (init_data_logger size before) a
        (init-Matches size before (omega (arith, big)) e) in
    (h.0, h.1.held.counted)
