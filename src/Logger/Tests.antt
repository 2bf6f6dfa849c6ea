-- ===== src/Logger/Tests.antt =====
-- Runs of the data logger with a ring of 64 bytes, and witnesses.
use power_monitoring.Base.{
  ℕ, ◌+◌, ◌*◌, ◌<◌, ◌≡◌, refl, true, false, none, some, List, [], ◌∷◌, map, arith, length,
  replicate,
}
use power_monitoring.Logger.{
  Sample, Logger, encode, entry_of, log_entries_count, init_data_logger, free_space, can_fit,
  first_part, put, store, log_sample,
}
use power_monitoring.Logger.Refine.{
  Op, sample, pop, perform_all, perform_all_queue, no_sample, empty_queue, logger-refines,
}
use power_monitoring.Logger.Rebuild.{entries_of, read_entries, IsSample, rebuild-entries_of}

abbrev powered_on : Logger
powered_on = record {
  buffer = [];
  head = 0;
  tail = 0;
  entry_count = 0;
  warned = false;
  last = no_sample;
  have_base = false;
  flushed = [];
}

abbrev ramp : ℕ → Sample
ramp n = record {
  timestamp_ms = 1000 * n;
  v = replicate 4 (12000 + n);
  i = replicate 4 n;
  p = replicate 4 0;
}

-- Three samples, of which the third does not fit, and batches of 40 and 10 bytes.
abbrev ops : List Op
ops =
    sample false false (ramp 1)
    ∷ sample false false (ramp 2)
    ∷ sample true true (ramp 3)
    ∷ pop 40
    ∷ pop 10
    ∷ []

counted :
    log_entries_count
      (perform_all 64
        (sample false false (ramp 1) ∷ sample false false (ramp 2) ∷ [])
        (init_data_logger 64 powered_on)).1
    ≡ 2
unfolding log_sample store put can_fit free_space entry_of encode first_part
counted = refl

logger-refines_example :
    ((perform_all 64 ops (init_data_logger 64 powered_on)).0
      ≡ (perform_all_queue 64 ops empty_queue).0)
    × (log_entries_count (perform_all 64 ops (init_data_logger 64 powered_on)).1
        ≡ length (perform_all_queue 64 ops empty_queue).1.entries)
logger-refines_example = logger-refines 64 ops powered_on (omega arith) (omega arith) refl (
  record { voltages = refl; currents = refl; powers = refl },
  (
    record { voltages = refl; currents = refl; powers = refl },
    (record { voltages = refl; currents = refl; powers = refl }, (tt, (tt, tt))),
  ),
)

ramp-IsSample : (n : ℕ) → n < 1000 → IsSample (ramp n)
ramp-IsSample n h = record {
  in_time = omega (arith, h);
  v_words = (omega (arith, h), (omega (arith, h), (omega (arith, h), (omega (arith, h), tt))));
  i_words = (omega (arith, h), (omega (arith, h), (omega (arith, h), (omega (arith, h), tt))));
  p_words = (omega arith, (omega arith, (omega arith, (omega arith, tt))));
  v_four = refl;
  i_four = refl;
  p_four = refl;
}

rebuild-entries_of_example :
    read_entries none (entries_of false no_sample (ramp 1 ∷ ramp 2 ∷ []))
    ≡ map some (ramp 1 ∷ ramp 2 ∷ [])
rebuild-entries_of_example =
    rebuild-entries_of no_sample (ramp 1 ∷ ramp 2 ∷ [])
      (ramp-IsSample 1 (omega arith), (ramp-IsSample 2 (omega arith), tt))

-- A ring of 64 bytes that is full forgets the base, and its next entry is a delta that no reader can
-- use.
base_lost :
    read_entries none
      (perform_all_queue 64
        (sample false false (ramp 1)
          ∷ sample false false (ramp 2)
          ∷ sample false false (ramp 3)
          ∷ [])
        empty_queue).1.entries
    ≡ none ∷ []
unfolding entry_of encode
base_lost = refl
