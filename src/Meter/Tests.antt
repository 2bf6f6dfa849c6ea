-- ===== src/Meter/Tests.antt =====
-- Runs of the meter's frames over numbers in millionths, and witnesses.
use power_monitoring.Base.{ℕ, ◌≡◌, refl, none, List, [], ◌∷◌, ◌++◌, arith, get_or, set, replicate}
use power_monitoring.Floats.{ℤ, millionths}
use power_monitoring.Meter.{Meter, slot_for_address, checksum, parse_frame, drain_uart}
use power_monitoring.Meter.Frames.{drain_uart-frame}
use power_monitoring.Meter.Corruption.{parse_frame-corrupted}

-- The address 80 and zeros; 85 + 80 is 165, and the checksum 90.
abbrev good_frame : List ℕ
good_frame = 80 ∷ replicate 22 0 ++ 90 ∷ []

abbrev quiet : Meter ℤ
quiet = record { rx = []; cache = λ _. none }

good_checksum : checksum good_frame ≡ get_or good_frame 23 0
unfolding checksum
good_checksum = refl

drain_uart-frame_example :
    drain_uart (79 ∷ 80 ∷ []) (1 ∷ 2 ∷ good_frame) quiet
    ≡ parse_frame (79 ∷ 80 ∷ []) good_frame quiet
unfolding slot_for_address
drain_uart-frame_example =
    drain_uart-frame (79 ∷ 80 ∷ []) (1 ∷ 2 ∷ []) (replicate 22 0 ++ 90 ∷ []) 80 1 (λ _. none)
      (refl, (refl, tt)) refl refl

parse_frame-corrupted_example : parse_frame (79 ∷ 80 ∷ []) (set good_frame 5 7) quiet ≡ quiet
parse_frame-corrupted_example =
    parse_frame-corrupted (79 ∷ 80 ∷ []) good_frame 5 7 quiet (omega arith) refl (omega arith)
      (omega arith) (omega arith) good_checksum
