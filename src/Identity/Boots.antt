-- ===== src/Identity/Boots.antt =====
-- How starts and clean shutdowns make the count of crashes.
-- What happens to a device: a start, which forgets what is not stored, and the mark of a clean shutdown.
use power_monitoring.Base.{
  ℕ, suc, ◌+◌, ◌≤◌, ◌<◌, ◌≡◌, refl, Bool, true, false, not, List, [], ◌∷◌, arith, ◌==◌,
  if◌then◌else◌, length, u32, if_keeps,
}
use power_monitoring.Identity.{
  Identity, row_or, load_serial, count_boot, init_device_identity, mark_clean_shutdown, power_off,
}

pub data Life : Type 0 where
  start mark : Life

abbrev pub live : List ℕ → Life → Identity → Identity
live mac start i = init_device_identity mac (power_off i)
live mac mark i = mark_clean_shutdown i

abbrev pub live_all : List ℕ → List Life → Identity → Identity
live_all mac [] i = i
live_all mac (x ∷ xs) i = live_all mac xs (live mac x i)

abbrev pub starts : List Life → ℕ
starts [] = 0
starts (start ∷ xs) = suc (starts xs)
starts (mark ∷ xs) = starts xs

abbrev pub marks : List Life → ℕ
marks [] = 0
marks (start ∷ xs) = marks xs
marks (mark ∷ xs) = suc (marks xs)

abbrev pub stored_count : Identity → ℕ
stored_count i = row_or 0 i.crash_row

-- A mark that no start has used yet.
abbrev pub unused : Identity → ℕ
unused i = if row_or false i.clean_row then 1 else 0

count_bounds :
    (clean : Bool) (k : ℕ)
    → k + 1 < 4294967296
    → let c = if not clean then u32 (k + 1) else k in
      (c ≤ k + 1) × (k + 1 ≤ c + (if clean then 1 else 0))
count_bounds true k h = (omega arith, omega arith)
count_bounds false k h = (omega (arith, h), omega (arith, h))

load_serial-rows :
    (mac : List ℕ) (i : Identity)
    → ((load_serial mac i).clean_row ≡ i.clean_row) × ((load_serial mac i).crash_row ≡ i.crash_row)
unfolding load_serial
load_serial-rows mac i =
    if_keeps (λ (x : Identity). (x.clean_row ≡ i.clean_row) × (x.crash_row ≡ i.crash_row))
      (length (row_or [] i.serial_row) == 0) _ _ (refl, refl) (refl, refl)

live-start :
    (mac : List ℕ) (i : Identity)
    → stored_count i + 1 < 4294967296
    → let i' = live mac start i in
      (unused i' ≡ 0)
      × ((stored_count i' ≤ stored_count i + 1) × (stored_count i + 1 ≤ stored_count i' + unused i))
unfolding init_device_identity count_boot
live-start mac i h =
    let same = load_serial-rows mac (power_off i) in
    rw (same.0, same.1) (refl, count_bounds (row_or false i.clean_row) (stored_count i) h)

-- For less than 2 ^ 32 starts: whatever starts and marks of a clean shutdown a device has, each mark
-- excuses one start at most. So the stored count of crashes has grown by all the starts but as many as
-- there were marks, or one more for a mark from before; and by no more than the starts.
pub live_all-counts :
    (mac : List ℕ) (life : List Life) (i : Identity)
    → stored_count i + starts life < 4294967296
    → let k = stored_count (live_all mac life i) in
      (starts life + stored_count i ≤ k + marks life + unused i)
      × (k ≤ stored_count i + starts life)
unfolding mark_clean_shutdown
live_all-counts mac [] i h = (omega arith, omega arith)
live_all-counts mac (start ∷ xs) i h =
    let one = live-start mac i (omega (arith, h)) in
    let rest = live_all-counts mac xs (live mac start i) (omega (arith, h, one.1.0)) in
    (omega (arith, one.0, one.1.1, rest.0), omega (arith, one.1.0, rest.1))
live_all-counts mac (mark ∷ xs) i h =
    let rest = live_all-counts mac xs (mark_clean_shutdown i) h in (omega (arith, rest.0), rest.1)
