-- ===== src/Logger/Rebuild.antt =====
-- The samples come back from the entries.
use power_monitoring.Base.{
  ℕ, ◌+◌, ◌-◌, ◌≤◌, ◌<◌, ◌≡◌, refl, sym, ap, ◌∙◌, inl, inr, Bool, true, false, ◌||◌, Option, none,
  some, List, [], ◌∷◌, map, arith, ltb, Bool-cases, length, All, u16, u32, sub32,
}
use power_monitoring.Logger.{Entry, base, delta, Sample, differences, any_large, entry_of}

-- The entries of several samples, in order, and what a reader makes of them.
abbrev pub entries_of : Bool → Sample → List Sample → List Entry
entries_of have_base last [] = []
entries_of have_base last (s ∷ ss) = entry_of have_base last s ∷ entries_of true s ss

abbrev pub sums : List ℕ → List ℕ → List ℕ
sums [] ys = []
sums (x ∷ xs) [] = []
sums (x ∷ xs) (y ∷ ys) = u16 (x + y) ∷ sums xs ys

-- A delta is added to the sample before it; without one it is lost.
abbrev pub read_entry : Option Sample → Entry → Option Sample
read_entry before (base ts v i p) = some (record { timestamp_ms = ts; v = v; i = i; p = p })
read_entry none (delta dt dv di dp) = none
read_entry (some s) (delta dt dv di dp) = some (record {
  timestamp_ms = u32 (s.timestamp_ms + dt);
  v = sums s.v dv;
  i = sums s.i di;
  p = sums s.p dp;
})

abbrev pub read_entries : Option Sample → List Entry → List (Option Sample)
read_entries before [] = []
read_entries before (e ∷ es) = read_entry before e ∷ read_entries (read_entry before e) es

abbrev pub IsWord : ℕ → Type 0
IsWord n = n < 65536

-- A sample of four channels, its numbers of 16 bits and its time of 32.
pub record IsSample (s : Sample) : Type 0 where
  pub in_time : s.timestamp_ms < 4294967296
  pub v_words : All IsWord s.v
  pub i_words : All IsWord s.i
  pub p_words : All IsWord s.p
  pub v_four : length s.v ≡ 4
  pub i_four : length s.i ≡ 4
  pub p_four : length s.p ≡ 4

sums-differences :
    (xs ys : List ℕ)
    → length xs ≡ length ys
    → All IsWord xs
    → All IsWord ys
    → sums ys (differences xs ys) ≡ xs
sums-differences [] [] n a b = refl
sums-differences [] (y ∷ ys) n a b = absurd (omega (arith, n))
sums-differences (x ∷ xs) [] n a b = absurd (omega (arith, n))
sums-differences (x ∷ xs) (y ∷ ys) n a b =
    let here : u16 (y + u16 (x + 65536 - y)) ≡ x = omega (arith, a.0, b.0) in
    cc (here, sums-differences xs ys (omega (arith, n)) a.1 b.1)

read_entry-entry_of :
    (last s : Sample)
    → IsSample last
    → IsSample s
    → read_entry (some last) (entry_of true last s) ≡ some s
unfolding entry_of
read_entry-entry_of last s l h =
    let dv = differences s.v last.v in
    let di = differences s.i last.i in
    let dp = differences s.p last.p in
    let dt = sub32 s.timestamp_ms last.timestamp_ms in
    let large = any_large dv || (any_large di || any_large dp) in
    elim (Bool-cases (large || ltb 60000 dt)) [
      | inl whole ↦ rw whole refl
      | inr small ↦
          let near : dt ≤ 60000 = ground (arith, small) in
          let time : u32 (last.timestamp_ms + u16 dt) ≡ s.timestamp_ms =
            omega (arith, near, l.in_time, h.in_time) in
          let v = sums-differences s.v last.v (h.v_four ∙ sym l.v_four) h.v_words l.v_words in
          let i = sums-differences s.i last.i (h.i_four ∙ sym l.i_four) h.i_words l.i_words in
          let p = sums-differences s.p last.p (h.p_four ∙ sym l.p_four) h.p_words l.p_words in
          rw small (cc (time, v, i, p))
    ]

read_entries-entries_of :
    (last : Sample) (ss : List Sample)
    → IsSample last
    → All IsSample ss
    → read_entries (some last) (entries_of true last ss) ≡ map some ss
read_entries-entries_of last [] l a = refl
read_entries-entries_of last (s ∷ ss) l a =
    let one = read_entry-entry_of last s l a.0 in
    rw one (ap (λ t. some s ∷ t) (read_entries-entries_of s ss a.0 a.1))

-- The entries of samples of four channels with numbers of 16 bits, the first of them the first since
-- power-on, give back every sample, whatever the times between them.
pub rebuild-entries_of :
    (last : Sample) (ss : List Sample)
    → All IsSample ss
    → read_entries none (entries_of false last ss) ≡ map some ss
unfolding entry_of
rebuild-entries_of last [] a = refl
rebuild-entries_of last (s ∷ ss) a = ap (λ t. some s ∷ t) (read_entries-entries_of s ss a.0 a.1)
