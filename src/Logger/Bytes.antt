-- ===== src/Logger/Bytes.antt =====
-- What the copies to the ring and the reads of it do to the bytes that it holds.
use native.Mathlib.Nat.{mod_self, mod-eq_of_lt}
use native.Mathlib.Nat.{mod_self, mod-eq_of_lt}
use power_monitoring.Base.{
  ℕ, zero, suc, ◌+◌, ◌-◌, ◌%◌, ◌≤◌, ◌<◌, ◌≡◌, refl, sym, ap, ◌∙◌, inl, inr, List, [], ◌∷◌, ◌++◌,
  arith, ltb, if◌then◌else◌, ltb→lt, Bool-cases, length, set, take, drop, length-append, u32, slot,
  window, fill, fill-append,
}
use power_monitoring.Logger.{Logger, copy_at, next_pos, first_part, put, read_bytes}

pub next_pos-slot : (size pos n : ℕ) → next_pos size pos n ≡ slot size pos n
unfolding next_pos slot
next_pos-slot size pos n = ground arith

pub read_bytes-window :
    (size k pos : ℕ) (buf : List ℕ) → read_bytes size k pos buf ≡ window size 0 buf pos k
unfolding read_bytes window
read_bytes-window size zero pos buf = refl
read_bytes-window size (suc k) pos buf =
    cc (next_pos-slot size pos 1, read_bytes-window size k (slot size pos 1) buf)

-- A copy up to the end of the buffer.
copy_at-fill :
    (size at : ℕ) (bytes buf : List ℕ)
    → at + length bytes ≤ size
    → copy_at at bytes buf ≡ fill size 0 at bytes buf
unfolding fill slot
copy_at-fill size at [] buf h = refl
copy_at-fill size at (b ∷ []) buf h = refl
copy_at-fill size at (b ∷ c ∷ bytes) buf h =
    let next : (if ltb (at + 1) size then at + 1 else at + 1 - size) ≡ suc at = ground (arith, h) in
    rw next (copy_at-fill size (suc at) (c ∷ bytes) (set buf at b) (omega (arith, h)))

take_all : (bytes : List ℕ) (k : ℕ) → length bytes ≤ k → take k bytes ≡ bytes
take_all [] zero h = refl
take_all [] (suc k) h = refl
take_all (b ∷ bytes) zero h = absurd (omega (arith, h))
take_all (b ∷ bytes) (suc k) h = ap (λ t. b ∷ t) (take_all bytes k (omega (arith, h)))

take-drop : (k : ℕ) (bytes : List ℕ) → take k bytes ++ drop k bytes ≡ bytes
take-drop zero bytes = refl
take-drop (suc k) [] = refl
take-drop (suc k) (b ∷ bytes) = ap (λ t. b ∷ t) (take-drop k bytes)

length-take : (k : ℕ) (bytes : List ℕ) → k ≤ length bytes → length (take k bytes) ≡ k
length-take zero bytes h = refl
length-take (suc k) [] h = absurd (omega (arith, h))
length-take (suc k) (b ∷ bytes) h = ap suc (length-take k bytes (omega (arith, h)))

-- The two copies of `put` write the bytes one cell after the other, and move the head past them.
pub record Wrote (size : ℕ) (bytes : List ℕ) (l l' : Logger) : Type 0 where
  pub cells : l'.buffer ≡ fill size 0 l.head bytes l.buffer
  pub moved : l'.head ≡ slot size l.head (length bytes)
  pub same_tail : l'.tail ≡ l.tail
  pub counted : l'.entry_count ≡ u32 (l.entry_count + 1)

first_part_le : (size h n : ℕ) → h < size → first_part size h n ≤ n
unfolding first_part
first_part_le size h n low = ground (arith, low)

first_part_fits : (size h n : ℕ) → h < size → h + first_part size h n ≤ size
unfolding first_part
first_part_fits size h n low = ground (arith, low)

first_part_short :
    (size h n : ℕ) → h < size → first_part size h n < n → h + first_part size h n ≡ size
unfolding first_part
first_part_short size h n low short = ground (arith, low, short)

-- A position that is moved within the buffer or to its end.
mod-slot : (size h k : ℕ) → h < size → h + k ≤ size → (h + k) % size ≡ slot size h k
unfolding slot
mod-slot size h k low high = elim (Bool-cases (ltb (h + k) size)) [
  | inl inside ↦ rw inside (mod-eq_of_lt (ltb→lt (h + k) size inside))
  | inr at_end ↦
      let e : h + k ≡ size = ground (arith, high, at_end) in
      let z : h + k - size ≡ 0 = omega (arith, e) in
      rw (at_end, z) (ap (λ t. t % size) e ∙ mod_self size)
]

slot_end : (size h k : ℕ) → 0 < size → h + k ≡ size → slot size h k ≡ 0
unfolding slot
slot_end size h k low e = ground (arith, e)

slot_over : (size h n k : ℕ) → h < size → h + k ≡ size → k < n → n < size → slot size h n ≡ n - k
unfolding slot
slot_over size h n k low e short high = ground (arith, e, low, short, high)

pub put-Wrote :
    (size : ℕ) (bytes : List ℕ) (l : Logger)
    → l.head < size
    → length bytes < size
    → Wrote size bytes l (put size bytes l)
unfolding put
put-Wrote size bytes l h n =
    let first = first_part size l.head (length bytes) in
    let fits = first_part_fits size l.head (length bytes) h in
    let le = first_part_le size l.head (length bytes) h in
    elim (Bool-cases (ltb first (length bytes))) [
      | inr whole ↦
          let all : first ≡ length bytes = ground (arith, whole, le) in
          rw whole (record {
            cells =
                ap (λ t. copy_at l.head t l.buffer) (take_all bytes first (omega (arith, all)))
                ∙ copy_at-fill size l.head bytes l.buffer (omega (arith, fits, all));
            moved = mod-slot size l.head first h fits ∙ ap (slot size l.head) all;
            same_tail = refl;
            counted = refl;
          })
      | inl parts ↦
          let short = ltb→lt first (length bytes) parts in
          let e = first_part_short size l.head (length bytes) h short in
          let at_zero = slot_end size l.head first (omega (arith, h)) e in
          let wrapped = mod-slot size l.head first h fits ∙ at_zero in
          let taken = length-take first bytes le in
          let lengths =
            sym (length-append (take first bytes) (drop first bytes))
            ∙ ap length (take-drop first bytes) in
          let one =
            copy_at-fill size l.head (take first bytes) l.buffer (omega (arith, fits, taken)) in
          let two =
            copy_at-fill size 0 (drop first bytes) (fill size 0 l.head (take first bytes) l.buffer)
              (omega (arith, lengths, n)) in
          let joined =
            fill-append size 0 l.head (take first bytes) (drop first bytes) l.buffer h
              (omega (arith, taken, fits)) in
          let start = ap (slot size l.head) taken ∙ at_zero in
          let over = slot_over size l.head (length bytes) first h e short n in
          let low : 0 + length bytes - first < size = omega (arith, n) in
          let same : 0 + length bytes - first ≡ length bytes - first = omega arith in
          rw parts (record {
            cells = cc (wrapped, one, two, joined, start, take-drop first bytes);
            moved =
                ap (λ t. (t + length bytes - first) % size) wrapped
                ∙ mod-eq_of_lt low
                ∙ same
                ∙ sym over;
            same_tail = refl;
            counted = refl;
          })
    ]
