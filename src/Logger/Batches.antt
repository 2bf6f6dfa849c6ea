-- ===== src/Logger/Batches.antt =====
-- The batches that are taken from the ring are whole entries, in the order in which they came.
use mathlib.Core.Path.{subst}
use power_monitoring.Base.{
  ℕ, zero, suc, ◌+◌, ◌-◌, ◌≤◌, ◌<◌, ◌≡◌, refl, sym, ap, ◌∙◌, inl, inr, true, false, ◌||◌, List, [],
  ◌∷◌, ◌++◌, arith, ltb, leb, ◌==◌, if◌then◌else◌, Bool-cases, length, get_or, drop, length-append,
  slot, slot_lt, slot_zero, window, length-window, window_split,
}
use power_monitoring.Logger.{
  Entry, base, delta, entry_base, base_size, delta_size, Logger, encode, read_bytes, size_at_tail,
  drop_entry, pop_ring,
}
use power_monitoring.Logger.Bytes.{next_pos-slot, read_bytes-window}
use power_monitoring.Logger.Queue.{encode_all, size_of, Holds, size_of_pos, slot_add}

-- The whole entries that fit into `room` bytes, and the rest.
abbrev pub pop_queue : ℕ → List Entry → List ℕ × List Entry
pop_queue room [] = ([], [])
pop_queue room (e ∷ es) =
    let rest = pop_queue (room - size_of e) es in
    if leb (size_of e) room then (encode e ++ rest.0, rest.1) else ([], e ∷ es)

-- The first byte tells the kind.
type_byte :
    (e : Entry) (rest : List ℕ)
    → (if get_or (encode e ++ rest) 0 0 == entry_base then base_size else delta_size) ≡ size_of e
unfolding encode
type_byte (base ts v i p) rest = refl
type_byte (delta dt dv di dp) rest = refl

-- The front byte of a window.
front :
    (size : ℕ) (buf : List ℕ) (pos k : ℕ)
    → 0 < k
    → get_or buf pos 0 ≡ get_or (window size 0 buf pos k) 0 0
unfolding window
front size buf pos zero h = absurd (omega (arith, h))
front size buf pos (suc k) h = refl

append_cancel :
    (xs ys us vs : List ℕ) → length xs ≡ length us → xs ++ ys ≡ us ++ vs → (xs ≡ us) × (ys ≡ vs)
append_cancel [] ys [] vs n e = (refl, e)
append_cancel [] ys (u ∷ us) vs n e = absurd (omega (arith, n))
append_cancel (x ∷ xs) ys [] vs n e = absurd (omega (arith, n))
append_cancel (x ∷ xs) ys (u ∷ us) vs n e =
    let rest = append_cancel xs ys us vs (omega (arith, n)) (ap (drop 1) e) in
    let first = ap (λ t. get_or t 0 0) e in (cc (first, rest.0), rest.1)

-- The ring after its first entry is taken.
popped-Holds :
    (size : ℕ) (e : Entry) (es : List Entry) (l : Logger)
    → Holds size (e ∷ es) l
    → (read_bytes size (size_of e) l.tail l.buffer ≡ encode e)
      × Holds size es (drop_entry size (size_of e) l)
unfolding drop_entry
popped-Holds size e es l h =
    let k = length (encode_all es) in
    let long : length (encode e ++ encode_all es) ≡ size_of e + k =
      length-append (encode e) (encode_all es) ∙ ap (λ n. n + k) h.sized.0 in
    let split =
      window_split size 0 l.buffer l.tail (size_of e) k h.tail_lt (omega (arith, long, h.fits)) in
    let whole = sym split ∙ ap (window size 0 l.buffer l.tail) (sym long) ∙ h.content in
    let parts =
      append_cancel (window size 0 l.buffer l.tail (size_of e))
        (window size 0 l.buffer (slot size l.tail (size_of e)) k) (encode e) (encode_all es)
        (length-window size 0 l.buffer l.tail (size_of e) ∙ sym h.sized.0) whole in
    let moved = next_pos-slot size l.tail (size_of e) in
    (
      read_bytes-window size (size_of e) l.tail l.buffer ∙ parts.0,
      record {
        full_length = h.full_length;
        tail_lt =
            rw moved (slot_lt size l.tail (size_of e) h.tail_lt (omega (arith, long, h.fits)));
        fits = omega (arith, long, h.fits);
        head_follows = cc (
          moved,
          h.head_follows,
          long,
          slot_add size l.tail (size_of e) k h.tail_lt (omega (arith, long, h.fits)),
        );
        content = cc (moved, parts.1);
        counted = ground (arith, h.counted);
        sized = h.sized.1;
      },
    )

pop_ring_stop :
    (size fuel room : ℕ) (l : Logger)
    → (ltb room delta_size || l.tail == l.head) ≡ true
    → pop_ring size (suc fuel) room l ≡ ([], l)
unfolding pop_ring
pop_ring_stop size fuel room l e = rw e refl

pop_ring_short :
    (size fuel room : ℕ) (l : Logger)
    → ltb room (size_at_tail size l) ≡ true
    → pop_ring size (suc fuel) room l ≡ ([], l)
unfolding pop_ring
pop_ring_short size fuel room l e = rw e (ground arith)

pop_ring_take :
    (size fuel room : ℕ) (l : Logger)
    → (ltb room delta_size || l.tail == l.head) ≡ false
    → ltb room (size_at_tail size l) ≡ false
    → let rest =
        pop_ring size fuel (room - size_at_tail size l) (drop_entry size (size_at_tail size l) l) in
      pop_ring size (suc fuel) room l
      ≡ (read_bytes size (size_at_tail size l) l.tail l.buffer ++ rest.0, rest.1)
unfolding pop_ring
pop_ring_take size fuel room l e f = rw (e, f) refl

size_at_tail-Holds :
    (size : ℕ) (e : Entry) (es : List Entry) (l : Logger)
    → Holds size (e ∷ es) l
    → size_at_tail size l ≡ size_of e
unfolding size_at_tail
size_at_tail-Holds size e es l h =
    let long : 0 < length (encode_all (e ∷ es)) =
      omega (arith, length-append (encode e) (encode_all es), h.sized.0, size_of_pos e) in
    let byte =
      front size l.buffer l.tail (length (encode_all (e ∷ es))) long
      ∙ ap (λ t. get_or t 0 0) h.content in
    ap (λ b. if b == entry_base then base_size else delta_size) byte ∙ type_byte e (encode_all es)

not_empty :
    (size : ℕ) (e : Entry) (es : List Entry) (l : Logger)
    → Holds size (e ∷ es) l
    → (l.tail == l.head) ≡ false
unfolding slot
not_empty size e es l h = ground (
  arith,
  h.head_follows,
  h.fits,
  h.tail_lt,
  length-append (encode e) (encode_all es),
  h.sized.0,
  size_of_pos e,
)

-- The loop, with a round for each entry.
pub pop_ring-pop_queue :
    (size fuel room : ℕ) (es : List Entry) (l : Logger)
    → length es ≤ fuel
    → Holds size es l
    → ((pop_ring size fuel room l).0 ≡ (pop_queue room es).0)
      × Holds size (pop_queue room es).1 (pop_ring size fuel room l).1
pop_ring-pop_queue size zero room [] l f h = unfold pop_ring in (refl, h)
pop_ring-pop_queue size zero room (e ∷ es) l f h = absurd (omega (arith, f))
pop_ring-pop_queue size (suc fuel) room [] l f h =
    let stop =
      pop_ring_stop size fuel room l
        (ground (arith, h.head_follows, slot_zero size l.tail h.tail_lt)) in
    (ap (λ r. r.0) stop, subst (λ r. Holds size [] r.1) (sym stop) h)
pop_ring-pop_queue size (suc fuel) room (e ∷ es) l f h =
    let kind = size_at_tail-Holds size e es l h in
    let full = not_empty size e es l h in
    elim (Bool-cases (leb (size_of e) room)) [
      | inr short ↦
          let stop = pop_ring_short size fuel room l (ground (arith, kind, short)) in
          rw short (ap (λ r. r.0) stop, subst (λ r. Holds size (e ∷ es) r.1) (sym stop) h)
      | inl enough ↦
          let popped = popped-Holds size e es l h in
          let next = drop_entry size (size_of e) l in
          let rest =
            pop_ring-pop_queue size fuel (room - size_of e) es next (omega (arith, f)) popped.1 in
          let taken =
            pop_ring_take size fuel room l (ground (arith, full, enough, size_of_pos e))
              (ground (arith, kind, enough)) in
          let step : pop_ring size (suc fuel) room l ≡ (
            encode e ++ (pop_ring size fuel (room - size_of e) next).0,
            (pop_ring size fuel (room - size_of e) next).1,
          ) =
            cc (taken, kind, popped.0) in
          rw enough (
            cc (step, rest.0),
            subst (λ r. Holds size (pop_queue (room - size_of e) es).1 r.1) (sym step) rest.1,
          )
    ]
