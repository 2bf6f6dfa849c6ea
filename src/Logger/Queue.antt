-- ===== src/Logger/Queue.antt =====
-- The byte ring holds a queue of whole entries.
use power_monitoring.Base.{
  ℕ, ◌+◌, ◌-◌, ◌≤◌, ◌<◌, ◌≡◌, refl, sym, ap, ◌∙◌, inl, inr, Bool, true, false, List, [], ◌∷◌, ◌++◌,
  arith, ltb, if◌then◌else◌, ltb→lt, Bool-cases, length, length-append, All, slot, slot_lt,
  slot_zero, window, append_nil, append_assoc, length-fill, window-fill,
}
use power_monitoring.Logger.{
  Entry, base, delta, base_size, delta_size, Logger, encode, free_space, can_fit, used, put,
  read_bytes, make_room, store,
}
use power_monitoring.Logger.Bytes.{put-Wrote}

abbrev pub encode_all : List Entry → List ℕ
encode_all [] = []
encode_all (e ∷ es) = encode e ++ encode_all es

abbrev pub size_of : Entry → ℕ
size_of (base ts v i p) = base_size
size_of (delta dt dv di dp) = delta_size

-- An entry of four channels.
abbrev pub IsSized : Entry → Type 0
IsSized e = length (encode e) ≡ size_of e

pub record Holds (size : ℕ) (es : List Entry) (l : Logger) : Type 0 where
  pub full_length : length l.buffer ≡ size
  pub tail_lt : l.tail < size
  pub fits : length (encode_all es) < size
  pub head_follows : l.head ≡ slot size l.tail (length (encode_all es))
  pub content : window size 0 l.buffer l.tail (length (encode_all es)) ≡ encode_all es
  pub counted : l.entry_count ≡ length es
  pub sized : All IsSized es

pub encode_all-append :
    (es : List Entry) (e : Entry) → encode_all (es ++ e ∷ []) ≡ encode_all es ++ encode e
unfolding encode
encode_all-append [] e = append_nil (encode e)
encode_all-append (x ∷ es) e =
    ap (λ t. encode x ++ t) (encode_all-append es e)
    ∙ append_assoc (encode x) (encode_all es) (encode e)

pub IsSized-append :
    (es : List Entry) (e : Entry) → All IsSized es → IsSized e → All IsSized (es ++ e ∷ [])
IsSized-append [] e a s = (s, tt)
IsSized-append (x ∷ es) e a s = (a.0, IsSized-append es e a.1 s)

pub size_of_pos : (e : Entry) → 27 ≤ size_of e
size_of_pos (base ts v i p) = omega arith
size_of_pos (delta dt dv di dp) = omega arith

pub count-le : (es : List Entry) → All IsSized es → length es ≤ length (encode_all es)
count-le [] a = omega arith
count-le (e ∷ es) a =
    omega (arith, a.0, size_of_pos e, count-le es a.1, length-append (encode e) (encode_all es))

-- The free space, when the ring holds `k` bytes.
free_space_lem :
    (size tail k : ℕ)
    → tail < size
    → k < size
    → free_space size (slot size tail k) tail ≡ size - k - 1
unfolding free_space slot
free_space_lem size tail k h n = ground (arith, h, n)

-- What the queue is after an entry comes: a full ring starts anew.
abbrev pub admit : ℕ → Entry → List Entry → List Entry
admit size e es = if ltb (length (encode_all es) + size_of e + 1) size then es ++ e ∷ [] else e ∷ []

can_fit_lem :
    (size : ℕ) (es : List Entry) (l : Logger) (e : Entry)
    → Holds size es l
    → can_fit size (size_of e) l ≡ ltb (length (encode_all es) + size_of e + 1) size
unfolding can_fit
can_fit_lem size es l e h =
    let free = free_space_lem size l.tail (length (encode_all es)) h.tail_lt h.fits in
    let same : free_space size l.head l.tail ≡ size - length (encode_all es) - 1 =
      ap (λ t. free_space size t l.tail) h.head_follows ∙ free in
    ground (arith, same, h.fits)

pub slot_add : (n pos a b : ℕ) → pos < n → a + b < n → slot n (slot n pos a) b ≡ slot n pos (a + b)
unfolding slot
slot_add n pos a b h k = ground (arith, h, k)

put-Holds :
    (size : ℕ) (es : List Entry) (l : Logger) (e : Entry)
    → size < 4294967296
    → Holds size es l
    → IsSized e
    → length (encode_all es) + size_of e < size
    → Holds size (es ++ e ∷ []) (put size (encode e) l)
put-Holds size es l e small h s room =
    let k = length (encode_all es) in
    let wrote =
      put-Wrote size (encode e) l
        (rw h.head_follows (slot_lt size l.tail k h.tail_lt (omega (arith, h.fits))))
        (omega (arith, s, room)) in
    let filled =
      window-fill size 0 l.buffer (encode e) k l.tail l.head h.full_length h.tail_lt h.head_follows
        (omega (arith, s, room)) in
    let joined = encode_all-append es e in
    let long : length (encode_all (es ++ e ∷ [])) ≡ k + length (encode e) =
      ap length joined ∙ length-append (encode_all es) (encode e) in
    record {
      full_length =
          ap length wrote.cells ∙ length-fill size 0 l.head (encode e) l.buffer ∙ h.full_length;
      tail_lt = rw wrote.same_tail h.tail_lt;
      fits = omega (arith, long, s, room);
      head_follows = cc (
        wrote.moved,
        h.head_follows,
        wrote.same_tail,
        long,
        slot_add size l.tail k (length (encode e)) h.tail_lt (omega (arith, s, room)),
      );
      content = cc (filled, h.content, long, joined, wrote.cells, wrote.same_tail);
      counted = omega (
        arith,
        wrote.counted,
        h.counted,
        length-append es (e ∷ []),
        count-le es h.sized,
        h.fits,
        small,
      );
      sized = IsSized-append es e h.sized s;
    }

-- Emptying keeps the place of the head.
emptied-Holds :
    (size : ℕ) (es : List Entry) (l : Logger) (blocks : List (List ℕ))
    → Holds size es l
    → Holds size [] (record l { tail = l.head; entry_count = 0; flushed = blocks })
unfolding window
emptied-Holds size es l blocks h =
    let low : l.head < size =
      rw h.head_follows
        (slot_lt size l.tail (length (encode_all es)) h.tail_lt (omega (arith, h.fits))) in
    record {
      full_length = h.full_length;
      tail_lt = low;
      fits = omega (arith, h.fits);
      head_follows = sym (slot_zero size l.head low);
      content = refl;
      counted = refl;
      sized = tt;
    }

make_room-Holds :
    (size : ℕ) (to_card : Bool) (es : List Entry) (l : Logger)
    → Holds size es l
    → Holds size [] (make_room size to_card l)
unfolding make_room
make_room-Holds size true es l h =
    emptied-Holds size es l (read_bytes size (used size l) l.tail l.buffer ∷ l.flushed) h
make_room-Holds size false es l h = emptied-Holds size es l l.flushed h

pub size_of_le : (e : Entry) → size_of e ≤ 29
size_of_le (base ts v i p) = omega arith
size_of_le (delta dt dv di dp) = omega arith

pub store-Holds :
    (size : ℕ) (to_card : Bool) (es : List Entry) (l : Logger) (e : Entry)
    → 30 < size
    → size < 4294967296
    → Holds size es l
    → IsSized e
    → Holds size (admit size e es) (store size to_card (encode e) l)
unfolding store
store-Holds size to_card es l e big small h s =
    let emptied = make_room-Holds size to_card es l h in
    elim (Bool-cases (ltb (length (encode_all es) + size_of e + 1) size)) [
      | inl room ↦
          let fit : can_fit size (length (encode e)) l ≡ true =
            ap (λ n. can_fit size n l) s ∙ can_fit_lem size es l e h ∙ room in
          rw (fit, room)
            (put-Holds size es l e small h s
              (omega (arith, ltb→lt (length (encode_all es) + size_of e + 1) size room)))
      | inr full ↦
          let no_fit : can_fit size (length (encode e)) l ≡ false =
            ap (λ n. can_fit size n l) s ∙ can_fit_lem size es l e h ∙ full in
          let enough : ltb (length (encode_all []) + size_of e + 1) size ≡ true =
            ground (arith, big, size_of_le e) in
          let fit : can_fit size (length (encode e)) (make_room size to_card l) ≡ true =
            ap (λ n. can_fit size n (make_room size to_card l)) s
            ∙ can_fit_lem size [] (make_room size to_card l) e emptied
            ∙ enough in
          rw (no_fit, full, fit)
            (put-Holds size [] (make_room size to_card l) e small emptied s
              (omega (arith, big, size_of_le e)))
    ]
