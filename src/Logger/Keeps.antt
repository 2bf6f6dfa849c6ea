-- ===== src/Logger/Keeps.antt =====
-- What storing and taking entries leaves alone.
-- Storing leaves the previous sample alone.
use power_monitoring.Base.{
  ℕ, zero, suc, ◌-◌, ◌≡◌, refl, ◌∙◌, Bool, true, false, ◌||◌, List, [], ◌++◌, ltb, ◌==◌,
  if◌then◌else◌, length, if_keeps,
}
use power_monitoring.Logger.{
  Entry, delta_size, Sample, Logger, can_fit, put, read_bytes, make_room, store, size_at_tail,
  drop_entry, pop_ring,
}
use power_monitoring.Logger.Queue.{Holds}

abbrev pub Keeps : Logger → Logger → Type 0
Keeps l l' = (l'.last ≡ l.last) × (l'.have_base ≡ l.have_base)

put-Keeps : (size : ℕ) (bytes : List ℕ) (l : Logger) → Keeps l (put size bytes l)
unfolding put
put-Keeps size bytes l = if_keeps (Keeps l) _ _ _ (refl, refl) (refl, refl)

make_room-Keeps : (size : ℕ) (to_card : Bool) (l : Logger) → Keeps l (make_room size to_card l)
unfolding make_room
make_room-Keeps size true l = (refl, refl)
make_room-Keeps size false l = (refl, refl)

pub store-Keeps :
    (size : ℕ) (to_card : Bool) (bytes : List ℕ) (l : Logger) → Keeps l (store size to_card bytes l)
unfolding store
store-Keeps size to_card bytes l =
    let room = make_room size to_card l in
    let emptied = make_room-Keeps size to_card l in
    let late = put-Keeps size bytes room in
    let n = length bytes in
    if_keeps (Keeps l) (can_fit size n l) (put size bytes l)
      (if can_fit size n room then put size bytes room else room) (put-Keeps size bytes l)
      (if_keeps (Keeps l) (can_fit size n room) (put size bytes room) room
        (late.0 ∙ emptied.0, late.1 ∙ emptied.1) emptied)

pub pop_ring-Keeps : (size fuel room : ℕ) (l : Logger) → Keeps l (pop_ring size fuel room l).1
unfolding pop_ring drop_entry
pop_ring-Keeps size zero room l = (refl, refl)
pop_ring-Keeps size (suc fuel) room l =
    let es = size_at_tail size l in
    let rest = pop_ring size fuel (room - es) (drop_entry size es l) in
    let taken : List ℕ × Logger = (read_bytes size es l.tail l.buffer ++ rest.0, rest.1) in
    let none_taken : List ℕ × Logger = ([], l) in
    let P : List ℕ × Logger → Type 0 = λ r. Keeps l r.1 in
    if_keeps P (ltb room delta_size || l.tail == l.head) none_taken
      (if ltb room es then none_taken else taken) (refl, refl)
      (if_keeps P (ltb room es) none_taken taken (refl, refl)
        (pop_ring-Keeps size fuel (room - es) (drop_entry size es l)))

-- The warning is no part of what is held.
pub warned-Holds :
    (size : ℕ) (es : List Entry) (l : Logger) (b : Bool)
    → Holds size es l
    → Holds size es (record l { warned = b })
warned-Holds size es l b h = record {
  full_length = h.full_length;
  tail_lt = h.tail_lt;
  fits = h.fits;
  head_follows = h.head_follows;
  content = h.content;
  counted = h.counted;
  sized = h.sized;
}

pub noted-Holds :
    (size : ℕ) (es : List Entry) (l : Logger) (b : Bool) (s : Sample)
    → Holds size es l
    → Holds size es (record l { last = s; have_base = true; warned = b })
noted-Holds size es l b s h = record {
  full_length = h.full_length;
  tail_lt = h.tail_lt;
  fits = h.fits;
  head_follows = h.head_follows;
  content = h.content;
  counted = h.counted;
  sized = h.sized;
}
