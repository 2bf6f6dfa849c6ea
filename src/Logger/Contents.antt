-- ===== src/Logger/Contents.antt =====
-- The bytes that the ring holds, and those of a batch from it.
use power_monitoring.Base.{
  ℕ, ◌-◌, ◌≤◌, ◌<◌, ◌≡◌, refl, sym, ap, ◌∙◌, inl, inr, List, [], ◌∷◌, ◌++◌, arith, leb, Bool-cases,
  length, All, append_assoc,
}
use power_monitoring.Logger.{Entry, base, delta, Logger, halves, encode, log_pop_batch}
use power_monitoring.Logger.Queue.{encode_all, size_of, Holds, count-le}
use power_monitoring.Logger.Batches.{pop_queue, pop_ring-pop_queue}
use power_monitoring.Logger.Keeps.{warned-Holds}

abbrev pub AllByte : List ℕ → Type 0
AllByte bytes = All (λ b. b < 256) bytes

pub AllByte-append : (xs ys : List ℕ) → AllByte xs → AllByte ys → AllByte (xs ++ ys)
AllByte-append [] ys h k = k
AllByte-append (x ∷ xs) ys h k = (h.0, AllByte-append xs ys h.1 k)

pub AllByte-left : (xs ys : List ℕ) → AllByte (xs ++ ys) → AllByte xs
AllByte-left [] ys h = tt
AllByte-left (x ∷ xs) ys h = (h.0, AllByte-left xs ys h.1)

pub AllByte-right : (xs ys : List ℕ) → AllByte (xs ++ ys) → AllByte ys
AllByte-right [] ys h = h
AllByte-right (x ∷ xs) ys h = AllByte-right xs ys h.1

AllByte-halves : (xs : List ℕ) → AllByte (halves xs)
AllByte-halves [] = tt
AllByte-halves (x ∷ xs) = (omega arith, (omega arith, AllByte-halves xs))

AllByte-three : (a b c : List ℕ) → AllByte (halves a ++ (halves b ++ halves c))
AllByte-three a b c =
    AllByte-append (halves a) (halves b ++ halves c) (AllByte-halves a)
      (AllByte-append (halves b) (halves c) (AllByte-halves b) (AllByte-halves c))

AllByte-encode : (e : Entry) → AllByte (encode e)
unfolding encode
AllByte-encode (base ts v i p) =
    (omega arith, (omega arith, (omega arith, (omega arith, (omega arith, AllByte-three v i p)))))
AllByte-encode (delta dt dv di dp) =
    (omega arith, (omega arith, (omega arith, AllByte-three dv di dp)))

pub AllByte-encode_all : (es : List Entry) → AllByte (encode_all es)
AllByte-encode_all [] = tt
AllByte-encode_all (e ∷ es) =
    AllByte-append (encode e) (encode_all es) (AllByte-encode e) (AllByte-encode_all es)

-- A batch and what stays are all that there was.
pop_queue-append :
    (room : ℕ) (es : List Entry)
    → (pop_queue room es).0 ++ encode_all (pop_queue room es).1 ≡ encode_all es
pop_queue-append room [] = refl
pop_queue-append room (e ∷ es) = elim (Bool-cases (leb (size_of e) room)) [
  | inl fits ↦ rw fits (
      sym (append_assoc (encode e) _ _)
      ∙ ap (λ t. encode e ++ t) (pop_queue-append (room - size_of e) es))
  | inr full ↦ rw full refl
]

-- A batch from the ring, and what stays in it.
pub record Taken (size : ℕ) (es : List Entry) (batch : List ℕ) (l' : Logger) : Type 0 where
  pub rest : List Entry
  pub held : Holds size rest l'
  pub split : batch ++ encode_all rest ≡ encode_all es

pub log_pop_batch-Taken :
    (size room : ℕ) (es : List Entry) (l : Logger)
    → Holds size es l
    → let r = log_pop_batch size room l in Taken size es r.0 r.1
unfolding log_pop_batch
log_pop_batch-Taken size room es l h =
    let few : length es ≤ size = omega (arith, count-le es h.sized, h.fits) in
    let popped = pop_ring-pop_queue size size room es l few h in
    record {
      rest = (pop_queue room es).1;
      held = warned-Holds size _ _ _ popped.1;
      split = cc (popped.0, pop_queue-append room es);
    }
