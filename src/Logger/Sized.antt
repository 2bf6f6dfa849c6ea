-- ===== src/Logger/Sized.antt =====
-- Entries of samples of four channels have the sizes of the two structs.
-- Four channels.
use power_monitoring.Base.{
  ℕ, suc, ◌*◌, ◌≡◌, refl, ap, ◌∙◌, Bool, not, ◌||◌, List, [], ◌∷◌, ◌++◌, arith, ltb, length,
  length-append, u16, sub32, if_keeps,
}
use power_monitoring.Logger.{base, delta, Sample, halves, encode, differences, any_large, entry_of}
use power_monitoring.Logger.Queue.{IsSized}

pub record IsFour (s : Sample) : Type 0 where
  pub voltages : length s.v ≡ 4
  pub currents : length s.i ≡ 4
  pub powers : length s.p ≡ 4

length-halves : (xs : List ℕ) → length (halves xs) ≡ 2 * length xs
length-halves [] = refl
length-halves (x ∷ xs) = omega (arith, length-halves xs)

length-differences :
    (xs ys : List ℕ) → length xs ≡ length ys → length (differences xs ys) ≡ length xs
length-differences [] ys h = refl
length-differences (x ∷ xs) [] h = absurd (omega (arith, h))
length-differences (x ∷ xs) (y ∷ ys) h = ap suc (length-differences xs ys (omega (arith, h)))

length-three :
    (a b c : List ℕ)
    → length a ≡ 4
    → length b ≡ 4
    → length c ≡ 4
    → length (halves a ++ (halves b ++ halves c)) ≡ 24
length-three a b c p q r = omega (
  arith,
  p,
  q,
  r,
  length-halves a,
  length-halves b,
  length-halves c,
  length-append (halves a) (halves b ++ halves c),
  length-append (halves b) (halves c),
)

IsSized-base :
    (ts : ℕ) (a b c : List ℕ) → length a ≡ 4 → length b ≡ 4 → length c ≡ 4 → IsSized (base ts a b c)
unfolding encode
IsSized-base ts a b c p q r = omega (arith, length-three a b c p q r)

IsSized-delta :
    (dt : ℕ) (a b c : List ℕ)
    → length a ≡ 4
    → length b ≡ 4
    → length c ≡ 4
    → IsSized (delta dt a b c)
unfolding encode
IsSized-delta dt a b c p q r = omega (arith, length-three a b c p q r)

pub IsSized-entry_of :
    (have_base : Bool) (last s : Sample)
    → IsFour last
    → IsFour s
    → IsSized (entry_of have_base last s)
unfolding entry_of
IsSized-entry_of have_base last s l f =
    let one = IsSized-base s.timestamp_ms s.v s.i s.p f.voltages f.currents f.powers in
    let two =
      IsSized-delta (u16 (sub32 s.timestamp_ms last.timestamp_ms)) (differences s.v last.v)
        (differences s.i last.i) (differences s.p last.p)
        (length-differences s.v last.v (omega (arith, l.voltages, f.voltages)) ∙ f.voltages)
        (length-differences s.i last.i (omega (arith, l.currents, f.currents)) ∙ f.currents)
        (length-differences s.p last.p (omega (arith, l.powers, f.powers)) ∙ f.powers) in
    if_keeps IsSized (not have_base) _ _ one (
      if_keeps IsSized
        (any_large (differences s.v last.v)
          || (any_large (differences s.i last.i) || any_large (differences s.p last.p))
          || ltb 60000 (sub32 s.timestamp_ms last.timestamp_ms))
        _ _ one two)
