-- ===== src/Floats/Laws.antt =====
-- The operations on `float` that the program uses, and the laws of IEEE 754 that proofs rely on.
use power_monitoring.Base.{ℕ, ◌≡◌, Bool, true, false, if◌then◌else◌}

pub record Float (F : Type 0) : Type 0 where
  -- The number nearest to the quotient of the two, as a literal in the source.
  pub lit : ℕ → ℕ → F
  pub neg : F → F
  -- `fabsf` of the C library.
  pub abs : F → F
  pub add : F → F → F
  pub sub : F → F → F
  pub mul : F → F → F
  pub div : F → F → F
  -- Every comparison with a NaN is false, so `le` is not the negation of `lt`.
  pub lt : F → F → Bool
  pub le : F → F → Bool

module _ {F : Type 0} ⦃m : Float F⦄ where
  abbrev pub lit : ℕ → ℕ → F
  lit = m.lit

  abbrev pub neg : F → F
  neg = m.neg

  abbrev pub fabs : F → F
  fabs = m.abs

  abbrev pub fadd : F → F → F
  fadd = m.add

  abbrev pub fsub : F → F → F
  fsub = m.sub

  abbrev pub fmul : F → F → F
  fmul = m.mul

  abbrev pub fdiv : F → F → F
  fdiv = m.div

  abbrev pub flt : F → F → Bool
  flt = m.lt

  abbrev pub fle : F → F → Bool
  fle = m.le

  -- `if (x < lo) x = lo; if (x > hi) x = hi;`
  unfoldable pub clamp : F → F → F → F
  clamp lo hi x = let y = if flt x lo then lo else x in if flt hi y then hi else y

-- Laws that hold of every value, NaN and the infinities included.
pub record IsOrdered (F : Type 0) ⦃m : Float F⦄ : Type 0 where
  pub lt_asym : (x y : F) → flt x y ≡ true → flt y x ≡ false
  -- Rounding is monotone, so a positive term does not lower a sum or raise a difference.
  pub lt_add : (x y h : F) → flt (lit 0 1) h ≡ true → flt x y ≡ true → flt x (fadd y h) ≡ true
  pub lt_sub : (x y h : F) → flt (lit 0 1) h ≡ true → flt x (fsub y h) ≡ true → flt x y ≡ true
