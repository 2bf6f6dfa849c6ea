-- ===== src/Base/Loops.antt =====
-- Counted loops, and checks of a finite table.
use Prim.Native.Nat.{ℕ, zero, suc, ◌+◌, ◌<◌, ◌≤◌}
use mathlib.Core.Path.{◌≡◌, sym, subst}
use mathlib.Core.Logic.{◌≢◌}
use mathlib.Core.Bool.{Bool, true, ◌&&◌}
use native.Mathlib.Decide.{ℕ_discrete}
use native.Mathlib.Omega.{arith}

-- `for (i = from; i < from + rounds; i++) s = body(i, s);`
unfoldable pub for_range {ℓ} : {A : Type ℓ} → ℕ → ℕ → (ℕ → A → A) → A → A
for_range zero i body s = s
for_range (suc k) i body s = for_range k (suc i) body (body i s)

-- What every round keeps, the loop keeps.
pub for_range-keeps {ℓ κ} :
    {A : Type ℓ} (P : A → Type κ) (body : ℕ → A → A)
    → ((i : ℕ) (s : A) → P s → P (body i s))
    → (k i : ℕ) (s : A) → P s
    → P (for_range k i body s)
unfolding for_range
for_range-keeps P body keep zero i s h = h
for_range-keeps P body keep (suc k) i s h =
    for_range-keeps P body keep k (suc i) (body i s) (keep i s h)

-- What every round but number `j` keeps, a loop that starts past `j` keeps.
pub for_range-past {ℓ κ} :
    {A : Type ℓ} (P : A → Type κ) (body : ℕ → A → A) (j : ℕ)
    → ((i : ℕ) (s : A) → i ≢ j → P s → P (body i s))
    → (k i : ℕ) (s : A) → j < i
    → P s
    → P (for_range k i body s)
unfolding for_range
for_range-past P body j keep zero i s past h = h
for_range-past P body j keep (suc k) i s past h =
    for_range-past P body j keep k (suc i) (body i s) (omega arith) (keep i s (omega arith) h)

-- Round `j` turns `P` into `Q`, and the other rounds keep both: so does the loop.
pub for_range-once {ℓ κ λ'} :
    {A : Type ℓ} (P : A → Type κ) (Q : A → Type λ') (body : ℕ → A → A) (j : ℕ)
    → ((i : ℕ) (s : A) → i ≢ j → P s → P (body i s))
    → ((i : ℕ) (s : A) → i ≢ j → Q s → Q (body i s))
    → ((s : A) → P s → Q (body j s))
    → (k i : ℕ) (s : A) → i ≤ j
    → j < i + k
    → P s
    → Q (for_range k i body s)
unfolding for_range
for_range-once P Q body j keep keep' turn zero i s low high h = absurd (omega arith)
for_range-once P Q body j keep keep' turn (suc k) i s low high h = elim (ℕ_discrete i j) [
  | yes e ↦ for_range-past Q body j keep' k (suc i) (body i s) (omega arith) (turned e)
  | no ne ↦
      for_range-once P Q body j keep keep' turn k (suc i) (body i s) (omega arith) (omega arith)
        (keep i s ne h)
]
  where
    turned : i ≡ j → Q (body i s)
    turned e = subst (λ t. Q (body t s)) (sym e) (turn s h)

unfoldable pub all_below : ℕ → (ℕ → Bool) → Bool
all_below zero p = true
all_below (suc n) p = p n && all_below n p

pub all_below_lem : (n : ℕ) (p : ℕ → Bool) → all_below n p ≡ true → (i : ℕ) → i < n → p i ≡ true
unfolding all_below
all_below_lem zero p h i b = elim b [ ]
all_below_lem (suc n) p h i b = elim (ℕ_discrete i n) [
  | yes e ↦ rw e (ground arith)
  | no ne ↦ all_below_lem n p (ground arith) i (omega arith)
]
