-- ===== src/Base/Fills.antt =====
-- Parts of a ring, and several writes to it.
use Prim.Native.Nat.{ℕ, zero, suc, ◌+◌, ◌≤◌, ◌<◌}
use mathlib.Core.Path.{◌≡◌, refl, sym, ap, ◌∙◌}
use mathlib.Core.List.{List, [], ◌∷◌, ◌++◌}
use native.Mathlib.Omega.{arith}
use power_monitoring.Base.Lists.{length, set, length-set, append_nil, append_assoc}
use power_monitoring.Base.Rings.{
  slot_step, slot, slot_lt, slot-slot, slot_zero, window, window-push,
}

module _ {ℓ} {A : Type ℓ} (n : ℕ) (d : A) where
  -- A window in two parts.
  pub window_split :
      (buf : List A) (pos a b : ℕ)
      → pos < n
      → a ≤ n
      → window n d buf pos (a + b) ≡ window n d buf pos a ++ window n d buf (slot n pos a) b
  unfolding window
  window_split buf pos zero b h k = let e : 0 + b ≡ b = omega arith in rw e (cc (slot_zero n pos h))
  window_split buf pos (suc a) b h k =
      let e : suc a + b ≡ suc (a + b) = omega arith in
      let next = slot n pos 1 in
      let rest = window_split buf next a b (slot_lt n pos 1 h (omega arith)) (omega arith) in
      rw e (cc (rest, slot-slot n pos a h k))

  -- Several writes, one cell after the other.
  unfoldable pub fill : ℕ → List A → List A → List A
  unfolding slot
  fill pos [] buf = buf
  fill pos (x ∷ xs) buf = fill (slot n pos 1) xs (set buf pos x)

  pub length-fill : (pos : ℕ) (xs buf : List A) → length (fill pos xs buf) ≡ length buf
  unfolding fill
  length-fill pos [] buf = refl
  length-fill pos (x ∷ xs) buf =
      length-fill (slot n pos 1) xs (set buf pos x) ∙ length-set buf pos x

  pub fill-append :
      (pos : ℕ) (xs ys buf : List A)
      → pos < n
      → length xs ≤ n
      → fill pos (xs ++ ys) buf ≡ fill (slot n pos (length xs)) ys (fill pos xs buf)
  unfolding fill
  fill-append pos [] ys buf h k = cc (slot_zero n pos h)
  fill-append pos (x ∷ xs) ys buf h k =
      let rest =
        fill-append (slot n pos 1) xs ys (set buf pos x) (slot_lt n pos 1 h (omega (arith, k)))
          (omega (arith, k)) in
      cc (rest, slot-slot n pos (length xs) h k)

  -- What is written after a window n d extends it.
  pub window-fill :
      (buf xs : List A) (k pos p : ℕ)
      → length buf ≡ n
      → pos < n
      → p ≡ slot n pos k
      → k + length xs < n
      → window n d (fill p xs buf) pos (k + length xs) ≡ window n d buf pos k ++ xs
  unfolding fill
  window-fill buf [] k pos p e h q room =
      let z : k + 0 ≡ k = omega arith in rw z (sym (append_nil (window n d buf pos k)))
  window-fill buf (x ∷ xs) k pos p e h q room =
      let z : k + suc (length xs) ≡ suc k + length xs = omega arith in
      let one = window-push n d buf x k pos e (omega (arith, room)) h in
      let rest =
        window-fill (set buf p x) xs (suc k) pos (slot n p 1) (length-set buf p x ∙ e) h
          (ap (λ t. slot n t 1) q ∙ slot_step n pos k h (omega (arith, room)))
          (omega (arith, room)) in
      rw z (cc (rest, one, q, append_assoc (window n d buf pos k) (x ∷ []) xs))
