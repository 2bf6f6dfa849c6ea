-- ===== src/Base/Rings.antt =====
-- A ring of `n` cells in an array: what it holds, oldest first.
use Prim.Native.Nat.{ℕ, zero, suc, ◌+◌, ◌-◌, ◌≤◌, ◌<◌}
use mathlib.Core.Path.{◌≡◌, refl, sym, ap, ◌∙◌, subst}
use mathlib.Core.Logic.{◌≢◌}
use mathlib.Core.List.{List, [], ◌∷◌, ◌++◌}
use mathlib.Core.Option.{some}
use native.Mathlib.Decide.{ℕ_discrete}
use native.Mathlib.Omega.{arith}
use power_monitoring.Base.Tests.{ltb, if◌then◌else◌}
use power_monitoring.Base.Lists.{
  length, get_elem?, get_or, set, drop, length-append, get_or-set_self, get_or-set_ne,
}

-- The cell that is `j` steps after `pos`, for `j` up to `n`.
unfoldable pub slot : ℕ → ℕ → ℕ → ℕ
slot n pos j = if ltb (pos + j) n then pos + j else pos + j - n

-- The newest `n` of a list: what a ring of `n` cells keeps.
unfoldable pub newest {ℓ} : {A : Type ℓ} → ℕ → List A → List A
newest n xs = drop (length xs - n) xs

-- A full ring forgets the oldest.
unfoldable pub remember {ℓ} : {A : Type ℓ} → ℕ → A → List A → List A
unfolding newest
remember n x xs = newest n (xs ++ x ∷ [])

module _ {ℓ} {A : Type ℓ} where
  drop-append : (k : ℕ) (xs ys : List A) → k ≤ length xs → drop k (xs ++ ys) ≡ drop k xs ++ ys
  drop-append zero xs ys h = refl
  drop-append (suc k) [] ys h = absurd (omega (arith, h))
  drop-append (suc k) (x ∷ xs) ys h = drop-append k xs ys (omega (arith, h))

  length-drop : (k : ℕ) (xs : List A) → length (drop k xs) ≡ length xs - k
  length-drop zero xs = omega arith
  length-drop (suc k) [] = omega arith
  length-drop (suc k) (x ∷ xs) = omega (arith, length-drop k xs)

  drop_one : (k : ℕ) (xs : List A) → drop 1 (drop k xs) ≡ drop (suc k) xs
  drop_one zero xs = refl
  drop_one (suc k) [] = refl
  drop_one (suc k) (x ∷ xs) = drop_one k xs

  -- A step of the ring is a step of the whole history.
  pub remember-newest :
      (n : ℕ) (x : A) (xs : List A) → remember n x (newest n xs) ≡ newest n (xs ++ x ∷ [])
  unfolding remember newest
  remember-newest n x xs = elim (ℕ_discrete (length xs - n) 0) [
    | yes e ↦ rw e refl
    | no ne ↦
        let k = length xs - n in
        let kept = length-append (drop k xs) (x ∷ []) in
        let whole = length-append xs (x ∷ []) in
        let one : length (drop k xs ++ x ∷ []) - n ≡ 1 =
          omega (arith, kept, length-drop k xs, ne) in
        let more : length (xs ++ x ∷ []) - n ≡ suc k = omega (arith, whole, ne) in
        rw (one, more)
          (ap (drop 1) (sym (drop-append k xs (x ∷ []) (omega arith))) ∙ drop_one k (xs ++ x ∷ []))
  ]

pub slot_lt : (n pos j : ℕ) → pos < n → j ≤ n → slot n pos j < n
unfolding slot
slot_lt n pos j h k = ground arith

pub slot-slot : (n pos j : ℕ) → pos < n → suc j ≤ n → slot n (slot n pos 1) j ≡ slot n pos (suc j)
unfolding slot
slot-slot n pos j h k = ground arith

pub slot_zero : (n pos : ℕ) → pos < n → slot n pos 0 ≡ pos
unfolding slot
slot_zero n pos h = ground arith

pub slot_ne : (n pos j : ℕ) → pos < n → suc j < n → slot n pos (suc j) ≢ pos
unfolding slot
slot_ne n pos j h k e = ground arith

pub slot_self : (n pos : ℕ) → pos < n → slot n pos n ≡ pos
unfolding slot
slot_self n pos h = ground arith

pub slot_step : (n pos k : ℕ) → pos < n → suc k ≤ n → slot n (slot n pos k) 1 ≡ slot n pos (suc k)
unfolding slot
slot_step n pos k h l = ground arith

module _ {ℓ} {A : Type ℓ} (n : ℕ) (d : A) where
  -- The `k` cells from `pos` on; `d` stands for a cell out of range.
  unfoldable pub window : List A → ℕ → ℕ → List A
  unfolding slot
  window buf pos zero = []
  window buf pos (suc k) = get_or buf pos d ∷ window buf (slot n pos 1) k

  pub length-window : (buf : List A) (pos k : ℕ) → length (window buf pos k) ≡ k
  unfolding window
  length-window buf pos zero = refl
  length-window buf pos (suc k) = ap suc (length-window buf (slot n pos 1) k)

  -- A write past the window leaves it.
  window-set :
      (buf : List A) (v : A) (p k m pos : ℕ)
      → p ≡ slot n pos m
      → k ≤ m
      → m < n
      → pos < n
      → window (set buf p v) pos k ≡ window buf pos k
  unfolding window
  window-set buf v p zero m pos e km mn h = refl
  window-set buf v p (suc k) zero pos e km mn h = absurd (omega (arith, km))
  window-set buf v p (suc k) (suc m) pos e km mn h =
      let here = get_or-set_ne buf p pos v d (λ q. slot_ne n pos m h mn (sym e ∙ q)) in
      let rest =
        window-set buf v p k m (slot n pos 1) (e ∙ sym (slot-slot n pos m h (omega arith)))
          (omega arith) (omega arith) (slot_lt n pos 1 h (omega arith)) in
      cc (here, rest)

  window_snoc :
      (buf : List A) (p k pos : ℕ)
      → p ≡ slot n pos k
      → k < n
      → pos < n
      → window buf pos (suc k) ≡ window buf pos k ++ get_or buf p d ∷ []
  unfolding window
  window_snoc buf p zero pos e kn h = cc (slot_zero n pos h, e)
  window_snoc buf p (suc k) pos e kn h =
      ap (λ t. get_or buf pos d ∷ t)
        (window_snoc buf p k (slot n pos 1) (e ∙ sym (slot-slot n pos k h (omega arith)))
          (omega arith) (slot_lt n pos 1 h (omega arith)))

  -- A write just past the window extends it.
  pub window-push :
      (buf : List A) (v : A) (k pos : ℕ)
      → length buf ≡ n
      → k < n
      → pos < n
      → window (set buf (slot n pos k) v) pos (suc k) ≡ window buf pos k ++ v ∷ []
  window-push buf v k pos e kn h =
      let p = slot n pos k in
      let more = window_snoc (set buf p v) p k pos refl kn h in
      let kept = window-set buf v p k k pos refl (omega arith) kn h in
      let new = get_or-set_self buf p v d (omega (arith, e, slot_lt n pos k h (omega arith))) in
      cc (more, kept, new)

  -- What a write at the next cell makes of the window, full or not.
  pub window-remember :
      (buf : List A) (v : A) (k pos : ℕ)
      → length buf ≡ n
      → k < n
      → pos < n
      → window (set buf (slot n pos k) v) pos (suc k) ≡ remember n v (window buf pos k)
  unfolding remember newest
  window-remember buf v k pos e kn h =
      let grown = length-append (window buf pos k) (v ∷ []) in
      let few : length (window buf pos k ++ v ∷ []) - n ≡ 0 =
        omega (arith, grown, length-window buf pos k) in
      rw few (window-push buf v k pos e kn h)

  window_turn :
      (buf : List A) (v : A) (pos m : ℕ)
      → length buf ≡ n
      → pos < n
      → n ≡ suc m
      → window (set buf pos v) (slot n pos 1) (suc m) ≡ remember n v (window buf pos (suc m))
  unfolding remember newest window
  window_turn buf v pos m e h nm =
      let next = slot n pos 1 in
      let back : slot n next m ≡ pos =
        slot-slot n pos m h (omega arith) ∙ ap (slot n pos) (sym nm) ∙ slot_self n pos h in
      let grown = length-append (window buf next m) (v ∷ []) in
      let one : suc (length (window buf next m ++ v ∷ [])) - n ≡ 1 =
        omega (arith, grown, length-window buf next m, nm) in
      rw one (
        subst (λ p. window (set buf p v) next (suc m) ≡ window buf next m ++ v ∷ []) back
          (window-push buf v m next e (omega (arith, nm)) (slot_lt n pos 1 h (omega arith))))

  -- A write at the oldest cell of a full ring, which then begins at the next.
  pub window_full-remember :
      (buf : List A) (v : A) (pos k : ℕ)
      → length buf ≡ n
      → pos < n
      → n ≡ k
      → window (set buf pos v) (slot n pos 1) k ≡ remember n v (window buf pos k)
  window_full-remember buf v pos zero e h nk = absurd (omega (arith, h, nk))
  window_full-remember buf v pos (suc m) e h nk = window_turn buf v pos m e h nk

  pub get_elem?-window :
      (buf : List A) (k pos i : ℕ)
      → length buf ≡ n
      → k ≤ n
      → pos < n
      → i < k
      → get_elem? (window buf pos k) i ≡ some (get_or buf (slot n pos i) d)
  unfolding window
  get_elem?-window buf zero pos i e kn h ik = absurd (omega (arith, ik))
  get_elem?-window buf (suc k) pos zero e kn h ik = cc (slot_zero n pos h)
  get_elem?-window buf (suc k) pos (suc i) e kn h ik =
      let there =
        get_elem?-window buf k (slot n pos 1) i e (omega arith) (slot_lt n pos 1 h (omega arith))
          (omega arith) in
      cc (there, slot-slot n pos i h (omega arith))
