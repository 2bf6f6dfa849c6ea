-- ===== src/Provisioning/Lockout.antt =====
-- How long it takes to try PINs with `check_pin`.
use mathlib.Core.Path.{subst}
use native.Mathlib.Decide.{ℕ_discrete}
use power_monitoring.Base.{
  ℕ, zero, suc, ◌+◌, ◌-◌, ◌*◌, ◌≤◌, ◌<◌, ◌≡◌, refl, sym, ap, ◌∙◌, ◌⊎◌, inl, inr, Bool, true, false,
  ◌&&◌, List, [], ◌∷◌, arith, ltb, ◌==◌, if◌then◌else◌, ltb→lt, ==→eq, Bool-cases, All, sub32,
  if_keeps, if_cases, all_below, all_below_lem,
}
use power_monitoring.Provisioning.{
  Field, rate_limited, invalid_pin, Provisioner, send_response, cooloff_ms, provided, is_cooling,
  note_failure, check_pin,
}

-- Twice as long, but at most an hour.
abbrev pub doubled : ℕ → ℕ
doubled ms = if ltb 1800000 ms then 3600000 else 2 * ms

-- The wait after `k` failures: 2, 4, 8, ... seconds, up to an hour.
abbrev pub wait_after : ℕ → ℕ
wait_after zero = 1000
wait_after (suc k) = doubled (wait_after k)

-- The waits between `k` failures: one after each but the last.
abbrev pub total_wait : ℕ → ℕ
total_wait zero = 0
total_wait (suc zero) = 0
total_wait (suc (suc k)) = total_wait (suc k) + wait_after (suc k)

wait_table : all_below 13 (λ k. cooloff_ms (suc k) == wait_after (suc k)) ≡ true
unfolding all_below cooloff_ms
wait_table = refl

wait_hour : (k : ℕ) → wait_after (12 + k) ≡ 3600000
wait_hour zero = refl
wait_hour (suc k) =
    let e : 12 + suc k ≡ suc (12 + k) = omega arith in ap wait_after e ∙ ap doubled (wait_hour k)

cooloff_hour : (k : ℕ) → 12 < k → cooloff_ms k ≡ 3600000
unfolding cooloff_ms
cooloff_hour k h =
    let capped : ltb 12 k ≡ true = ground (arith, h) in
    let some_fails : ltb 0 k ≡ true = ground (arith, h) in rw (capped, some_fails) refl

cooloff-wait_after : (k : ℕ) → 0 < k → cooloff_ms k ≡ wait_after k
cooloff-wait_after zero h = absurd (omega (arith, h))
cooloff-wait_after (suc k) h = elim (Bool-cases (ltb k 13)) [
  | inl low ↦ ==→eq _ _ (
      all_below_lem 13 (λ j. cooloff_ms (suc j) == wait_after (suc j)) wait_table k
        (ltb→lt _ _ low))
  | inr high ↦
      let far : 12 < suc k = ground (arith, high) in
      let past : 12 + (k - 11) ≡ suc k = omega (arith, far) in
      cooloff_hour (suc k) far ∙ sym (subst (λ j. wait_after j ≡ 3600000) past (wait_hour (k - 11)))
]

abbrev pub attempt_all : (List ℕ → ℕ) → List (ℕ × Field) → Provisioner → Provisioner
attempt_all atoi [] s = s
attempt_all atoi ((now, pin) ∷ more) s = attempt_all atoi more (check_pin atoi now pin s).1

-- Attempts at clock readings that do not go back and do not wrap.
abbrev pub IsLater : ℕ → List (ℕ × Field) → Type 0
IsLater start [] = Unit
IsLater start ((now, pin) ∷ more) = (start ≤ now) × ((now < 4294967296) × IsLater now more)

abbrev pub end_of : ℕ → List (ℕ × Field) → ℕ
end_of start [] = start
end_of start ((now, pin) ∷ more) = end_of now more

abbrev pub IsWrong : (List ℕ → ℕ) → ℕ → ℕ × Field → Type 0
IsWrong atoi ble_pin attempt = (provided atoi attempt.1 == ble_pin) ≡ false

-- The failures so far were paced, from `start` to `now`.
record IsPaced (start now : ℕ) (s : Provisioner) : Type 0 where
  from_start : start ≤ now
  in_range : now < 4294967296
  paced :
      (s.fail_count ≡ 0)
      ⊎ ((total_wait s.fail_count + start ≤ s.last_fail_ms) × (s.last_fail_ms ≤ now))

cooloff_over :
    (now last fails : ℕ)
    → (ltb 0 fails && ltb (sub32 now last) (cooloff_ms fails)) ≡ false
    → 0 < fails
    → last ≤ now
    → now < 4294967296
    → cooloff_ms fails + last ≤ now
cooloff_over now last fails h f le lt =
    let elapsed : sub32 now last ≡ now - last = omega (arith, le, lt) in
    ground (arith, h, f, elapsed, le)

total_wait_suc : (k : ℕ) → 0 < k → total_wait (k + 1) ≡ total_wait k + cooloff_ms k
total_wait_suc zero h = absurd (omega (arith, h))
total_wait_suc (suc k) h =
    let e : suc k + 1 ≡ suc (suc k) = omega arith in
    ap total_wait e ∙ ap (λ w. total_wait (suc k) + w) (sym (cooloff-wait_after (suc k) h))

-- The pace that a further failure keeps.
next_wait :
    (start now : ℕ) (s : Provisioner)
    → IsPaced start now s
    → is_cooling now s ≡ false
    → total_wait (s.fail_count + 1) + start ≤ now
unfolding is_cooling
next_wait start now s h c = elim h.paced [
  | inl e ↦ rw e (omega (arith, h.from_start))
  | inr (p, q) ↦ elim (ℕ_discrete s.fail_count 0) [
    | yes e ↦ rw e (omega (arith, h.from_start))
    | no ne ↦
        let over =
          cooloff_over now s.last_fail_ms s.fail_count c (omega (arith, ne)) q h.in_range in
        omega (arith, over, p, total_wait_suc s.fail_count (omega (arith, ne)))
  ]
]

same_wait :
    (start now : ℕ) (s : Provisioner) → IsPaced start now s → total_wait s.fail_count + start ≤ now
same_wait start now s h = elim h.paced [
  | inl e ↦ rw e (omega (arith, h.from_start))
  | inr (p, q) ↦ omega (arith, p, q)
]

failure-IsPaced :
    (start now : ℕ) (s : Provisioner)
    → IsPaced start now s
    → is_cooling now s ≡ false
    → IsPaced start now (send_response invalid_pin (note_failure now s))
failure-IsPaced start now s h c =
    let P : ℕ → Type 0 = λ k. total_wait k + start ≤ now in
    let keep =
      if_keeps P (ltb s.fail_count 65535) (s.fail_count + 1) s.fail_count
        (next_wait start now s h c) (same_wait start now s h) in
    record { from_start = h.from_start; in_range = h.in_range; paced = inr (keep, omega arith) }

later-IsPaced :
    (start before now : ℕ) (s : Provisioner)
    → before ≤ now
    → now < 4294967296
    → IsPaced start before s
    → IsPaced start now s
later-IsPaced start before now s le lt h = record {
  from_start = omega (arith, le, h.from_start);
  in_range = lt;
  paced = elim h.paced [ inl e ↦ inl e | inr (p, q) ↦ inr (p, omega (arith, q, le)) ];
}

check_pin-IsPaced :
    (atoi : List ℕ → ℕ) (start now : ℕ) (pin : Field) (s : Provisioner)
    → IsWrong atoi s.ble_pin (now, pin)
    → IsPaced start now s
    → IsPaced start now (check_pin atoi now pin s).1
      × ((check_pin atoi now pin s).1.ble_pin ≡ s.ble_pin)
unfolding check_pin
check_pin-IsPaced atoi start now pin s w h =
    let P : Bool × Provisioner → Type 0 = λ r. IsPaced start now r.1 × (r.1.ble_pin ≡ s.ble_pin) in
    rw w (
      if_keeps P (s.ble_pin == 0) (false, s) _ (h, refl)
        (if_cases P (is_cooling now s) (false, send_response rate_limited s)
          (false, send_response invalid_pin (note_failure now s))
          (λ _.
            (record { from_start = h.from_start; in_range = h.in_range; paced = h.paced }, refl))
          (λ c. (failure-IsPaced start now s h c, refl))))

attempt_all-IsPaced :
    (atoi : List ℕ → ℕ) (start before : ℕ) (attempts : List (ℕ × Field)) (s : Provisioner)
    → IsLater before attempts
    → All (IsWrong atoi s.ble_pin) attempts
    → IsPaced start before s
    → IsPaced start (end_of before attempts) (attempt_all atoi attempts s)
attempt_all-IsPaced atoi start before [] s l w h = h
attempt_all-IsPaced atoi start before ((now, pin) ∷ more) s l w h =
    let step =
      check_pin-IsPaced atoi start now pin s w.0 (later-IsPaced start before now s l.0 l.1.0 h) in
    let s' = (check_pin atoi now pin s).1 in
    attempt_all-IsPaced atoi start now more s' l.1.1
      (subst (λ p. All (IsWrong atoi p) more) (sym step.1) w.1) step.0

-- From a state without failures: wrong PINs at clock readings that do not go back and do not wrap,
-- however many and whenever they come, are checked so seldom that, when `k` have been counted, the
-- waits of all but the last of them, 2, 4, 8, ... seconds up to an hour each, have passed.
pub attempts-wait :
    (atoi : List ℕ → ℕ) (start : ℕ) (attempts : List (ℕ × Field)) (s : Provisioner)
    → start < 4294967296
    → IsLater start attempts
    → All (IsWrong atoi s.ble_pin) attempts
    → s.fail_count ≡ 0
    → total_wait (attempt_all atoi attempts s).fail_count + start ≤ end_of start attempts
attempts-wait atoi start attempts s lt l w e =
    same_wait start (end_of start attempts) (attempt_all atoi attempts s) (
      attempt_all-IsPaced atoi start start attempts s l w
        (record { from_start = omega arith; in_range = lt; paced = inl e }))
