-- ===== src/Switches/Timing.antt =====
-- How the conditions of a rule combine.
use Prim.Native.Nat.{min}
use power_monitoring.Base.{
  ℕ, zero, suc, ◌+◌, ◌≤◌, ◌≡◌, inl, inr, Bool, true, false, not, ◌&&◌, ◌||◌, Option, List, [], ◌∷◌,
  arith, ltb, leb, ◌==◌, if◌then◌else◌, Option-cases,
}
use power_monitoring.Floats.{Float}
use power_monitoring.Settings.{BatteryConfig}
use power_monitoring.Switches.Rule.{SwitchCondition, any_of, all_of, SwitchRule, max_conditions}
use power_monitoring.Switches.Conditions.{Inputs, read_condition_value}
use power_monitoring.Switches.Evaluate.{
  Verdict, Tally, one_if, add_verdict, judge, tally, tally_rule, combine,
}

-- What each condition of a rule comes to, in order.
module _ {F : Type 0} ⦃m : Float F⦄ (inp : Inputs F) (battery : ℕ → Option (BatteryConfig F))
    (rule : SwitchRule F) where
  abbrev pub verdicts : ℕ → List (SwitchCondition F) → List Bool → List Verdict
  verdicts zero cs ls = []
  verdicts (suc n) [] ls = []
  verdicts (suc n) (c ∷ cs) [] = []
  verdicts (suc n) (c ∷ cs) (l ∷ ls) = judge inp battery rule c l ∷ verdicts n cs ls

abbrev pub some_active : List Verdict → Bool
some_active [] = false
some_active (v ∷ vs) = v.active || some_active vs

abbrev pub none_unmet : List Verdict → Bool
none_unmet [] = true
none_unmet (v ∷ vs) = (not v.active || v.satisfied) && none_unmet vs

abbrev pub count_satisfied : List Verdict → ℕ
count_satisfied [] = 0
count_satisfied (v ∷ vs) = (if v.satisfied then 1 else 0) + count_satisfied vs

module _ {F : Type 0} ⦃m : Float F⦄ (inp : Inputs F) (battery : ℕ → Option (BatteryConfig F))
    (rule : SwitchRule F) where
  judge-active :
      (c : SwitchCondition F) (l : Bool)
      → (judge inp battery rule c l).satisfied ≡ true
      → (judge inp battery rule c l).active ≡ true
  unfolding judge
  judge-active c l h = elim (Option-cases (read_condition_value inp battery c rule.channel)) [
    | inl e ↦ ground (arith, e, h)
    | inr (r, e) ↦ ground (arith, e, h)
  ]

  -- The counts of the loop, as tests over the verdicts.
  record Counted (t : Tally) (vs : List Verdict) : Type 0 where
    le : t.true_count ≤ t.active_count
    active : ltb 0 t.active_count ≡ some_active vs
    unmet : leb t.active_count t.true_count ≡ none_unmet vs
    satisfied : t.true_count ≡ count_satisfied vs

  tally-Counted :
      (n : ℕ) (cs : List (SwitchCondition F)) (ls : List Bool)
      → Counted (tally inp battery rule n cs ls) (verdicts inp battery rule n cs ls)
  unfolding tally add_verdict one_if
  tally-Counted zero cs ls = ground arith
  tally-Counted (suc n) [] ls = ground arith
  tally-Counted (suc n) (c ∷ cs) [] = ground arith
  tally-Counted (suc n) (c ∷ cs) (l ∷ ls) = ground (arith, tally-Counted n cs ls, judge-active c l)

  abbrev rule_verdicts : List Verdict
  rule_verdicts =
      verdicts inp battery rule (min rule.condition_count max_conditions) rule.conditions
        rule.condition_latched

  -- A rule of logic AND holds exactly if some condition is active and every active one is satisfied.
  -- One of logic OR holds exactly if at least its minimum of conditions is satisfied, where a minimum
  -- of 0 counts as 1.
  pub combine-tally_rule :
      (combine all_of rule.min_conditions (tally_rule inp battery rule)
        ≡ (some_active rule_verdicts && none_unmet rule_verdicts))
      × (combine any_of rule.min_conditions (tally_rule inp battery rule)
          ≡ leb
              (if rule.min_conditions == 0 then 1 else rule.min_conditions)
              (count_satisfied rule_verdicts))
  unfolding combine tally_rule
  combine-tally_rule =
      let c =
        tally-Counted (min rule.condition_count max_conditions) rule.conditions
          rule.condition_latched in
      (rw (c.active, c.unmet), rw c.satisfied)
