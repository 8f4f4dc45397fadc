-- ===== src/Router/Built.antt =====
-- assessments/artifact_router.py: what a call of `build_plan` returns.
use fragchain_core.Prelude.{
  ℕ, String, ◌≤◌, ◌≡◌, Bool, true, not, ◌&&◌, ◌||◌, none, some, List, arith, if◌then◌else◌,
}
use fragchain_core.Detectability.{
  ArtifactType, sigma_rule, DetectabilityAssessment, recommends, skips, is_valid,
  sigma_explicitly_justified,
}
use fragchain_core.Router.{new_builder}
use fragchain_core.Router.Start.{Covers, has_recommended-new_builder, has_skipped-new_builder}
use fragchain_core.Router.Rules.{
  decided-IsGood, known, known-apply_class, known-apply_floor, known-apply_gate,
}
use fragchain_core.Router.Plan.{plan_valid, apply_class, apply_floor, decided, build_plan}
use fragchain_core.Router.Laws.{draft, plan_valid-draft}

covered : (r s : Bool) → (r || s) ≡ true → ((r && not s) || s) ≡ true
covered r s h = ground arith

checked : {A : Type 0} (b : Bool) (a : A) → b ≡ true → (if b then some a else none) ≡ some a
checked b a h = ground arith

sigma-listed :
    (c : DetectabilityAssessment)
    → is_valid c ≡ true
    → (recommends sigma_rule c.recommended_artifacts || skips sigma_rule c.skipped_artifacts) ≡ true
unfolding is_valid sigma_explicitly_justified
sigma-listed c valid = ground arith

known-new_builder :
    (order : List ArtifactType) (c : DetectabilityAssessment)
    → Covers order
    → is_valid c ≡ true
    → known sigma_rule (new_builder order c) ≡ true
known-new_builder order c covers valid = ground (
  arith,
  has_recommended-new_builder c order covers sigma_rule,
  has_skipped-new_builder c order sigma_rule,
  sigma-listed c valid,
  covered (recommends sigma_rule c.recommended_artifacts) (skips sigma_rule c.skipped_artifacts),
)

module _ (two_digits : ℕ → String) (order : List ArtifactType) (covers : Covers order)
    (c : DetectabilityAssessment) (valid : is_valid c ≡ true) (x : ℕ) (passed : Bool) (y : ℕ) where
  known-decided : known sigma_rule (decided two_digits order c x passed y) ≡ true
  unfolding decided
  known-decided =
      let start = new_builder order c in
      let classed = apply_class c.detectability_class start in
      known-apply_gate two_digits sigma_rule passed (apply_floor two_digits x y classed) (
        known-apply_floor two_digits sigma_rule x y classed (
          known-apply_class two_digits sigma_rule c.detectability_class start
            (known-new_builder order c covers valid)))

  -- If the order of the set lists every type, a classification that its own validator accepts always gives a plan: whatever its class, the
  -- confidence (in thousandths, at most 1000), the gate and the floor, the constructor of the plan
  -- does not raise.
  pub build_plan-draft :
      x ≤ 1000
      → build_plan two_digits order c x passed y
        ≡ some (draft (decided two_digits order c x passed y) c x)
  unfolding build_plan
  build_plan-draft small =
      let b = decided two_digits order c x passed y in
      checked (plan_valid (draft b c x)) (draft b c x) (
        plan_valid-draft b (decided-IsGood two_digits order c x passed y covers valid) c x small
          known-decided)
