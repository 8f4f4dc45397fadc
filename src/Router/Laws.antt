-- ===== src/Router/Laws.antt =====
-- What `build_plan` decides.
use fragchain_core.Prelude.{ℕ, ◌≤◌, ◌≡◌, ◌∙◌, true, ◌&&◌, arith, all, le→leb}
use fragchain_core.Detectability.{
  ArtifactType, sigma_rule, DetectabilityAssessment, nonempty, priority_ok, skips,
}
use fragchain_core.Router.{has, PlanBuilder}
use fragchain_core.Router.Steps.{IsGood}
use fragchain_core.Router.Sorted.{any-sorted, all-sorted, all-values, plans-values, skips-values}
use fragchain_core.Router.Rules.{known}
use fragchain_core.Router.Plan.{
  RouterPlan, plans, disjoint, plan_valid, planned_le, skipped_le, sorted, values,
}

-- The plan that the constructor is called with.
abbrev pub draft : PlanBuilder → DetectabilityAssessment → ℕ → RouterPlan
draft b c x = record {
  recommended = sorted planned_le (values b.recommended);
  skipped = sorted skipped_le (values b.skipped);
  required_inputs = c.required_telemetry;
  confidence = x;
  policy_version = "v1";
  policy_adjustments = b.adjustments;
}

module _ (b : PlanBuilder) (g : IsGood b) (c : DetectabilityAssessment) (x : ℕ) where
  plans-draft : (t : ArtifactType) → plans t (draft b c x).recommended ≡ has b.recommended t
  plans-draft t = any-sorted planned_le _ (values b.recommended) ∙ plans-values b g t

  skips-draft : (t : ArtifactType) → skips t (draft b c x).skipped ≡ has b.skipped t
  skips-draft t = any-sorted skipped_le _ (values b.skipped) ∙ skips-values b g t

  apart-draft : disjoint (draft b c x).recommended (draft b c x).skipped ≡ true
  apart-draft =
      all-sorted planned_le _ (values b.recommended)
      ∙ all-values _ b.recommended (λ k a e. rw (skips-draft a.type) (ground (arith, e, g k)))

  fields-draft :
      all (λ a. nonempty a.reason && priority_ok a.priority) (draft b c x).recommended ≡ true
  fields-draft =
      all-sorted planned_le _ (values b.recommended)
      ∙ all-values _ b.recommended (λ k a e. ground (arith, e, g k))

  reasons-draft : all (λ a. nonempty a.reason) (draft b c x).skipped ≡ true
  reasons-draft =
      all-sorted skipped_le _ (values b.skipped)
      ∙ all-values _ b.skipped (λ k a e. ground (arith, e, g k))

  pub plan_valid-draft : x ≤ 1000 → known sigma_rule b ≡ true → plan_valid (draft b c x) ≡ true
  unfolding plan_valid
  plan_valid-draft small sigma = rw (
    le→leb _ _ small,
    fields-draft,
    reasons-draft,
    apart-draft,
    plans-draft sigma_rule,
    skips-draft sigma_rule,
    sigma,
  )
