-- ===== src/Router/Rules.antt =====
-- What each rule of the policy does to the plan.
use text.Mathlib.TextLemmas.{length-append}
use Prim.Native.String.{count, ◌++◌ as str_append}
use fragchain_core.Prelude.{
  ℕ, String, ◌<◌, eq_iff, str_eq, ◌≡◌, refl, ap, inl, inr, Bool, true, false, ◌&&◌, ◌||◌, List,
  arith, Bool-cases, leb, ltb,
}
use fragchain_core.Detectability.{
  DetectabilityClass, directly_detectable, indirectly_detectable, environment_dependent,
  control_only, insufficient_information, ArtifactType, sigma_rule, analyst_research_task,
  mitigation_plan, telemetry_contract, DetectabilityAssessment, nonempty, is_valid,
}
use fragchain_core.Router.{
  has, PlanBuilder, new_builder, demote, ensure_recommended, add_prerequisite,
}
use fragchain_core.Router.Steps.{IsGood, demote-IsGood, ensure-IsGood, add_prerequisite-IsGood}
use fragchain_core.Router.Start.{Covers, new_builder-IsGood}
use fragchain_core.Router.Plan.{
  apply_class, below_floor, apply_floor, apply_gate, decided, insufficient_evidence,
  gather_evidence, prevention_preferred, default_deliverable, verify_telemetry, document_telemetry,
  needs_research, override_required,
}

-- The classes for which the policy lets a Sigma rule be planned at all.
abbrev pub allows_sigma : DetectabilityClass → Bool
allows_sigma insufficient_information = false
allows_sigma control_only = false
allows_sigma _ = true

nonempty-append : (s t : String) → 0 < count s → nonempty (str_append s t) ≡ true
nonempty-append s t h = elim (Bool-cases (str_eq (str_append s t) "")) [
  | inl e ↦ absurd (omega (arith, ap count ((eq_iff (str_append s t) "").0 e), length-append s t))
  | inr e ↦ rw e
]

abbrev pub known : ArtifactType → PlanBuilder → Bool
known k b = has b.recommended k || has b.skipped k

module _ (two_digits : ℕ → String) where
  apply_class-IsGood :
      (cls : DetectabilityClass) (b : PlanBuilder) → IsGood b → IsGood (apply_class cls b)
  unfolding apply_class
  apply_class-IsGood insufficient_information b g =
      ensure-IsGood analyst_research_task _
        (demote-IsGood sigma_rule b g insufficient_evidence refl) gather_evidence 1 refl
  apply_class-IsGood control_only b g =
      ensure-IsGood mitigation_plan _ (demote-IsGood sigma_rule b g prevention_preferred refl)
        default_deliverable 1 refl
  apply_class-IsGood environment_dependent b g =
      ensure-IsGood telemetry_contract _ (add_prerequisite-IsGood sigma_rule b g verify_telemetry)
        document_telemetry 2 refl
  apply_class-IsGood directly_detectable b g = g
  apply_class-IsGood indirectly_detectable b g = g

  nonempty-below_floor : (x y : ℕ) → nonempty (below_floor two_digits x y) ≡ true
  nonempty-below_floor x y = nonempty-append "policy: classifier confidence " _ (omega arith)

  apply_floor-IsGood :
      (x y : ℕ) (b : PlanBuilder) → IsGood b → IsGood (apply_floor two_digits x y b)
  unfolding apply_floor
  apply_floor-IsGood x y b g = elim (Bool-cases (ltb x y)) [
    | inl e ↦ rw e (
        ensure-IsGood analyst_research_task _
          (demote-IsGood sigma_rule b g (below_floor two_digits x y) (nonempty-below_floor x y))
          needs_research 1 refl)
    | inr e ↦ rw e g
  ]

  apply_gate-IsGood :
      (passed : Bool) (b : PlanBuilder) → IsGood b → IsGood (apply_gate two_digits passed b)
  unfolding apply_gate
  apply_gate-IsGood true b g = g
  apply_gate-IsGood false b g = add_prerequisite-IsGood sigma_rule b g override_required

  pub decided-IsGood :
      (order : List ArtifactType) (c : DetectabilityAssessment) (x : ℕ) (passed : Bool) (y : ℕ)
      → Covers order
      → is_valid c ≡ true
      → IsGood (decided two_digits order c x passed y)
  unfolding decided
  decided-IsGood order c x passed y covers valid =
      let start = new_builder order c in
      let classed = apply_class c.detectability_class start in
      apply_gate-IsGood passed (apply_floor two_digits x y classed) (
        apply_floor-IsGood x y classed (
          apply_class-IsGood c.detectability_class start (new_builder-IsGood order c covers valid)))

  -- Sigma after each rule.
  pub sigma-apply_class :
      (cls : DetectabilityClass) (b : PlanBuilder)
      → has (apply_class cls b).recommended sigma_rule
        ≡ (has b.recommended sigma_rule && allows_sigma cls)
  unfolding apply_class demote ensure_recommended add_prerequisite
  sigma-apply_class insufficient_information b = ground arith
  sigma-apply_class control_only b = ground arith
  sigma-apply_class environment_dependent b = ground arith
  sigma-apply_class directly_detectable b = ground arith
  sigma-apply_class indirectly_detectable b = ground arith

  pub sigma-apply_floor :
      (x y : ℕ) (b : PlanBuilder)
      → has (apply_floor two_digits x y b).recommended sigma_rule
        ≡ (has b.recommended sigma_rule && leb y x)
  unfolding apply_floor demote ensure_recommended
  sigma-apply_floor x y b = ground arith

  pub sigma-apply_gate :
      (passed : Bool) (b : PlanBuilder)
      → has (apply_gate two_digits passed b).recommended sigma_rule ≡ has b.recommended sigma_rule
  unfolding apply_gate add_prerequisite
  sigma-apply_gate passed b = ground arith

  -- A type that is skipped stays skipped, and one that the builder knows is never lost.
  pub skipped-apply_class :
      (k : ArtifactType) (cls : DetectabilityClass) (b : PlanBuilder)
      → has b.skipped k ≡ true
      → has (apply_class cls b).skipped k ≡ true
  unfolding apply_class demote ensure_recommended add_prerequisite
  skipped-apply_class k insufficient_information b h = ground arith
  skipped-apply_class k control_only b h = ground arith
  skipped-apply_class k environment_dependent b h = ground arith
  skipped-apply_class k directly_detectable b h = h
  skipped-apply_class k indirectly_detectable b h = h

  pub skipped-apply_floor :
      (k : ArtifactType) (x y : ℕ) (b : PlanBuilder)
      → has b.skipped k ≡ true
      → has (apply_floor two_digits x y b).skipped k ≡ true
  unfolding apply_floor demote ensure_recommended
  skipped-apply_floor k x y b h = ground arith

  pub skipped-apply_gate :
      (passed : Bool) (b : PlanBuilder) → (apply_gate two_digits passed b).skipped ≡ b.skipped
  unfolding apply_gate add_prerequisite
  skipped-apply_gate passed b = ground arith

  pub known-apply_class :
      (k : ArtifactType) (cls : DetectabilityClass) (b : PlanBuilder)
      → known k b ≡ true
      → known k (apply_class cls b) ≡ true
  unfolding apply_class demote ensure_recommended add_prerequisite
  known-apply_class k insufficient_information b h = ground arith
  known-apply_class k control_only b h = ground arith
  known-apply_class k environment_dependent b h = ground arith
  known-apply_class k directly_detectable b h = h
  known-apply_class k indirectly_detectable b h = h

  pub known-apply_floor :
      (k : ArtifactType) (x y : ℕ) (b : PlanBuilder)
      → known k b ≡ true
      → known k (apply_floor two_digits x y b) ≡ true
  unfolding apply_floor demote ensure_recommended
  known-apply_floor k x y b h = ground arith

  pub known-apply_gate :
      (k : ArtifactType) (passed : Bool) (b : PlanBuilder)
      → known k b ≡ true
      → known k (apply_gate two_digits passed b) ≡ true
  unfolding apply_gate add_prerequisite
  known-apply_gate k passed b h = ground arith
