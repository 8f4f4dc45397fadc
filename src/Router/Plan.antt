-- ===== src/Router/Plan.antt =====
-- assessments/artifact_router.py: `build_plan` and the validated plan. `{x:.2f}` is an argument.
use fragchain_core.Prelude.{
  ℕ, String, Bool, not, ◌&&◌, ◌||◌, Option, none, some, List, [], ◌∷◌, any, all, ltb, leb, ◌==◌,
  if◌then◌else◌, fstring,
}
use fragchain_core.Detectability.{
  DetectabilityClass, directly_detectable, indirectly_detectable, environment_dependent,
  control_only, insufficient_information, ArtifactType, sigma_rule, analyst_research_task,
  mitigation_plan, telemetry_contract, same_type, SkippedArtifact, DetectabilityAssessment,
  nonempty, priority_ok, skips,
}
use fragchain_core.Router.{
  PlannedArtifact, Dict, PlanBuilder, new_builder, demote, ensure_recommended, add_prerequisite,
}

pub record RouterPlan : Type 0 where
  pub recommended : List PlannedArtifact
  pub skipped : List SkippedArtifact
  pub required_inputs : List String
  pub confidence : ℕ
  pub policy_version : String
  pub policy_adjustments : List String

abbrev pub plans : ArtifactType → List PlannedArtifact → Bool
plans t = any (λ a. same_type a.type t)

unfoldable pub sigma_planned : RouterPlan → Bool
sigma_planned p = plans sigma_rule p.recommended

-- `rec & skp` is empty
abbrev pub disjoint : List PlannedArtifact → List SkippedArtifact → Bool
disjoint rec skp = all (λ a. not (skips a.type skp)) rec

-- The field constraints and `_sigma_explicit`: whether the constructor returns.
unfoldable pub plan_valid : RouterPlan → Bool
plan_valid p =
    leb p.confidence 1000
    && all (λ a. nonempty a.reason && priority_ok a.priority) p.recommended
    && all (λ a. nonempty a.reason) p.skipped
    && (plans sigma_rule p.recommended || skips sigma_rule p.skipped)
    && disjoint p.recommended p.skipped

-- The place of `type.value` in the order of strings.
abbrev pub value_rank : ArtifactType → ℕ
value_rank analyst_research_task = 0
value_rank mitigation_plan = 1
value_rank sigma_rule = 2
value_rank telemetry_contract = 3

-- key=lambda a: (a.priority, a.type.value)
abbrev pub planned_le : PlannedArtifact → PlannedArtifact → Bool
planned_le a b =
    ltb a.priority b.priority
    || (a.priority == b.priority && leb (value_rank a.type) (value_rank b.type))

abbrev pub skipped_le : SkippedArtifact → SkippedArtifact → Bool
skipped_le a b = leb (value_rank a.type) (value_rank b.type)

module _ {A : Type 0} (le : A → A → Bool) where
  unfoldable pub insert : A → List A → List A
  insert a [] = a ∷ []
  insert a (b ∷ l) = if le a b then a ∷ b ∷ l else b ∷ insert a l

  -- sorted(…, key=…)
  unfoldable pub sorted : List A → List A
  unfolding insert
  sorted [] = []
  sorted (a ∷ l) = insert a (sorted l)

abbrev pub add_value : {A : Type 0} → Option A → List A → List A
add_value none l = l
add_value (some a) l = a ∷ l

-- .values()
abbrev pub values : {A : Type 0} → Dict A → List A
values d = add_value (d sigma_rule) (
    add_value (d analyst_research_task)
      (add_value (d mitigation_plan) (add_value (d telemetry_contract) [])))

abbrev pub gather_evidence : String
gather_evidence = "policy: gather evidence before attempting detection"

abbrev pub insufficient_evidence : String
insufficient_evidence = "policy: insufficient evidence for reliable detection"

abbrev pub default_deliverable : String
default_deliverable = "policy: default deliverable for control-only vulnerabilities"

abbrev pub prevention_preferred : String
prevention_preferred = "policy: control-only class — prevention preferred over detection"

abbrev pub document_telemetry : String
document_telemetry = "policy: document the telemetry this detection depends on"

abbrev pub verify_telemetry : String
verify_telemetry = "verify required telemetry exists in the target environment"

abbrev pub needs_research : String
needs_research = "policy: low classification confidence — needs human research"

abbrev pub override_required : String
override_required = "Loop 2 gate failed — analyst override required before generation"

-- the `if` on the class
unfoldable pub apply_class : DetectabilityClass → PlanBuilder → PlanBuilder
unfolding demote ensure_recommended add_prerequisite
apply_class insufficient_information b =
    ensure_recommended analyst_research_task gather_evidence 1
      (demote sigma_rule insufficient_evidence b)
apply_class control_only b =
    ensure_recommended mitigation_plan default_deliverable 1
      (demote sigma_rule prevention_preferred b)
apply_class environment_dependent b =
    ensure_recommended telemetry_contract document_telemetry 2
      (add_prerequisite sigma_rule verify_telemetry b)
apply_class directly_detectable b = b
apply_class indirectly_detectable b = b

module _ (two_digits : ℕ → String) where
  abbrev pub below_floor : ℕ → ℕ → String
  below_floor confidence floor = fstring (
      "policy: classifier confidence "
      ∷ two_digits confidence
      ∷ " below floor "
      ∷ two_digits floor
      ∷ [])

  unfoldable pub apply_floor : ℕ → ℕ → PlanBuilder → PlanBuilder
  unfolding demote ensure_recommended
  apply_floor confidence floor b =
      if ltb confidence floor
      then ensure_recommended analyst_research_task needs_research 1
          (demote sigma_rule (below_floor confidence floor) b)
      else b

  unfoldable pub apply_gate : Bool → PlanBuilder → PlanBuilder
  unfolding add_prerequisite
  apply_gate passed b = if passed then b else add_prerequisite sigma_rule override_required b

  -- The builder when all the rules have been applied.
  unfoldable pub decided : List ArtifactType → DetectabilityAssessment → ℕ → Bool → ℕ → PlanBuilder
  decided order c confidence gate_passed floor =
      apply_gate gate_passed
        (apply_floor confidence floor (apply_class c.detectability_class (new_builder order c)))

  -- `none` is the `ValidationError` of the constructor.
  unfoldable pub build_plan :
      List ArtifactType → DetectabilityAssessment → ℕ → Bool → ℕ → Option RouterPlan
  build_plan order c confidence gate_passed floor =
      let b = decided order c confidence gate_passed floor in
      let plan : RouterPlan = record {
        recommended = sorted planned_le (values b.recommended);
        skipped = sorted skipped_le (values b.skipped);
        required_inputs = c.required_telemetry;
        confidence = confidence;
        policy_version = "v1";
        policy_adjustments = b.adjustments;
      } in
      if plan_valid plan then some plan else none
