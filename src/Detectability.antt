-- ===== src/Detectability.antt =====
-- assessments/detectability.py: the classes, the artifact vocabulary and the validated answer of
-- the classifier. The model call itself is not modelled. Confidences are in thousandths, the
-- precision to which the classifier's row stores them.
use fragchain_core.Prelude.{
  ℕ, String, Bool, true, false, not, ◌&&◌, ◌||◌, List, all, any, leb, str_eq,
}

pub data DetectabilityClass : Type 0 where
  directly_detectable indirectly_detectable environment_dependent control_only : DetectabilityClass
  insufficient_information : DetectabilityClass

pub data ArtifactType : Type 0 where
  sigma_rule analyst_research_task mitigation_plan telemetry_contract : ArtifactType

-- `.value`
abbrev pub class_value : DetectabilityClass → String
class_value directly_detectable = "directly_detectable"
class_value indirectly_detectable = "indirectly_detectable"
class_value environment_dependent = "environment_dependent"
class_value control_only = "control_only"
class_value insufficient_information = "insufficient_information"

abbrev pub value : ArtifactType → String
value sigma_rule = "sigma_rule"
value analyst_research_task = "analyst_research_task"
value mitigation_plan = "mitigation_plan"
value telemetry_contract = "telemetry_contract"

abbrev pub same_type : ArtifactType → ArtifactType → Bool
same_type sigma_rule sigma_rule = true
same_type analyst_research_task analyst_research_task = true
same_type mitigation_plan mitigation_plan = true
same_type telemetry_contract telemetry_contract = true
same_type _ _ = false

pub record RecommendedArtifact : Type 0 where
  pub type : ArtifactType
  pub reason : String
  pub priority : ℕ

pub record SkippedArtifact : Type 0 where
  pub type : ArtifactType
  pub reason : String

-- The fields of `DetectabilityAssessment` that the router reads.
pub record DetectabilityAssessment : Type 0 where
  pub detectability_class : DetectabilityClass
  pub confidence : ℕ
  pub required_telemetry : List String
  pub recommended_artifacts : List RecommendedArtifact
  pub skipped_artifacts : List SkippedArtifact

-- Field(min_length=1)
abbrev pub nonempty : String → Bool
nonempty s = not (str_eq s "")

-- Field(ge=1, le=5)
abbrev pub priority_ok : ℕ → Bool
priority_ok p = leb 1 p && leb p 5

abbrev pub recommends : ArtifactType → List RecommendedArtifact → Bool
recommends t = any (λ a. same_type a.type t)

abbrev pub skips : ArtifactType → List SkippedArtifact → Bool
skips t = any (λ a. same_type a.type t)

-- _sigma_explicitly_justified: whether the validator lets the value through
unfoldable pub sigma_explicitly_justified : DetectabilityAssessment → Bool
sigma_explicitly_justified c =
    let rec = recommends sigma_rule c.recommended_artifacts in
    let skp = skips sigma_rule c.skipped_artifacts in (rec || skp) && not (rec && skp)

-- The field constraints and the validator together.
unfoldable pub is_valid : DetectabilityAssessment → Bool
unfolding sigma_explicitly_justified
is_valid c =
    leb c.confidence 1000
    && all (λ a. nonempty a.reason && priority_ok a.priority) c.recommended_artifacts
    && all (λ a. nonempty a.reason) c.skipped_artifacts
    && sigma_explicitly_justified c
