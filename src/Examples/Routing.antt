-- ===== src/Examples/Routing.antt =====
-- assessments/artifact_router.py: a classification that recommends a Sigma rule.
use fragchain_core.Prelude.{ℕ, String, ◌≡◌, refl, arith, true, some, List, [], ◌∷◌}
use fragchain_core.Detectability.{
  directly_detectable, ArtifactType, sigma_rule, analyst_research_task, mitigation_plan,
  telemetry_contract, DetectabilityAssessment, is_valid,
}
use fragchain_core.Router.Start.{Covers}
use fragchain_core.Router.Plan.{decided, build_plan}
use fragchain_core.Router.Laws.{draft}
use fragchain_core.Router.Built.{build_plan-draft}

abbrev digits : ℕ → String
digits n = "0.50"

abbrev order : List ArtifactType
order = sigma_rule ∷ analyst_research_task ∷ mitigation_plan ∷ telemetry_contract ∷ []

covers_all : Covers order
covers_all sigma_rule = refl
covers_all analyst_research_task = refl
covers_all mitigation_plan = refl
covers_all telemetry_contract = refl

abbrev classification : DetectabilityAssessment
classification = record {
  detectability_class = directly_detectable;
  confidence = 900;
  required_telemetry = [];
  recommended_artifacts = record { type = sigma_rule; reason = "logs"; priority = 1 } ∷ [];
  skipped_artifacts = [];
}

accepted : is_valid classification ≡ true
unfolding is_valid
accepted = refl

build_plan-draft_example :
    build_plan digits order classification 900 true 500
    ≡ some (draft (decided digits order classification 900 true 500) classification 900)
build_plan-draft_example =
    build_plan-draft digits order covers_all classification accepted 900 true 500 (ground arith)
