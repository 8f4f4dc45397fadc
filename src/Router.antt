-- ===== src/Router.antt =====
-- assessments/artifact_router.py: the working state of one plan, `_PlanBuilder`. A dictionary by
-- artifact type is a function, since its values are sorted before anything reads them.
pub mod Plan
pub mod Steps
pub mod Start
pub mod Rules
pub mod Sorted
pub mod Laws
pub mod Built
use fragchain_core.Prelude.{
  ℕ, String, Bool, true, false, not, ◌&&◌, ◌||◌, Option, none, some, List, [], ◌∷◌, ◌++◌, any,
  is_some, str_eq, if◌then◌else◌, fstring,
}
use fragchain_core.Detectability.{
  ArtifactType, value, same_type, RecommendedArtifact, SkippedArtifact, DetectabilityAssessment,
}

pub record PlannedArtifact : Type 0 where
  pub type : ArtifactType
  pub reason : String
  pub priority : ℕ
  pub prerequisites : List String

abbrev pub Dict : Type 0 → Type 0
Dict A = ArtifactType → Option A

abbrev pub empty : {A : Type 0} → Dict A
empty k = none

abbrev pub put : {A : Type 0} → Dict A → ArtifactType → A → Dict A
put d k v j = if same_type k j then some v else d j

abbrev pub delete : {A : Type 0} → Dict A → ArtifactType → Dict A
delete d k j = if same_type k j then none else d j

-- `k in d`
abbrev pub has : {A : Type 0} → Dict A → ArtifactType → Bool
has d k = is_some (d k)

pub record PlanBuilder : Type 0 where
  pub recommended : Dict PlannedArtifact
  pub skipped : Dict SkippedArtifact
  pub adjustments : List String

unfoldable pub load_recommended :
    List RecommendedArtifact → Dict PlannedArtifact → Dict PlannedArtifact
load_recommended [] d = d
load_recommended (a ∷ as') d = load_recommended as' (
    put d a.type
      (record { type = a.type; reason = a.reason; priority = a.priority; prerequisites = [] }))

unfoldable pub load_skipped : List SkippedArtifact → Dict SkippedArtifact → Dict SkippedArtifact
load_skipped [] d = d
load_skipped (a ∷ as') d = load_skipped as' (put d a.type a)

unfoldable pub reconcile : PlanBuilder → ArtifactType → PlanBuilder
reconcile b dual =
    if has b.recommended dual && has b.skipped dual
    then record b {
      recommended = delete b.recommended dual;
      adjustments =
          b.adjustments
          ++ (fstring (
              "reconciled "
              ∷ value dual
              ∷ ": classifier listed it as both recommended and skipped — keeping the skip"
              ∷ []))
            ∷ [];
    }
    else b

-- The loop over `set(recommended) & set(skipped)`; `order` is the order in which the set hands
-- out its members, each of the artifact types once.
unfoldable pub reconcile_all : PlanBuilder → List ArtifactType → PlanBuilder
unfolding reconcile
reconcile_all b [] = b
reconcile_all b (t ∷ order) = reconcile_all (reconcile b t) order

-- __init__
unfoldable pub new_builder : List ArtifactType → DetectabilityAssessment → PlanBuilder
unfolding load_recommended load_skipped reconcile_all
new_builder order c =
    reconcile_all
      (record {
        recommended = load_recommended c.recommended_artifacts empty;
        skipped = load_skipped c.skipped_artifacts empty;
        adjustments = [];
      })
      order

unfoldable pub demote : ArtifactType → String → PlanBuilder → PlanBuilder
demote artifact reason b =
    let b' =
      if has b.recommended artifact
      then record b {
        recommended = delete b.recommended artifact;
        adjustments =
            b.adjustments
            ++ (fstring (
                "demoted "
                ∷ value artifact
                ∷ ": "
                ∷ reason
                ∷ " (classifier had recommended it)"
                ∷ []))
              ∷ [];
      }
      else b in
    if has b'.skipped artifact then b' else record b' {
      skipped = put b'.skipped artifact (record { type = artifact; reason = reason });
    }

unfoldable pub ensure_recommended : ArtifactType → String → ℕ → PlanBuilder → PlanBuilder
ensure_recommended artifact reason priority b =
    if has b.recommended artifact || has b.skipped artifact then b else record b {
      recommended =
          put b.recommended artifact
            (record { type = artifact; reason = reason; priority = priority; prerequisites = [] });
      adjustments =
          b.adjustments ++ (fstring ("added " ∷ value artifact ∷ ": " ∷ reason ∷ [])) ∷ [];
    }

unfoldable pub add_prerequisite : ArtifactType → String → PlanBuilder → PlanBuilder
add_prerequisite artifact prerequisite b = elim (b.recommended artifact) [
  | none ↦ b
  | some planned ↦ if any (λ p. str_eq p prerequisite) planned.prerequisites then b else record b {
    recommended =
        put b.recommended artifact
          (record planned { prerequisites = planned.prerequisites ++ prerequisite ∷ [] });
    adjustments =
        b.adjustments
        ++ (fstring ("prerequisite on " ∷ value artifact ∷ ": " ∷ prerequisite ∷ [])) ∷ [];
  }
]
