-- ===== src/Router/Start.antt =====
-- The builder that `build_plan` starts from: what the classifier listed, the skips winning.
use fragchain_core.Prelude.{
  ◌≡◌, refl, ◌∙◌, ap, true, not, ◌&&◌, ◌||◌, none, List, [], ◌∷◌, arith, any, all, if◌then◌else◌,
}
use fragchain_core.Detectability.{
  ArtifactType, sigma_rule, same_type, RecommendedArtifact, SkippedArtifact,
  DetectabilityAssessment, nonempty, priority_ok, recommends, skips, is_valid,
}
use fragchain_core.Router.{
  PlannedArtifact, Dict, empty, has, PlanBuilder, load_recommended, load_skipped, reconcile,
  reconcile_all, new_builder,
}
use fragchain_core.Router.Steps.{same_type-eq, IsGood, Good}

-- The iteration order of the set hands out every artifact type.
abbrev pub Covers : List ArtifactType → Type 0
Covers order = (k : ArtifactType) → any (λ t. same_type t k) order ≡ true

module _ (k : ArtifactType) where
  has-load_recommended :
      (l : List RecommendedArtifact) (d : Dict PlannedArtifact)
      → has (load_recommended l d) k ≡ (recommends k l || has d k)
  unfolding load_recommended
  has-load_recommended [] d = refl
  has-load_recommended (a ∷ l) d = has-load_recommended l _ ∙ ground arith

  has-load_skipped :
      (l : List SkippedArtifact) (d : Dict SkippedArtifact)
      → has (load_skipped l d) k ≡ (skips k l || has d k)
  unfolding load_skipped
  has-load_skipped [] d = refl
  has-load_skipped (a ∷ l) d = has-load_skipped l _ ∙ ground arith

  recommended-reconcile :
      (b : PlanBuilder) (t : ArtifactType)
      → (reconcile b t).recommended k ≡ (
          if same_type t k && has b.recommended k && has b.skipped k then none else b.recommended k)
  unfolding reconcile
  recommended-reconcile b t = ground (arith, same_type-eq t k)

  skipped-reconcile : (b : PlanBuilder) (t : ArtifactType) → (reconcile b t).skipped ≡ b.skipped
  unfolding reconcile
  skipped-reconcile b t = ground arith

  recommended-reconcile_all :
      (order : List ArtifactType) (b : PlanBuilder)
      → (reconcile_all b order).recommended k ≡ (
          if any (λ t. same_type t k) order && has b.recommended k && has b.skipped k
          then none
          else b.recommended k)
  unfolding reconcile_all
  recommended-reconcile_all [] b = refl
  recommended-reconcile_all (t ∷ order) b = ground (
    arith,
    recommended-reconcile_all order (reconcile b t),
    recommended-reconcile b t,
    ap (λ (d : Dict SkippedArtifact). d k) (skipped-reconcile b t),
  )

skipped-reconcile_all :
    (order : List ArtifactType) (b : PlanBuilder) → (reconcile_all b order).skipped ≡ b.skipped
unfolding reconcile_all
skipped-reconcile_all [] b = refl
skipped-reconcile_all (t ∷ order) b =
    skipped-reconcile_all order (reconcile b t) ∙ skipped-reconcile sigma_rule b t

module _ (c : DetectabilityAssessment) where
  abbrev listed : Dict PlannedArtifact
  listed = load_recommended c.recommended_artifacts empty

  abbrev declined : Dict SkippedArtifact
  declined = load_skipped c.skipped_artifacts empty

  pub skipped-new_builder : (order : List ArtifactType) → (new_builder order c).skipped ≡ declined
  unfolding new_builder
  skipped-new_builder order = skipped-reconcile_all order _

  pub recommended-new_builder :
      (order : List ArtifactType)
      → Covers order
      → (k : ArtifactType)
      → (new_builder order c).recommended k
        ≡ (if has listed k && has declined k then none else listed k)
  unfolding new_builder
  recommended-new_builder order covers k = ground (
    arith,
    covers k,
    recommended-reconcile_all k order
        (record { recommended = listed; skipped = declined; adjustments = [] }),
  )

  pub has_skipped-new_builder :
      (order : List ArtifactType) (k : ArtifactType)
      → has (new_builder order c).skipped k ≡ skips k c.skipped_artifacts
  has_skipped-new_builder order k = ground (
    arith,
    ap (λ (d : Dict SkippedArtifact). d k) (skipped-new_builder order),
    has-load_skipped k c.skipped_artifacts empty,
  )

  pub has_recommended-new_builder :
      (order : List ArtifactType)
      → Covers order
      → (k : ArtifactType)
      → has (new_builder order c).recommended k
        ≡ (recommends k c.recommended_artifacts && not (skips k c.skipped_artifacts))
  has_recommended-new_builder order covers k = ground (
    arith,
    recommended-new_builder order covers k,
    has-load_skipped k c.skipped_artifacts empty,
    has-load_recommended k c.recommended_artifacts empty,
  )

load_recommended-Good :
    (l : List RecommendedArtifact) (d : Dict PlannedArtifact)
    → all (λ a. nonempty a.reason && priority_ok a.priority) l ≡ true
    → ((k : ArtifactType) → Good k (d k) none)
    → (k : ArtifactType) → Good k (load_recommended l d k) none
unfolding load_recommended
load_recommended-Good [] d h g k = g k
load_recommended-Good (a ∷ l) d h g k =
    load_recommended-Good l _ (ground arith) (λ j. ground (arith, g j, same_type-eq a.type j)) k

load_skipped-Good :
    (l : List SkippedArtifact) (d : Dict SkippedArtifact)
    → all (λ a. nonempty a.reason) l ≡ true
    → ((k : ArtifactType) → Good k none (d k))
    → (k : ArtifactType) → Good k none (load_skipped l d k)
unfolding load_skipped
load_skipped-Good [] d h g k = g k
load_skipped-Good (a ∷ l) d h g k =
    load_skipped-Good l _ (ground arith) (λ j. ground (arith, g j, same_type-eq a.type j)) k

pub new_builder-IsGood :
    (order : List ArtifactType) (c : DetectabilityAssessment)
    → Covers order
    → is_valid c ≡ true
    → IsGood (new_builder order c)
unfolding is_valid
new_builder-IsGood order c covers valid k = ground (
  arith,
  recommended-new_builder c order covers k,
  ap (λ (d : Dict SkippedArtifact). d k) (skipped-new_builder c order),
  load_recommended-Good c.recommended_artifacts empty (ground arith) (λ j. tt) k,
  load_skipped-Good c.skipped_artifacts empty (ground arith) (λ j. tt) k,
)
