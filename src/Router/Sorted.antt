-- ===== src/Router/Sorted.antt =====
-- What sorting keeps, and what the values of a dictionary by type are.
use fragchain_core.Prelude.{
  ◌≡◌, refl, ◌∙◌, ap, Bool, true, false, ◌&&◌, ◌||◌, Option, none, some, List, [], ◌∷◌, arith, any,
  all,
}
use fragchain_core.Detectability.{
  ArtifactType, sigma_rule, analyst_research_task, mitigation_plan, telemetry_contract, same_type,
  SkippedArtifact, skips,
}
use fragchain_core.Router.{PlannedArtifact, Dict, has, PlanBuilder}
use fragchain_core.Router.Steps.{IsGood}
use fragchain_core.Router.Plan.{plans, insert, sorted, add_value, values}

module _ {A : Type 0} (le : A → A → Bool) (p : A → Bool) where
  any-insert : (a : A) (l : List A) → any p (insert le a l) ≡ (p a || any p l)
  unfolding insert
  any-insert a [] = refl
  any-insert a (b ∷ l) = ground (arith, any-insert a l)

  pub any-sorted : (l : List A) → any p (sorted le l) ≡ any p l
  unfolding sorted
  any-sorted [] = refl
  any-sorted (a ∷ l) = ground (arith, any-insert a (sorted le l), any-sorted l)

  all-insert : (a : A) (l : List A) → all p (insert le a l) ≡ (p a && all p l)
  unfolding insert
  all-insert a [] = refl
  all-insert a (b ∷ l) = ground (arith, all-insert a l)

  pub all-sorted : (l : List A) → all p (sorted le l) ≡ all p l
  unfolding sorted
  all-sorted [] = refl
  all-sorted (a ∷ l) = ground (arith, all-insert a (sorted le l), all-sorted l)

four :
    (f : ArtifactType → Bool) (t : ArtifactType)
    → ((f sigma_rule && same_type sigma_rule t)
        || ((f analyst_research_task && same_type analyst_research_task t)
            || ((f mitigation_plan && same_type mitigation_plan t)
                || ((f telemetry_contract && same_type telemetry_contract t) || false))))
      ≡ f t
four f sigma_rule = ground arith
four f analyst_research_task = ground arith
four f mitigation_plan = ground arith
four f telemetry_contract = ground arith

all-add_value :
    {A : Type 0} (p : A → Bool) (o : Option A) (l : List A)
    → ((a : A) → o ≡ some a → p a ≡ true)
    → all p l ≡ true
    → all p (add_value o l) ≡ true
all-add_value p none l h k = k
all-add_value p (some a) l h k = rw (h a refl, k)

pub all-values :
    {A : Type 0} (p : A → Bool) (d : Dict A)
    → ((k : ArtifactType) (a : A) → d k ≡ some a → p a ≡ true)
    → all p (values d) ≡ true
all-values p d h = all-add_value p (d sigma_rule) _ (h sigma_rule) (
    all-add_value p (d analyst_research_task) _ (h analyst_research_task) (
      all-add_value p (d mitigation_plan) _ (h mitigation_plan)
        (all-add_value p (d telemetry_contract) [] (h telemetry_contract) refl)))

module _ (b : PlanBuilder) (g : IsGood b) (t : ArtifactType) where
  plans-add_value :
      (k : ArtifactType) (l : List PlannedArtifact)
      → plans t (add_value (b.recommended k) l)
        ≡ ((has b.recommended k && same_type k t) || plans t l)
  plans-add_value k l = ground (arith, g k)

  skips-add_value :
      (k : ArtifactType) (l : List SkippedArtifact)
      → skips t (add_value (b.skipped k) l) ≡ ((has b.skipped k && same_type k t) || skips t l)
  skips-add_value k l = ground (arith, g k)

  pub plans-values : plans t (values b.recommended) ≡ has b.recommended t
  plans-values =
      plans-add_value sigma_rule _
      ∙ ap (λ q. (has b.recommended sigma_rule && same_type sigma_rule t) || q)
          (plans-add_value analyst_research_task _
            ∙ ap
                (λ q.
                  (has b.recommended analyst_research_task && same_type analyst_research_task t)
                  || q)
                (plans-add_value mitigation_plan _
                  ∙ ap
                      (λ q. (has b.recommended mitigation_plan && same_type mitigation_plan t) || q)
                      (plans-add_value telemetry_contract [])))
      ∙ four (has b.recommended) t

  pub skips-values : skips t (values b.skipped) ≡ has b.skipped t
  skips-values =
      skips-add_value sigma_rule _
      ∙ ap (λ q. (has b.skipped sigma_rule && same_type sigma_rule t) || q)
          (skips-add_value analyst_research_task _
            ∙ ap
                (λ q.
                  (has b.skipped analyst_research_task && same_type analyst_research_task t) || q)
                (skips-add_value mitigation_plan _
                  ∙ ap (λ q. (has b.skipped mitigation_plan && same_type mitigation_plan t) || q)
                      (skips-add_value telemetry_contract [])))
      ∙ four (has b.skipped) t
