-- ===== src/Gate/Laws.antt =====
-- What the gates decide.
use fragchain_core.Prelude.{
  ℕ, String, Bool, true, not, ◌&&◌, some, List, [], ◌∷◌, ◌+◌, ◌≤◌, select, map, length, ◌≡◌, refl,
  ◌↔◌, arith, str_eq, Bool-cases, inl, inr, ◌⊎◌, eq_iff, ◌∙◌,
}
use fragchain_core.Detectability.{
  DetectabilityClass, class_value, directly_detectable, indirectly_detectable,
  environment_dependent, control_only, insufficient_information,
}
use fragchain_core.Router.Plan.{sorted, insert}
use fragchain_core.Router.Rules.{allows_sigma}
use fragchain_core.Counting.{length-map}
use fragchain_core.Gate.{
  Indicators, has_values, evaluate_detectability_gate, text_le, sigma_generation_gated,
  one_of_texts, fallback_by_class,
}

module _ {A : Type 0} (le : A → A → Bool) where
  length-insert : (a : A) (l : List A) → length (insert le a l) ≡ length l + 1
  unfolding insert
  length-insert a [] = refl
  length-insert a (b ∷ l) = ground (arith, length-insert a l)

  length-sorted : (l : List A) → length (sorted le l) ≡ length l
  unfolding sorted
  length-sorted [] = refl
  length-sorted (a ∷ l) = omega (arith, length-insert a (sorted le l), length-sorted l)

-- The gate passes exactly when the number of categories with a value reaches the threshold.
pub passed-evaluate_detectability_gate :
    (indicators : Indicators) (min_categories : ℕ)
    → ((evaluate_detectability_gate indicators min_categories).passed ≡ true)
      ↔ (min_categories ≤ length (select has_values indicators))
unfolding evaluate_detectability_gate
passed-evaluate_detectability_gate indicators min_categories =
    let n =
      length-sorted text_le (map (λ (e : String × List String). e.0) (select has_values indicators))
      ∙ length-map (λ (e : String × List String). e.0) (select has_values indicators) in
    ground (arith, n)

-- With every skip class enabled or not, generation is skipped exactly for an enabled class under
-- which the policy of the router plans no Sigma rule.
pub gated-allows_sigma :
    (c : DetectabilityClass) (enabled : List String)
    → sigma_generation_gated (some (class_value c)) enabled
      ≡ (not (allows_sigma c) && one_of_texts enabled (class_value c))
unfolding sigma_generation_gated
gated-allows_sigma directly_detectable enabled = refl
gated-allows_sigma indirectly_detectable enabled = refl
gated-allows_sigma environment_dependent enabled = refl
gated-allows_sigma control_only enabled = refl
gated-allows_sigma insufficient_information enabled = refl

-- What a skipped run recommends instead is never a Sigma rule, and there is always something.
pub fallback-gated :
    (c : String) (enabled : List String)
    → sigma_generation_gated (some c) enabled ≡ true
    → (fallback_by_class c ≡ some "analyst_research_task")
      ⊎ (fallback_by_class c ≡ some "mitigation_plan")
unfolding sigma_generation_gated fallback_by_class
fallback-gated c enabled h = elim (Bool-cases (str_eq c "insufficient_information")) [
  | inl p ↦ inl (rw p refl)
  | inr p ↦ elim (Bool-cases (str_eq c "control_only")) [
    | inl q ↦ inr (rw (p, q) refl)
    | inr q ↦ ground (
      arith,
      eq_iff c "insufficient_information",
      eq_iff "insufficient_information" c,
      eq_iff c "control_only",
      eq_iff "control_only" c,
    )
  ]
]
