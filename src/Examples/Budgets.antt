-- ===== src/Examples/Budgets.antt =====
-- assessments/loops/token_budget.py: of three sources the riskiest is dropped.
use fragchain_core.Prelude.{ℕ, Option, some, none, List, [], ◌∷◌, ◌+◌, ◌≤◌, length, ◌≡◌, refl}
use fragchain_core.TokenBudget.{SourceForBudget, truncate_sources_to_budget}
use fragchain_core.TokenBudget.Laws.{tokens_in, truncate_sources_to_budget-fits}

abbrev eight : List ℕ
eight = 1 ∷ 2 ∷ 3 ∷ 4 ∷ 5 ∷ 6 ∷ 7 ∷ 8 ∷ []

abbrev source : ℕ → Option ℕ → SourceForBudget
source id risk = record {
  id = id;
  content = eight;
  pasted_at = 100 + id;
  injection_risk_score = risk;
}

abbrev three_sources : List SourceForBudget
three_sources = source 1 none ∷ source 2 (some 900) ∷ source 3 none ∷ []

truncate_sources_to_budget-fits_example :
    let out = truncate_sources_to_budget three_sources 4 in
    (tokens_in out.0 ≤ 4) × (length out.0 + length out.1 ≡ length three_sources)
truncate_sources_to_budget-fits_example = truncate_sources_to_budget-fits three_sources 4

riskiest_dropped :
    truncate_sources_to_budget three_sources 4
    ≡ (source 1 none ∷ source 3 none ∷ [], source 2 (some 900) ∷ [])
unfolding truncate_sources_to_budget
riskiest_dropped = refl

oldest_dropped :
    truncate_sources_to_budget three_sources 2
    ≡ (source 3 none ∷ [], source 1 none ∷ source 2 (some 900) ∷ [])
unfolding truncate_sources_to_budget
oldest_dropped = refl
