-- ===== src/Gate.antt =====
-- assessments/loops/stubs.py: the deterministic gate on the indicators of Loop 2; and
-- assessments/gating.py: whether Loop 3 skips the generation of Sigma rules.
pub mod Laws
use fragchain_core.Prelude.{
  ℕ, String, Bool, true, false, not, ◌&&◌, ◌||◌, Option, none, some, List, [], ◌∷◌, any, select,
  map, length, leb, ltb, ◌==◌, str_eq, codes, if◌then◌else◌, fstring,
}
use fragchain_core.Router.Plan.{sorted}

-- The order of strings, by code points.
abbrev pub codes_le : List ℕ → List ℕ → Bool
codes_le [] t = true
codes_le (c ∷ s) [] = false
codes_le (c ∷ s) (d ∷ t) = let rest = codes_le s t in ltb c d || (c == d && rest)

abbrev pub text_le : String → String → Bool
text_le s t = codes_le (codes s) (codes t)

-- Loop 2's indicators: the values of each category, by category.
abbrev pub Indicators : Type 0
Indicators = List (String × List String)

abbrev pub all_categories : List String
all_categories =
    "process" ∷ "command_line" ∷ "file" ∷ "network" ∷ "registry" ∷ "parent_child" ∷ "api_call" ∷ []

pub record GateResult : Type 0 where
  pub passed : Bool
  pub filled_categories : List String
  pub empty_categories : List String
  pub threshold : ℕ

abbrev pub has_values : String × List String → Bool
has_values (cat, []) = false
has_values (cat, v ∷ vals) = true

abbrev pub one_of_texts : List String → String → Bool
one_of_texts texts s = any (λ t. str_eq t s) texts

unfoldable pub evaluate_detectability_gate : Indicators → ℕ → GateResult
unfolding sorted
evaluate_detectability_gate indicators min_categories =
    let filled = sorted text_le (map (λ e. e.0) (select has_values indicators)) in
    record {
      passed = leb min_categories (length filled);
      filled_categories = filled;
      empty_categories =
          sorted text_le (select (λ cat. not (one_of_texts filled cat)) all_categories);
      threshold = min_categories;
    }

abbrev pub sigma_skip_classes : List String
sigma_skip_classes = "insufficient_information" ∷ "control_only" ∷ []

-- An empty class is read as no class.
unfoldable pub sigma_generation_gated : Option String → List String → Bool
sigma_generation_gated none enabled_skip_classes = false
sigma_generation_gated (some detectability_class) enabled_skip_classes =
    not (str_eq detectability_class "")
    && one_of_texts sigma_skip_classes detectability_class
    && one_of_texts enabled_skip_classes detectability_class

-- _FALLBACK_BY_CLASS.get(…)
unfoldable pub fallback_by_class : String → Option String
fallback_by_class c =
    if str_eq c "insufficient_information"
    then some "analyst_research_task"
    else if str_eq c "control_only"
    then some "mitigation_plan"
    else none
