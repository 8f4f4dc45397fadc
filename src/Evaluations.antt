-- ===== src/Evaluations.antt =====
-- evaluations/store.py: the validation of an evaluation of a rule in the field, and the summary of a
-- rule's evaluations. The operations on floating-point numbers are an argument, as are the parsers of
-- numbers; texts are code points, times seconds. The children have the store and its laws.
pub mod Store
pub mod Sweep
pub mod Valid
pub mod Laws
pub mod Pending
use fragchain_core.Prelude.{
  ℕ, zero, suc, Bool, true, false, not, ◌&&◌, ◌||◌, any, Option, none, some, ◌>>=◌, is_some, List,
  [], ◌∷◌, ◌++◌, ◌+◌, ltb, leb, String, codes, strip, same_codes, length, if◌then◌else◌,
}
use fragchain_core.Commons.{ℤ, pos, negsuc, int_lt}

abbrev pub Text : Type 0
Text = List ℕ

-- The floating-point numbers of Python and the column that stores a rate.
pub record Floats (F : Type 0) : Type 0 where
  pub of_int : ℤ → F
  pub of_text : Text → Option F
  pub int_of_text : Text → Option ℤ
  -- int(value) if value.is_integer()
  pub as_integer : F → Option ℤ
  -- f < n
  pub is_below : F → ℕ → Bool
  pub add : F → F → F
  pub divide : F → ℕ → F
  -- What the column NUMERIC(6, 2) holds of a rate; none if it refuses it.
  pub stored : F → Option F

-- A value of the request's body.
pub data Value (F : Type 0) : Type 0 where
  null : Value F
  boolean : Bool → Value F
  integer : ℤ → Value F
  float : F → Value F
  text : Text → Value F
  other : Value F

-- some if a list of names has a text.
unfoldable pub allows : List String → Text → Bool
allows names t = any (λ n. same_codes (codes n) t) names

abbrev pub valid_environment_scales : List String
valid_environment_scales = "small" ∷ "medium" ∷ "enterprise" ∷ []

abbrev pub valid_query_costs : List String
valid_query_costs = "low" ∷ "medium" ∷ "high" ∷ []

abbrev pub valid_deployment_complexity : List String
valid_deployment_complexity = "trivial" ∷ "moderate" ∷ "complex" ∷ []

-- None, or the value; the outer none is an `EvaluationError` with 400.
abbrev pub Checked : Type 0 → Type 0
Checked A = Option (Option A)

abbrev pub is_empty : Text → Bool
is_empty [] = true
is_empty (c ∷ t) = false

unfoldable pub validate_enum : List String → Option Text → Checked Text
unfolding allows
validate_enum allowed none = some none
validate_enum allowed (some value) = if allows allowed value then some (some value) else none

abbrev pub natural : ℤ → Checked ℕ
natural (pos n) = some (some n)
natural (negsuc n) = none

abbrev pub natural_or_refused : Option ℤ → Checked ℕ
natural_or_refused none = none
natural_or_refused (some n) = natural n

module _ {F : Type 0} where
  unfoldable pub clean_optional_str : Option ℕ → Value F → Checked Text
  unfolding strip
  clean_optional_str max_length null = some none
  clean_optional_str max_length (text t) =
      let stripped = strip t in
      if is_empty stripped then some none else elim max_length [
        | none ↦ some (some stripped)
        | some n ↦ if ltb n (length stripped) then none else some (some stripped)
      ]
  clean_optional_str max_length _ = none

  module _ (floats : Floats F) where
    abbrev pub not_negative : F → Checked F
    not_negative f = if floats.is_below f 0 then none else some (some f)

    unfoldable pub coerce_fp_per_day : Value F → Checked F
    unfolding strip
    coerce_fp_per_day null = some none
    coerce_fp_per_day (integer n) = not_negative (floats.of_int n)
    coerce_fp_per_day (float f) = not_negative f
    coerce_fp_per_day (text t) =
        let stripped = strip t in
        if is_empty stripped
        then some none
        else elim (floats.of_text stripped) [ none ↦ none | some f ↦ not_negative f ]
    coerce_fp_per_day _ = none

    unfoldable pub coerce_true_positives : Value F → Checked ℕ
    unfolding strip
    coerce_true_positives null = some none
    coerce_true_positives (integer n) = natural n
    coerce_true_positives (float f) = natural_or_refused (floats.as_integer f)
    coerce_true_positives (text t) =
        let stripped = strip t in
        if is_empty stripped then some none else natural_or_refused (floats.int_of_text stripped)
    coerce_true_positives _ = none

    -- avg_fp_per_day and the size of the sample.
    unfoldable pub compute_recommendation : Option F → ℕ → String
    compute_recommendation none sample_size = "insufficient_data"
    compute_recommendation (some avg) sample_size =
        if ltb sample_size 3
        then "insufficient_data"
        else if floats.is_below avg 1
        then "production_ready"
        else if floats.is_below avg 5
        then "needs_tuning"
        else "problematic"

pub record RuleEvaluation (F : Type 0) : Type 0 where
  pub id : ℕ
  pub sigma_rule_id : ℕ
  pub evaluator_username : Option Text
  pub evaluated_at : ℕ
  pub environment_platform : Option Text
  pub environment_logsource : Option Text
  pub environment_scale : Option Text
  pub true_positives : Option ℕ
  pub false_positives_per_day : Option F
  pub query_cost : Option Text
  pub deployment_complexity : Option Text
  pub notes : Option Text
  pub contributed_to_commons : Bool

pub record AggregateStats (F : Type 0) : Type 0 where
  pub sigma_rule_id : ℕ
  pub count : ℕ
  pub avg_false_positives_per_day : Option F
  pub total_true_positives : ℕ
  pub platforms_tested : List Text
  pub scales_tested : List Text
  pub contributed_count : ℕ
  pub recommendation : String

-- keys.setdefault(value, None), for a value that is set and not empty
unfoldable pub set_default : Option Text → List Text → List Text
set_default none keys = keys
set_default (some value) keys =
    if is_empty value || any (λ k. same_codes k value) keys then keys else keys ++ (value ∷ [])

abbrev pub number_or_zero : Option ℕ → ℕ
number_or_zero none = 0
number_or_zero (some n) = n

module _ {F : Type 0} (floats : Floats F) where
  -- The rates of the rows that have one.
  abbrev pub fp_values : List (RuleEvaluation F) → List F
  fp_values [] = []
  fp_values (row ∷ rows) =
      let rest = fp_values rows in
      elim row.false_positives_per_day [ none ↦ rest | some f ↦ f ∷ rest ]

  abbrev pub tp_total : List (RuleEvaluation F) → ℕ
  tp_total [] = 0
  tp_total (row ∷ rows) = number_or_zero row.true_positives + tp_total rows

  -- The keys of a dict that each row adds its text to.
  unfoldable pub tested :
      (RuleEvaluation F → Option Text) → List Text → List (RuleEvaluation F) → List Text
  unfolding set_default
  tested field keys [] = keys
  tested field keys (row ∷ rows) = tested field (set_default (field row) keys) rows

  abbrev pub contributed : List (RuleEvaluation F) → ℕ
  contributed [] = 0
  contributed (row ∷ rows) = (if row.contributed_to_commons then 1 else 0) + contributed rows

  -- sum(values), from a number
  abbrev pub sum_from : F → List F → F
  sum_from total [] = total
  sum_from total (f ∷ fs) = sum_from (floats.add total f) fs

  abbrev pub average : List F → Option F
  average [] = none
  average (f ∷ fs) =
      some (floats.divide (sum_from (floats.of_int (pos 0)) (f ∷ fs)) (length (f ∷ fs)))

  -- For no row its values are those of the early return.
  unfoldable pub aggregate_stats : ℕ → List (RuleEvaluation F) → AggregateStats F
  unfolding tested compute_recommendation
  aggregate_stats rule_id rows =
      let values = fp_values rows in
      record {
        sigma_rule_id = rule_id;
        count = length rows;
        avg_false_positives_per_day = average values;
        total_true_positives = tp_total rows;
        platforms_tested = tested (λ r. r.environment_platform) [] rows;
        scales_tested = tested (λ r. r.environment_scale) [] rows;
        contributed_count = contributed rows;
        recommendation = compute_recommendation floats (average values) (length values);
      }
