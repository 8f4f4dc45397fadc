-- ===== src/Evaluations/Store.antt =====
-- evaluations/store.py: `EvaluationStore`.
use fragchain_core.Prelude.{
  ℕ, Bool, true, false, not, ◌&&◌, Option, none, some, ◌>>=◌, is_some, List, [], ◌∷◌, ◌++◌, max,
  leb, ◌==◌, map, select, if◌then◌else◌,
}
use fragchain_core.Counting.{first}
use fragchain_core.Chunking.{take, drop}
use fragchain_core.Router.Plan.{sorted}
use fragchain_core.Evaluations.{
  Text, Floats, Value, null, text, clean_optional_str, validate_enum, coerce_fp_per_day,
  coerce_true_positives, valid_environment_scales, valid_query_costs, valid_deployment_complexity,
  RuleEvaluation, AggregateStats, aggregate_stats,
}

pub record SigmaRule : Type 0 where
  pub id : ℕ
  pub title : Text
  pub origin : Text
  pub status : Text
  pub reviewed_at : Option ℕ

-- The fields of a request's body; a missing key is null.
pub record Results (F : Type 0) : Type 0 where
  pub environment_platform : Value F
  pub environment_logsource : Value F
  pub environment_scale : Value F
  pub true_positives : Value F
  pub false_positives_per_day : Value F
  pub query_cost : Value F
  pub deployment_complexity : Value F
  pub notes : Value F

pub data Action : Type 0 where
  recorded : Action
  -- contributed, with the flag before
  contributed : Bool → Action

pub record AuditLog : Type 0 where
  pub entity_id : ℕ
  pub action : Action
  pub actor : Option ℕ

pub record Database (F : Type 0) : Type 0 where
  pub rules : List SigmaRule
  pub rows : List (RuleEvaluation F)
  pub audit_log : List AuditLog

-- An `EvaluationError` with its status code, or an error of the database.
pub data Refusal : Type 0 where
  evaluation_error : ℕ → Refusal
  database_error : Refusal

pub data Answer (A : Type 0) : Type 0 where
  ok : A → Answer A
  refused : Refusal → Answer A

abbrev pub text_value : {F : Type 0} → Option Text → Value F
text_value none = null
text_value (some t) = text t

module _ {F : Type 0} (floats : Floats F) where
  -- The validation of a submission, with the rate as it was sent; none is a 400.
  unfoldable pub validated : ℕ → ℕ → ℕ → Option Text → Results F → Option (RuleEvaluation F)
  unfolding clean_optional_str validate_enum coerce_fp_per_day coerce_true_positives
  validated new_id now rule_id evaluator results = do
    platform ← clean_optional_str (some 50) results.environment_platform
    logsource ← clean_optional_str (some 100) results.environment_logsource
    scale_text ← clean_optional_str (some 50) results.environment_scale
    scale ← validate_enum valid_environment_scales scale_text
    true_positives ← coerce_true_positives floats results.true_positives
    fp_per_day ← coerce_fp_per_day floats results.false_positives_per_day
    cost_text ← clean_optional_str (some 20) results.query_cost
    query_cost ← validate_enum valid_query_costs cost_text
    complexity_text ← clean_optional_str (some 20) results.deployment_complexity
    complexity ← validate_enum valid_deployment_complexity complexity_text
    notes ← clean_optional_str none results.notes
    evaluator_clean ← clean_optional_str {F = F} (some 255) (text_value evaluator)
    if not (is_some true_positives) && not (is_some fp_per_day) && not (is_some notes)
        then none
        else some record {
          id = new_id;
          sigma_rule_id = rule_id;
          evaluator_username = evaluator_clean;
          evaluated_at = now;
          environment_platform = platform;
          environment_logsource = logsource;
          environment_scale = scale;
          true_positives = true_positives;
          false_positives_per_day = fp_per_day;
          query_cost = query_cost;
          deployment_complexity = complexity;
          notes = notes;
          contributed_to_commons = false;
        }

  -- The row as the database has it after the flush.
  unfoldable pub flushed : RuleEvaluation F → Option (RuleEvaluation F)
  flushed row = elim row.false_positives_per_day [
    | none ↦ some row
    | some f ↦ elim (floats.stored f) [
      | none ↦ none
      | some g ↦ some record row { false_positives_per_day = some g }
    ]
  ]

  unfoldable pub append_row : Option ℕ → Database F → RuleEvaluation F → Database F
  append_row actor db row = record {
    rules = db.rules;
    rows = db.rows ++ (row ∷ []);
    audit_log =
        db.audit_log ++ (record { entity_id = row.id; action = recorded; actor = actor } ∷ []);
  }

  abbrev pub inserted :
      Option ℕ → Database F → Option (RuleEvaluation F) → Database F × Answer (RuleEvaluation F)
  inserted actor db none = (db, refused database_error)
  inserted actor db (some row) = (append_row actor db row, ok row)

  abbrev pub checked :
      Option ℕ → Database F → Option (RuleEvaluation F) → Database F × Answer (RuleEvaluation F)
  checked actor db none = (db, refused (evaluation_error 400))
  checked actor db (some row) = inserted actor db (flushed row)

  -- From the rule that the session finds.
  abbrev pub recorded_for :
      ℕ
      → ℕ
      → Option ℕ
      → Option Text
      → Results F
      → Database F
      → Option SigmaRule
      → Database F × Answer (RuleEvaluation F)
  recorded_for new_id now actor evaluator results db none = (db, refused (evaluation_error 404))
  recorded_for new_id now actor evaluator results db (some rule) =
      checked actor db (validated new_id now rule.id evaluator results)

  unfoldable pub record_evaluation :
      ℕ
      → ℕ
      → Option ℕ
      → ℕ
      → Option Text
      → Results F
      → Database F
      → Database F × Answer (RuleEvaluation F)
  unfolding validated flushed append_row first
  record_evaluation new_id now actor rule_id evaluator results db =
      recorded_for new_id now actor evaluator results db (first (λ r. r.id == rule_id) db.rules)

module _ {F : Type 0} where
  abbrev pub flag : ℕ → RuleEvaluation F → RuleEvaluation F
  flag id r = if r.id == id then record r { contributed_to_commons = true } else r

  -- From the row that the session finds.
  abbrev pub marked :
      ℕ → Option ℕ → Database F → Option (RuleEvaluation F) → Database F × Answer (RuleEvaluation F)
  marked id actor db none = (db, refused (evaluation_error 404))
  marked id actor db (some row) = (
    record {
      rules = db.rules;
      rows = map (flag id) db.rows;
      audit_log =
          db.audit_log
          ++ (record {
            entity_id = id;
            action = contributed row.contributed_to_commons;
            actor = actor;
          }
              ∷ []);
    },
    ok record row { contributed_to_commons = true },
  )

  unfoldable pub mark_contributed :
      ℕ → Option ℕ → Database F → Database F × Answer (RuleEvaluation F)
  unfolding first
  mark_contributed id actor db = marked id actor db (first (λ r. r.id == id) db.rows)

  -- `EvaluationStore.get`
  abbrev pub get_evaluation : ℕ → Database F → Option (RuleEvaluation F)
  get_evaluation id db = first (λ r. r.id == id) db.rows

  unfoldable pub list_for_rule : ℕ → ℕ → ℕ → Database F → List (RuleEvaluation F)
  unfolding sorted
  list_for_rule rule_id limit offset db = take (max 1 limit) (
      drop offset (
        sorted (λ a b. leb b.evaluated_at a.evaluated_at)
          (select (λ r. r.sigma_rule_id == rule_id) db.rows)))

  unfoldable pub aggregate : Floats F → ℕ → Database F → AggregateStats F
  unfolding aggregate_stats
  aggregate floats rule_id db =
      aggregate_stats floats rule_id (select (λ r. r.sigma_rule_id == rule_id) db.rows)
