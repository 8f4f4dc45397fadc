-- ===== src/Evaluations/Sweep.antt =====
-- evaluations/store.py: the rules whose evaluation is pending.
use fragchain_core.Prelude.{
  ℕ, Bool, false, not, ◌&&◌, ◌||◌, any, Option, none, some, List, ◌+◌, ◌-◌, ◌*◌, ◌/◌, max, leb,
  ◌==◌, codes, same_codes, map, select, if◌then◌else◌,
}
use fragchain_core.Chunking.{take}
use fragchain_core.Router.Plan.{sorted}
use fragchain_core.Commons.{ℤ, pos, negsuc}
use fragchain_core.Evaluations.{Text, is_empty, RuleEvaluation}
use fragchain_core.Evaluations.Store.{SigmaRule, Database}

pub record PendingEvaluation : Type 0 where
  pub sigma_rule_id : ℕ
  pub title : Text
  pub reviewed_at : ℕ
  pub days_since_review : ℕ

abbrev pub seconds_of_day : ℕ
seconds_of_day = 86400

-- reviewed_at is set and at most now - window_days
abbrev pub reviewed_before : ℕ → ℕ → Option ℕ → Bool
reviewed_before now window_days none = false
reviewed_before now window_days (some t) = leb (t + window_days * seconds_of_day) now

abbrev pub time_or_zero : Option ℕ → ℕ
time_or_zero none = 0
time_or_zero (some t) = t

abbrev pub pending_of : ℕ → SigmaRule → PendingEvaluation
pending_of now rule = record {
  sigma_rule_id = rule.id;
  title = if is_empty rule.title then codes "(no title)" else rule.title;
  reviewed_at = time_or_zero rule.reviewed_at;
  days_since_review = (now - time_or_zero rule.reviewed_at) / seconds_of_day;
}

module _ {F : Type 0} where
  unfoldable pub is_pending : ℕ → ℕ → List (RuleEvaluation F) → SigmaRule → Bool
  is_pending now window_days rows rule =
      reviewed_before now window_days rule.reviewed_at
      && (same_codes rule.status (codes "submitted") || same_codes rule.status (codes "merged"))
      && same_codes rule.origin (codes "fragchain")
      && not (any (λ e. e.sigma_rule_id == rule.id) rows)

  -- none is the ValueError of a window below zero.
  unfoldable pub identify_rules_pending_evaluation :
      ℤ → ℕ → ℕ → Database F → Option (List PendingEvaluation)
  unfolding is_pending sorted
  identify_rules_pending_evaluation (negsuc window_days) now limit db = none
  identify_rules_pending_evaluation (pos window_days) now limit db = some (
      map (pending_of now) (
        take (max 1 limit) (
          sorted (λ a b. leb (time_or_zero a.reviewed_at) (time_or_zero b.reviewed_at))
            (select (is_pending now window_days db.rows) db.rules))))
