-- ===== src/RuleSupersession.antt =====
-- assessments/rule_supersession.py: a new rule supersedes the pending queue rows and deprecates the
-- approved rules of the same CVE, technique and profile.
pub mod Laws
use fragchain_core.Prelude.{
  ℕ, String, Bool, true, false, not, ◌&&◌, Option, none, some, List, [], ◌∷◌, any, select, map,
  length, ◌==◌, str_eq, is_some, if◌then◌else◌,
}
use fragchain_core.Queue.{Status, pending, in_review, approved, rejected, superseded}

-- The columns of `ReviewQueueItem` and of `SigmaRule` that are read or written.
pub record QueueRow : Type 0 where
  pub id : ℕ
  pub sigma_rule_id : ℕ
  pub status : Status
  pub superseded_by_assessment_id : Option ℕ

pub record SigmaRule : Type 0 where
  pub id : ℕ
  pub cve_id : ℕ
  pub technique_ids : List String
  pub logsource_profile : String
  pub status : String
  pub deprecated_at : Option ℕ
  pub deprecated_by_rule_id : Option ℕ
  pub deprecated_by_assessment_id : Option ℕ

pub record Tables : Type 0 where
  pub queue : List QueueRow
  pub rules : List SigmaRule

pub record Triple : Type 0 where
  pub cve_id : ℕ
  pub technique_id : String
  pub profile_name : String

abbrev pub is_pending : Status → Bool
is_pending pending = true
is_pending _ = false

-- technique_ids == [technique_id]
abbrev pub is_only : String → List String → Bool
is_only technique_id [] = false
is_only technique_id (t ∷ []) = str_eq t technique_id
is_only technique_id (t ∷ u ∷ rest) = false

unfoldable pub of_triple : Triple → SigmaRule → Bool
of_triple key r =
    r.cve_id == key.cve_id
    && is_only key.technique_id r.technique_ids
    && str_eq r.logsource_profile key.profile_name

-- The join of a queue row with its rule.
unfoldable pub row_of_triple : Triple → List SigmaRule → QueueRow → Bool
unfolding of_triple
row_of_triple key rules q = any (λ r. r.id == q.sigma_rule_id && of_triple key r) rules

unfoldable pub is_replaced : Triple → List SigmaRule → ℕ → QueueRow → Bool
unfolding row_of_triple
is_replaced key rules new_rule_id q =
    row_of_triple key rules q
    && is_pending q.status
    && not (q.sigma_rule_id == new_rule_id)
    && not (is_some q.superseded_by_assessment_id)

unfoldable pub is_deprecated : Triple → ℕ → SigmaRule → Bool
unfolding of_triple
is_deprecated key new_rule_id r =
    of_triple key r
    && str_eq r.status "approved"
    && not (is_some r.deprecated_at)
    && not (r.id == new_rule_id)

unfoldable pub replace_row : Triple → List SigmaRule → ℕ → ℕ → QueueRow → QueueRow
unfolding is_replaced
replace_row key rules new_rule_id assessment_id q =
    if is_replaced key rules new_rule_id q
    then record q { status = superseded; superseded_by_assessment_id = some assessment_id }
    else q

unfoldable pub deprecate_rule : ℕ → Triple → ℕ → ℕ → SigmaRule → SigmaRule
unfolding is_deprecated
deprecate_rule now key new_rule_id assessment_id r =
    if is_deprecated key new_rule_id r
    then record r {
      deprecated_at = some now;
      deprecated_by_rule_id = some new_rule_id;
      deprecated_by_assessment_id = some assessment_id;
    }
    else r

-- The tables, and `pending_superseded` and `approved_deprecated`.
unfoldable pub supersede_prior_for_triple : ℕ → Triple → ℕ → ℕ → Tables → Tables × ℕ × ℕ
unfolding replace_row deprecate_rule
supersede_prior_for_triple now key new_rule_id assessment_id db = (
  record {
    queue = map (replace_row key db.rules new_rule_id assessment_id) db.queue;
    rules = map (deprecate_rule now key new_rule_id assessment_id) db.rules;
  },
  length (select (is_replaced key db.rules new_rule_id) db.queue),
  length (select (is_deprecated key new_rule_id) db.rules),
)
