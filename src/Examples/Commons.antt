-- ===== src/Examples/Commons.antt =====
-- commons/ and evaluations/: two sources of which one takes contributions, and an evaluation of a rule
-- that is submitted, marked and no longer pending. A number stands for a floating-point number.
use mathlib.Core.List.{Memᴰ}
use fragchain_core.Prelude.{
  ◌↔◌, ℕ, Bool, true, false, any, Option, none, some, List, [], ◌∷◌, ◌+◌, ◌/◌, ltb, ◌==◌, select,
  codes, if◌then◌else◌, ◌≡◌, refl, All, arith,
}
use fragchain_core.Commons.{
  Text, ℤ, pos, negsuc, CommonsSource, ChainRow, select_winning_chain, PullRequestResult,
  contribute_chain, is_wanted, list_contribute_sources,
}
use fragchain_core.Commons.Rank.{IsAtMost}
use fragchain_core.Commons.Winner.{select_winning_chain-top}
use fragchain_core.Commons.Laws.{MayOpen, IsBatch, contribute_chain-MayOpen}
use fragchain_core.Evaluations.{Floats, null, integer, text, RuleEvaluation}
use fragchain_core.Evaluations.Store.{
  SigmaRule, Results, Database, ok, record_evaluation, mark_contributed,
}
use fragchain_core.Evaluations.Sweep.{PendingEvaluation, identify_rules_pending_evaluation}
use fragchain_core.Evaluations.Laws.{IsKept, Reach, here, records, marks, Reach-IsKept}
use fragchain_core.Evaluations.Pending.{recorded-not_pending}

abbrev public_feed : CommonsSource
public_feed = record {
  id = 1;
  sync_enabled = true;
  contribute_enabled = true;
  priority = pos 0;
  trust_level = codes "community";
}

abbrev partner_feed : CommonsSource
partner_feed = record public_feed {
  id = 2;
  contribute_enabled = false;
  trust_level = codes "partner";
}

abbrev old_chain : ChainRow
old_chain = record { chain_id = 10; version = some (pos 9); source = public_feed }

abbrev partner_chain : ChainRow
partner_chain = record { chain_id = 11; version = none; source = partner_feed }

partner_wins : select_winning_chain (old_chain ∷ partner_chain ∷ []) ≡ some partner_chain
unfolding select_winning_chain
partner_wins = refl

select_winning_chain-top_example :
    Memᴰ partner_chain (old_chain ∷ partner_chain ∷ [])
    × All (λ r. IsAtMost r partner_chain) (old_chain ∷ partner_chain ∷ [])
select_winning_chain-top_example =
    select_winning_chain-top (old_chain ∷ partner_chain ∷ []) partner_chain partner_wins

-- A payload is its level.
abbrev level_of : Option Text → Option Text
level_of tlp = tlp

abbrev branch : CommonsSource → Text
branch s = codes "fragchain/contrib/1"

abbrev open_pr : CommonsSource → Option Text → Option PullRequestResult
open_pr s tlp = some record { created = true; url = none; number = some 4; branch = none }

abbrev connects : CommonsSource → Bool
connects s = true

abbrev feeds : List CommonsSource
feeds = public_feed ∷ partner_feed ∷ []

one_call :
    (contribute_chain level_of branch open_pr connects feeds none (some (codes "TLP:Clear"))).1
    ≡ (public_feed, some (codes "TLP:Clear")) ∷ []
unfolding contribute_chain
one_call = refl

not_clear :
    (contribute_chain level_of branch open_pr connects feeds none (some (codes "tlp:green"))).1 ≡ []
unfolding contribute_chain
not_clear = refl

contribute_chain-MayOpen_example :
    let batch =
      contribute_chain level_of branch open_pr connects feeds none (some (codes "TLP:Clear")) in
    let eligible = select (is_wanted none) (list_contribute_sources feeds) in
    All (MayOpen level_of branch open_pr (is_wanted none) (some (codes "TLP:Clear"))) batch.1
    × IsBatch level_of branch open_pr connects eligible batch.1 batch.0
    × ((s : CommonsSource)
        → Memᴰ s eligible
          ↔ (Memᴰ s feeds × (s.contribute_enabled ≡ true) × (is_wanted none s ≡ true)))
contribute_chain-MayOpen_example =
    contribute_chain-MayOpen level_of branch open_pr connects feeds none (some (codes "TLP:Clear"))

abbrev natural_number : ℤ → ℕ
natural_number (pos n) = n
natural_number (negsuc n) = 0

abbrev whole : Floats ℕ
whole = record {
  of_int = natural_number;
  of_text = λ t. none;
  int_of_text = λ t. none;
  as_integer = λ n. some (pos n);
  is_below = ltb;
  add = λ m n. m + n;
  divide = λ m n. m / n;
  stored = λ n. if ltb 9999 n then none else some n;
}

whole-keeps :
    (f g : ℕ) → whole.stored f ≡ some g → whole.is_below f 0 ≡ false → whole.is_below g 0 ≡ false
whole-keeps f g h k = ground arith

abbrev merged_rule : SigmaRule
merged_rule = record {
  id = 5;
  title = codes "Web shell";
  origin = codes "fragchain";
  status = codes "merged";
  reviewed_at = some 1000;
}

abbrev unevaluated : Database ℕ
unevaluated = record { rules = merged_rule ∷ []; rows = []; audit_log = [] }

abbrev submission : Results ℕ
submission = record {
  environment_platform = text (codes " splunk ");
  environment_logsource = null;
  environment_scale = text (codes "small");
  true_positives = integer (pos 3);
  false_positives_per_day = integer (pos 2);
  query_cost = null;
  deployment_complexity = null;
  notes = null;
}

abbrev row : RuleEvaluation ℕ
row = record {
  id = 70;
  sigma_rule_id = 5;
  evaluator_username = none;
  evaluated_at = 2000;
  environment_platform = some (codes "splunk");
  environment_logsource = none;
  environment_scale = some (codes "small");
  true_positives = some 3;
  false_positives_per_day = some 2;
  query_cost = none;
  deployment_complexity = none;
  notes = none;
  contributed_to_commons = false;
}

abbrev evaluated : Database ℕ
evaluated = (record_evaluation whole 70 2000 none 5 none submission unevaluated).0

one_evaluation :
    record_evaluation whole 70 2000 none 5 none submission unevaluated ≡ (evaluated, ok row)
unfolding record_evaluation
one_evaluation = refl

abbrev marked_database : Database ℕ
marked_database = (mark_contributed 70 none evaluated).0

marked_rows : marked_database.rows ≡ (record row { contributed_to_commons = true } ∷ [])
unfolding record_evaluation mark_contributed
marked_rows = refl

unevaluated-IsKept : IsKept whole unevaluated
unfolding IsKept
unevaluated-IsKept = (refl, refl, refl)

Reach-IsKept_example : IsKept whole marked_database
Reach-IsKept_example =
    Reach-IsKept whole whole-keeps
      (Reach.next (Reach.next here (records 70 2000 none 5 none submission unevaluated))
        (marks 70 none evaluated))
      unevaluated-IsKept

pending_before :
    identify_rules_pending_evaluation (pos 7) 900000 10 unevaluated
    ≡ some (
        record {
          sigma_rule_id = 5;
          title = codes "Web shell";
          reviewed_at = 1000;
          days_since_review = 10;
        }
        ∷ [])
unfolding identify_rules_pending_evaluation
pending_before = refl

pending_after : identify_rules_pending_evaluation (pos 7) 900000 10 evaluated ≡ some []
unfolding identify_rules_pending_evaluation record_evaluation
pending_after = refl

recorded-not_pending_example : any (λ (p : PendingEvaluation). p.sigma_rule_id == 5) [] ≡ false
recorded-not_pending_example =
    recorded-not_pending whole 70 2000 none 5 none submission unevaluated evaluated row (pos 7)
      900000 10 [] one_evaluation pending_after
