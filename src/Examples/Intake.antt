-- ===== src/Examples/Intake.antt =====
-- vector/embedder.py, security/webhook_hardening.py, sigma/targets.py and rule_supersession.py: a
-- short text in chunks, a nested body, a repeated request, a routed rule and a superseded one.
use fragchain_core.Prelude.{
  ℕ, String, true, false, Option, none, some, List, [], ◌∷◌, ◌≡◌, ◌≢◌, refl, arith,
}
use fragchain_core.Queue.{pending, superseded}
use fragchain_core.RuleSupersession.{
  QueueRow, SigmaRule, Tables, Triple, supersede_prior_for_triple,
}
use fragchain_core.RuleSupersession.Laws.{Updated, IsPriorRow, IsPriorRule, supersede-Updated}
use fragchain_core.Chunking.{split, no_fuel, chunk_text}
use fragchain_core.Chunking.Laws.{reassemble, reassemble-split, chunk_text-ne-no_fuel}
use fragchain_core.WebhookHardening.{Cache}
use fragchain_core.Routing.{bool, Expr, RuleContext, lookup_name}
use fragchain_core.Routing.Select.{SigmaTarget, select_target}

abbrev key : Triple
key = record { cve_id = 1; technique_id = "T1190"; profile_name = "linux" }

abbrev old_rule : SigmaRule
old_rule = record {
  id = 2;
  cve_id = 1;
  technique_ids = "T1190" ∷ [];
  logsource_profile = "linux";
  status = "approved";
  deprecated_at = none;
  deprecated_by_rule_id = none;
  deprecated_by_assessment_id = none;
}

abbrev tables : Tables
tables = record {
  queue =
      record { id = 4; sigma_rule_id = 2; status = pending; superseded_by_assessment_id = none }
      ∷ [];
  rules = old_rule ∷ [];
}

abbrev next_row : QueueRow
next_row = record {
  id = 4;
  sigma_rule_id = 2;
  status = superseded;
  superseded_by_assessment_id = some 9;
}

one_each : (supersede_prior_for_triple 100 key 3 9 tables).0.queue ≡ next_row ∷ []
unfolding supersede_prior_for_triple
one_each = refl

supersede-Updated_example :
    let (after, pending_superseded, approved_deprecated) =
      supersede_prior_for_triple 100 key 3 9 tables in
    Updated
      (IsPriorRow key tables.rules 3)
      (λ q. record q { status = superseded; superseded_by_assessment_id = some 9 })
      pending_superseded
      tables.queue
      after.queue
    × Updated
        (IsPriorRule key 3)
        (λ r. record r {
          deprecated_at = some 100;
          deprecated_by_rule_id = some 3;
          deprecated_by_assessment_id = some 9;
        })
        approved_deprecated
        tables.rules
        after.rules
supersede-Updated_example = supersede-Updated 100 key 3 9 tables

abbrev tokens : List ℕ
tokens = 1 ∷ 2 ∷ 3 ∷ 4 ∷ 5 ∷ []

in_two : split 3 1 2 tokens ≡ some ((1 ∷ 2 ∷ 3 ∷ []) ∷ (3 ∷ 4 ∷ 5 ∷ []) ∷ [])
unfolding split
in_two = refl

reassemble-split_example : reassemble 1 ((1 ∷ 2 ∷ 3 ∷ []) ∷ (3 ∷ 4 ∷ 5 ∷ []) ∷ []) ≡ tokens
reassemble-split_example =
    reassemble-split 3 1 2 tokens ((1 ∷ 2 ∷ 3 ∷ []) ∷ (3 ∷ 4 ∷ 5 ∷ []) ∷ []) (omega arith)
      (omega arith) (omega arith) in_two

chunk_text-ne-no_fuel_example : chunk_text none tokens 1 0 1 ≢ no_fuel
chunk_text-ne-no_fuel_example = chunk_text-ne-no_fuel none tokens 1 0 1

abbrev seen : Cache
seen = record { key = "a"; result = "old"; expires_at = 90 } ∷ []

abbrev context : RuleContext
context = record {
  tlp = "tlp:clear";
  level = none;
  status = "approved";
  origin = "fragchain";
  logsource_product = none;
  logsource_service = none;
  logsource_profile = none;
  technique_ids = [];
  tags = [];
}

abbrev no_condition : String → Option Expr
no_condition s = none

abbrev fallback : SigmaTarget
fallback = record { id = 1; name = "main"; enabled = true; is_default = true; routing_rules = [] }

to_fallback : select_target no_condition context (fallback ∷ []) ≡ some (some fallback)
unfolding select_target
to_fallback = refl

bareword : lookup_name context "typo" ≡ bool false
unfolding lookup_name
bareword = refl
