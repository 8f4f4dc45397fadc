-- ===== src/Examples/Lifecycle.antt =====
-- queue/manager.py, api/ws_tickets.py and the loops: an item that is rejected, one that is closed
-- and a ticket that is used.
use fragchain_core.Prelude.{ℕ, String, true, false, Option, none, some, List, [], ◌∷◌, ◌≡◌, refl}
use fragchain_core.Queue.{Status, approved, superseded, Item, Rule, Target, Db, assign, is_terminal}
use fragchain_core.Queue.Decide.{
  approve, reject, edit_and_approve, SubmitOutcome, Validation, invalid,
}
use fragchain_core.Queue.Laws.{is_ok, refused-is_terminal, approve-ok}
use fragchain_core.Tickets.{Records, issue, redeem}
use fragchain_core.Tickets.Laws.{redeem-redeem, redeem-issue}
use fragchain_core.LoopState.{one, two, number, succeeded, dispatch, decide_next}

abbrev item_in : Status → Item
item_in s = record {
  id = 1;
  sigma_rule_id = 2;
  status = s;
  assigned_to = none;
  completed_at = none;
}

abbrev rule : Rule
rule = record {
  id = 2;
  status = "draft";
  reviewed_by = none;
  reviewed_at = none;
  review_notes = none;
  sigma_yaml = 116 ∷ [];
  content_hash = "h";
  git_pr_url = none;
  merged_at = none;
}

abbrev db_in : Status → Db
db_in s = record {
  items = λ i. some (item_in s);
  rules = λ i. some rule;
  targets = λ i. none;
  audit_log = [];
}

abbrev no_route : Db → Rule → Option ℕ
no_route db r = none

abbrev down : Rule → Target → Rule × Option SubmitOutcome
down r t = (r, none)

abbrev note : Option String → List ℕ → Option String → String
note old reason actor = "rejected"

abbrev refuse : List ℕ → Validation
refuse y = invalid

abbrev hash_of : List ℕ → String
hash_of y = "h2"

abbrev closed : Db
closed = db_in approved

abbrev open_db : Db
open_db = db_in superseded

abbrev terminal : is_terminal approved ≡ true
unfolding is_terminal
terminal = refl

refused-is_terminal_example :
    ((approve 9 no_route down note refuse hash_of closed 1 none none none true).0 ≡ closed
      × is_ok (approve 9 no_route down note refuse hash_of closed 1 none none none true).1 ≡ false)
    × ((reject 9 no_route down note refuse hash_of closed 1 none none (116 ∷ [])).0 ≡ closed
        × is_ok (reject 9 no_route down note refuse hash_of closed 1 none none (116 ∷ [])).1
          ≡ false)
    × ((edit_and_approve 9 no_route down note refuse hash_of closed 1 none none (116 ∷ []) none).0
          ≡ closed
        × is_ok
            (edit_and_approve 9 no_route down note refuse hash_of closed 1 none none
              (116 ∷ [])
              none).1
          ≡ false)
    × ((assign closed 1 none none).0 ≡ closed × is_ok (assign closed 1 none none).1 ≡ false)
refused-is_terminal_example =
    refused-is_terminal 9 no_route down note refuse hash_of closed 1 none none none
      (item_in approved) refl terminal true (116 ∷ []) none

reject_returns :
    is_ok (reject 9 no_route down note refuse hash_of open_db 1 none none (116 ∷ [])).1 ≡ true
unfolding reject
reject_returns = refl

approve_returns :
    is_ok (approve 9 no_route down note refuse hash_of open_db 1 none none none true).1 ≡ true
unfolding approve
approve_returns = refl

approve-ok_example :
    (approve 9 no_route down note refuse hash_of open_db 1 none none none true).0.items 1
    ≡ some (record (item_in superseded) { status = approved; completed_at = some 9 })
approve-ok_example =
    approve-ok 9 no_route down note refuse hash_of open_db 1 none none none (item_in superseded)
      rule refl refl true approve_returns

approve_fails :
    is_ok (approve 9 no_route down note refuse hash_of open_db 1 none none none false).1 ≡ false
unfolding approve
approve_fails = refl

reject_fails :
    is_ok (reject 9 no_route down note refuse hash_of open_db 1 none none (32 ∷ [])).1 ≡ false
unfolding reject
reject_fails = refl

abbrev stored : Records
stored = issue 100 60 "t" 7 "ann" "member" "GREEN" []

redeem-redeem_example : redeem 120 "t" (redeem 110 "t" stored).0 ≡ ((redeem 110 "t" stored).0, none)
redeem-redeem_example = redeem-redeem 110 120 "t" stored

redeem-issue_example :
    (redeem 160 "t" (issue 100 60 "t" 7 "ann" "member" "GREEN" [])).1
    ≡ some record {
      user_id = 7;
      username = "ann";
      tier = "member";
      clearance = "GREEN";
      expires_at = 160;
    }
redeem-issue_example = redeem-issue 100 60 160 "t" 7 "ann" "member" "GREEN" [] refl

dispatched : decide_next succeeded (number one) true ≡ dispatch (number two)
unfolding number decide_next
dispatched = refl
