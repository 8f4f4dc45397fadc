-- ===== src/Queue.antt =====
-- queue/manager.py: the lifecycle of a review queue item and of its rule. Clock, routing, transport
-- of a pull request, validator and hash are arguments. An `Exception` of the transport is `none`.
pub mod Decide
pub mod Laws
use fragchain_core.Prelude.{
  ℕ, String, Bool, true, false, not, ◌&&◌, Option, none, some, List, [], ◌∷◌, ◌++◌, ◌==◌, codes,
  strip, is_some, if◌then◌else◌, fstring,
}

pub data Status : Type 0 where
  pending in_review approved rejected superseded : Status

-- `ReviewQueueItem`
pub record Item : Type 0 where
  pub id : ℕ
  pub sigma_rule_id : ℕ
  pub status : Status
  pub assigned_to : Option (List ℕ)
  pub completed_at : Option ℕ

-- `SigmaRule`
pub record Rule : Type 0 where
  pub id : ℕ
  pub status : String
  pub reviewed_by : Option String
  pub reviewed_at : Option ℕ
  pub review_notes : Option String
  pub sigma_yaml : List ℕ
  pub content_hash : String
  pub git_pr_url : Option String
  pub merged_at : Option ℕ

pub record Target : Type 0 where
  pub id : ℕ
  pub enabled : Bool

-- A row of `audit_log`: what was acted on, the action, the actor and the reason.
pub record Entry : Type 0 where
  pub entity_type : String
  pub entity_id : ℕ
  pub action : String
  pub actor : Option ℕ
  pub reason : Option (List ℕ)

-- The session: the rows by id.
pub record Db : Type 0 where
  pub items : ℕ → Option Item
  pub rules : ℕ → Option Rule
  pub targets : ℕ → Option Target
  pub audit_log : List Entry

-- `QueueActionError`, by its `status_code`, or the result; the session is what is left behind.
pub data Result (A : Type 0) : Type 0 where
  ok : A → Result A
  error : ℕ → Result A

abbrev pub put : {A : Type 0} → (ℕ → Option A) → ℕ → A → ℕ → Option A
put rows k a j = if j == k then some a else rows j

abbrev pub save_item : Item → Db → Db
save_item i db = record db { items = put db.items i.id i }

abbrev pub save_rule : Rule → Db → Db
save_rule r db = record db { rules = put db.rules r.id r }

abbrev pub log : Entry → Db → Db
log e db = record db { audit_log = db.audit_log ++ (e ∷ []) }

-- in _TERMINAL_QUEUE_STATUSES
unfoldable pub is_terminal : Status → Bool
is_terminal approved = true
is_terminal rejected = true
is_terminal _ = false

unfoldable pub load_pair : Db → ℕ → Result (Item × Rule)
load_pair db item_id = elim (db.items item_id) [
  | none ↦ error 404
  | some i ↦ elim (db.rules i.sigma_rule_id) [ none ↦ error 409 | some r ↦ ok (i, r) ]
]

unfoldable pub guard_action : Item → Option ℕ
unfolding is_terminal
guard_action i = if is_terminal i.status then some 409 else none

unfoldable pub prior_status_for_assign : Item → Option (List ℕ) → Status
prior_status_for_assign i previous = elim i.status [
  | in_review ↦ if is_some previous then in_review else pending
  | pending ↦ pending
  | approved ↦ approved
  | rejected ↦ rejected
  | superseded ↦ superseded
]

-- `assigned_to.strip()` if that is not blank
unfoldable pub assignee : Option (List ℕ) → Option (List ℕ)
unfolding strip
assignee none = none
assignee (some name) = elim (strip name) [ [] ↦ none | c ∷ rest ↦ some (c ∷ rest) ]

-- The row after an assignment.
unfoldable pub assigned : Item → Option (List ℕ) → Item
assigned i new_value = record i {
  assigned_to = new_value;
  status = elim i.status [
    | pending ↦ if is_some new_value then in_review else pending
    | in_review ↦ in_review
    | approved ↦ approved
    | rejected ↦ rejected
    | superseded ↦ superseded
  ];
}

unfoldable pub assign : Db → ℕ → Option ℕ → Option (List ℕ) → Db × Result Item
unfolding load_pair is_terminal assignee assigned
assign db item_id actor_id assigned_to = elim (load_pair db item_id) [
  | error code ↦ (db, error code)
  | ok pair ↦
      let i = assigned pair.0 (assignee assigned_to) in
      if is_terminal pair.0.status then (db, error 409) else (
        log
            record {
              entity_type = "review_queue";
              entity_id = i.id;
              action = "queue.assigned";
              actor = actor_id;
              reason = none;
            }
            (save_item i db),
        ok i,
      )
]

-- The two writes and the two audit rows that approval and rejection share: `outcome` is the status.
unfoldable pub decide_rows :
    ℕ → Status → String → Option String → Option ℕ → Option (List ℕ) → Item → Rule → Db → Db
decide_rows now outcome word reviewer actor_id reason i r db =
    log
      record {
        entity_type = "review_queue";
        entity_id = i.id;
        action = fstring ("queue." ∷ word ∷ []);
        actor = actor_id;
        reason = reason;
      }
      (log
        record {
          entity_type = "sigma_rule";
          entity_id = r.id;
          action = fstring ("sigma_rule." ∷ word ∷ []);
          actor = actor_id;
          reason = reason;
        }
        (save_item (record i { status = outcome; completed_at = some now })
          (save_rule (record r { status = word; reviewed_by = reviewer; reviewed_at = some now })
            db)))
