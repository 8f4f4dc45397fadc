-- ===== src/Queue/Decide.antt =====
-- queue/manager.py: approval, rejection and edit of a queue item.
use fragchain_core.Prelude.{
  ℕ, String, Bool, true, false, Option, none, some, List, [], ◌∷◌, strip, is_some, if◌then◌else◌,
}
use fragchain_core.Queue.{
  Item, Rule, Target, Db, Result, save_rule, log, load_pair, guard_action, decide_rows, approved,
  rejected, ok, error,
}

pub record SubmitOutcome : Type 0 where
  pub created : Bool
  pub url : Option String

pub record ApproveOutcome : Type 0 where
  pub rule_id : ℕ
  pub queue_id : ℕ
  pub target_id : Option ℕ
  pub pr_submitted : Bool
  pub pr_url : Option String

pub data Validation : Type 0 where
  timed_out invalid valid : Validation

module _ (now : ℕ) (route : Db → Rule → Option ℕ)
    (submit_rule : Rule → Target → Rule × Option SubmitOutcome)
    (append_note : Option String → List ℕ → Option String → String) (validate : List ℕ → Validation)
    (hash : List ℕ → String) where
  unfoldable pub select_target : Db → Rule → Option ℕ → Result (Option Target)
  select_target db r (some target_id) = elim (db.targets target_id) [
    | none ↦ error 404
    | some t ↦ if t.enabled then ok (some t) else error 409
  ]
  select_target db r none = elim (route db r) [
    | none ↦ ok none
    | some target_id ↦ ok (db.targets target_id)
  ]

  -- the rule as the transport leaves it, and the outcome
  unfoldable pub submit_pr : Rule → Target → Rule × SubmitOutcome
  submit_pr r t =
      let result = submit_rule r t in
      elim result.1 [
        | some outcome ↦ (result.0, outcome)
        | none ↦ (result.0, record { created = false; url = none })
      ]

  unfoldable pub approve_local_only :
      Option String → Option ℕ → Item → Rule → Db → Db × Result ApproveOutcome
  unfolding decide_rows
  approve_local_only reviewer actor_id i r db = (
    decide_rows now approved "approved" reviewer actor_id none i r db,
    ok record {
      rule_id = r.id;
      queue_id = i.id;
      target_id = none;
      pr_submitted = false;
      pr_url = none;
    },
  )

  -- What follows the commit of the approval: the outcome of the transport and its audit row.
  unfoldable pub submitted :
      Option ℕ → Item → Target → Rule × SubmitOutcome → Db → Db × Result ApproveOutcome
  submitted actor_id i t (r, outcome) db =
      let merged =
        if outcome.created
        then if is_some r.merged_at then r.merged_at else some now
        else r.merged_at in
      (
        log
            record {
              entity_type = "sigma_rule";
              entity_id = r.id;
              action =
                  if outcome.created then "sigma_rule.pr_submitted" else "sigma_rule.pr_failed";
              actor = actor_id;
              reason = none;
            }
            (save_rule (record r { merged_at = merged }) db),
        ok record {
          rule_id = r.id;
          queue_id = i.id;
          target_id = some t.id;
          pr_submitted = outcome.created;
          pr_url = outcome.url;
        },
      )

  unfoldable pub approve_pair :
      Option String → Option ℕ → Option ℕ → Bool → Item → Rule → Db → Db × Result ApproveOutcome
  unfolding approve_local_only select_target decide_rows submit_pr submitted
  approve_pair reviewer actor_id target_id true i r db = approve_local_only reviewer actor_id i r db
  approve_pair reviewer actor_id target_id false i r db = elim (select_target db r target_id) [
    | error code ↦ (db, error code)
    | ok none ↦ (db, error 409)
    | ok (some t) ↦
        submitted actor_id i t
          (submit_pr
            (record r { status = "approved"; reviewed_by = reviewer; reviewed_at = some now }) t)
          (decide_rows now approved "approved" reviewer actor_id none i r db)
  ]

  unfoldable pub approve :
      Db → ℕ → Option String → Option ℕ → Option ℕ → Bool → Db × Result ApproveOutcome
  unfolding load_pair guard_action approve_pair
  approve db item_id reviewer actor_id target_id skip_pr = elim (load_pair db item_id) [
    | error code ↦ (db, error code)
    | ok pair ↦ elim (guard_action pair.0) [
      | some code ↦ (db, error code)
      | none ↦ approve_pair reviewer actor_id target_id skip_pr pair.0 pair.1 db
    ]
  ]

  unfoldable pub reject : Db → ℕ → Option String → Option ℕ → List ℕ → Db × Result (List ℕ)
  unfolding strip load_pair guard_action decide_rows
  reject db item_id reviewer actor_id reason = elim (strip reason) [
    | [] ↦ (db, error 400)
    | c ∷ rest ↦ elim (load_pair db item_id) [
      | error code ↦ (db, error code)
      | ok pair ↦ elim (guard_action pair.0) [
        | some code ↦ (db, error code)
        | none ↦
            let noted = record pair.1 {
              review_notes = some (append_note pair.1.review_notes (c ∷ rest) reviewer);
            } in
            (
              decide_rows now rejected "rejected" reviewer actor_id (some (c ∷ rest)) pair.0 noted
                  db,
              ok (c ∷ rest),
            )
      ]
    ]
  ]

  -- The session after the edit, before the approval.
  unfoldable pub edited : Option ℕ → List ℕ → Rule → Db → Db
  edited actor_id new_yaml r db =
      log
        record {
          entity_type = "sigma_rule";
          entity_id = r.id;
          action = "sigma_rule.edited";
          actor = actor_id;
          reason = none;
        }
        (save_rule (record r { sigma_yaml = new_yaml; content_hash = hash new_yaml }) db)

  unfoldable pub edit_and_approve :
      Db → ℕ → Option String → Option ℕ → List ℕ → Option ℕ → Db × Result ApproveOutcome
  unfolding strip load_pair guard_action edited approve
  edit_and_approve db item_id reviewer actor_id new_yaml target_id = elim (strip new_yaml) [
    | [] ↦ (db, error 400)
    | c ∷ rest ↦ elim (load_pair db item_id) [
      | error code ↦ (db, error code)
      | ok pair ↦ elim (guard_action pair.0) [
        | some code ↦ (db, error code)
        | none ↦ elim (validate new_yaml) [
          | timed_out ↦ (db, error 400)
          | invalid ↦ (db, error 400)
          | valid ↦
              approve (edited actor_id new_yaml pair.1 db) pair.0.id reviewer actor_id target_id
                false
        ]
      ]
    ]
  ]
