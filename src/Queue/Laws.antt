-- ===== src/Queue/Laws.antt =====
-- What the lifecycle of a review queue item keeps.
use fragchain_core.Prelude.{
  ℕ, String, Bool, true, false, Option, some, List, ◌≡◌, refl, arith, strip, ◌==◌,
}
use fragchain_core.Queue.{
  approved, rejected, Item, Rule, Target, Db, Result, ok, error, is_terminal, load_pair,
  guard_action, assign, decide_rows,
}
use fragchain_core.Queue.Decide.{
  SubmitOutcome, ApproveOutcome, Validation, valid, submitted, approve_pair, approve_local_only,
  approve, reject, edit_and_approve,
}

-- Whether an operation returned.
abbrev pub is_ok : {A : Type 0} → Result A → Bool
is_ok (ok _) = true
is_ok (error _) = false

==-refl : (n : ℕ) → (n == n) ≡ true
==-refl n = ground arith

abbrev pub is_accepted : Validation → Bool
is_accepted valid = true
is_accepted _ = false

load_pair-item :
    (db : Db) (item_id : ℕ) (i : Item) (pair : Item × Rule)
    → db.items item_id ≡ some i
    → load_pair db item_id ≡ ok pair
    → pair.0 ≡ i
unfolding load_pair
load_pair-item db item_id i pair at h = ground arith

guard-terminal : (i : Item) → is_terminal i.status ≡ true → guard_action i ≡ some 409
unfolding guard_action
guard-terminal i t = rw t refl

module _ (now : ℕ) (route : Db → Rule → Option ℕ)
    (submit_rule : Rule → Target → Rule × Option SubmitOutcome)
    (append_note : Option String → List ℕ → Option String → String) (validate : List ℕ → Validation)
    (hash : List ℕ → String) (db : Db) (item_id : ℕ) (reviewer : Option String)
    (actor_id target_id : Option ℕ) where
  abbrev approval : Bool → Db × Result ApproveOutcome
  approval skip_pr =
      approve now route submit_rule append_note validate hash db item_id reviewer actor_id target_id
        skip_pr

  abbrev rejection : List ℕ → Db × Result (List ℕ)
  rejection reason =
      reject now route submit_rule append_note validate hash db item_id reviewer actor_id reason

  abbrev edit : List ℕ → Db × Result ApproveOutcome
  edit new_yaml =
      edit_and_approve now route submit_rule append_note validate hash db item_id reviewer actor_id
        new_yaml target_id

  approve_pair-error :
      (skip_pr : Bool) (i : Item) (r : Rule)
      → (let out =
            approve_pair now route submit_rule append_note validate hash reviewer actor_id target_id
              skip_pr i r db in
          is_ok out.1 ≡ false → out.0 ≡ db)
  unfolding approve_pair approve_local_only submitted
  approve_pair-error true i r h = cc
  approve_pair-error false i r h = ground arith

  -- An approval that is refused, for whatever reason, leaves every row and the audit log as they
  -- were.
  pub approve-error :
      (skip_pr : Bool) → is_ok (approval skip_pr).1 ≡ false → (approval skip_pr).0 ≡ db
  unfolding approve
  approve-error skip_pr h = ground (arith, approve_pair-error skip_pr)

  -- A rejection that is refused, for whatever reason, leaves every row and the audit log as they
  -- were.
  pub reject-error :
      (reason : List ℕ) → is_ok (rejection reason).1 ≡ false → (rejection reason).0 ≡ db
  unfolding reject
  reject-error reason h = ground arith

  -- An edit whose text the validator does not accept leaves every row and the audit log as they
  -- were, and is refused.
  edit-invalid :
      (new_yaml : List ℕ)
      → is_accepted (validate new_yaml) ≡ false
      → (edit new_yaml).0 ≡ db × is_ok (edit new_yaml).1 ≡ false
  unfolding edit_and_approve
  edit-invalid new_yaml h = ground arith

  -- Once an item is approved or rejected, every operation on it is refused and leaves every row and
  -- the audit log as they were: approval, rejection, edit and assignment.
  pub refused-is_terminal :
      (i : Item)
      → db.items item_id ≡ some i
      → is_terminal i.status ≡ true
      → (skip_pr : Bool) (text : List ℕ) (assigned_to : Option (List ℕ))
      → ((approval skip_pr).0 ≡ db × is_ok (approval skip_pr).1 ≡ false)
        × ((rejection text).0 ≡ db × is_ok (rejection text).1 ≡ false)
        × ((edit text).0 ≡ db × is_ok (edit text).1 ≡ false)
        × ((assign db item_id actor_id assigned_to).0 ≡ db
            × is_ok (assign db item_id actor_id assigned_to).1 ≡ false)
  unfolding approve reject edit_and_approve assign load_pair guard_action
  refused-is_terminal i at t skip_pr text assigned_to =
      (ground (arith, at, t), ground (arith, at, t), ground (arith, at, t), ground (arith, at, t))

  -- Of an item and a rule that are stored, a rejection that returns leaves the item rejected and completed now, and its rule rejected by
  -- the reviewer now, with the note of the trimmed reason, whichever status the two had.
  reject-ok :
      (i : Item) (r : Rule)
      → db.items item_id ≡ some i
      → db.rules i.sigma_rule_id ≡ some r
      → (reason : List ℕ) → is_ok (rejection reason).1 ≡ true
      → ((rejection reason).0.items i.id
          ≡ some (record i { status = rejected; completed_at = some now }))
        × ((rejection reason).0.rules r.id
            ≡ some (record r {
              status = "rejected";
              reviewed_by = reviewer;
              reviewed_at = some now;
              review_notes = some (append_note r.review_notes (strip reason) reviewer);
            }))
  unfolding reject decide_rows load_pair
  reject-ok i r at ar reason h =
      (ground (arith, at, ar, h, ==-refl i.id), ground (arith, at, ar, h, ==-refl r.id))

  -- Of an item and a rule that are stored, an approval that returns leaves the item approved and completed now, with or without a pull
  -- request and whether or not the transport succeeded.
  pub approve-ok :
      (i : Item) (r : Rule)
      → db.items item_id ≡ some i
      → db.rules i.sigma_rule_id ≡ some r
      → (skip_pr : Bool) → is_ok (approval skip_pr).1 ≡ true
      → (approval skip_pr).0.items i.id
        ≡ some (record i { status = approved; completed_at = some now })
  unfolding approve approve_pair approve_local_only submitted decide_rows load_pair
  approve-ok i r at ar true h = ground (arith, at, ar, h, ==-refl i.id)
  approve-ok i r at ar false h = ground (arith, at, ar, h, ==-refl i.id)
