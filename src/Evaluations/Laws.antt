-- ===== src/Evaluations/Laws.antt =====
-- What the store of evaluations keeps, on every path.
use fragchain_core.Prelude.{
  ℕ, Bool, true, false, any, all, Option, none, some, List, [], ◌∷◌, ◌==◌, length, length-append,
  ◌≡◌, refl, arith, Bool-cases, inl, inr, sym, ◌∙◌, subst, &&-eq-true, ==_iff,
}
use fragchain_core.Counting.{
  length-map, first, count, first-some, count-append, all-map, all-append,
}
use fragchain_core.Evaluations.{Text, Floats, RuleEvaluation}
use fragchain_core.Evaluations.Store.{
  SigmaRule, Results, recorded, contributed, AuditLog, Database, validated, flushed, append_row,
  inserted, checked, recorded_for, marked, record_evaluation, flag, mark_contributed,
}
use fragchain_core.Evaluations.Valid.{
  is_valid_row, Ensures, is_valid_row_of, validated-is_valid_row_of,
}

abbrev pub is_recorded : AuditLog → Bool
is_recorded a = elim a.action [ recorded ↦ true | contributed before ↦ false ]

-- Every evaluation is valid and of a rule that exists, and the audit has one record of each submission.
unfoldable pub IsKept : {F : Type 0} → Floats F → Database F → Type 0
unfolding is_valid_row
IsKept floats db =
    (all (is_valid_row floats) db.rows ≡ true)
    × (all (λ e. any (λ r. r.id == e.sigma_rule_id) db.rules) db.rows ≡ true)
    × (count is_recorded db.audit_log ≡ length db.rows)

module _ {A : Type 0} (p : A → Bool) where
  pub first-any : (l : List A) (a : A) → first p l ≡ some a → any p l ≡ true
  unfolding first
  first-any [] a h = cc
  first-any (b ∷ l) a h = ground (arith, first-any l a)

abbrev pub is_known : {F : Type 0} → List SigmaRule → RuleEvaluation F → Bool
is_known rules e = any (λ r. r.id == e.sigma_rule_id) rules

module _ {F : Type 0} (floats : Floats F)
    (keeps : (f g : F)
      → floats.stored f ≡ some g
      → floats.is_below f 0 ≡ false
      → floats.is_below g 0 ≡ false) where
  stored-is_valid_row :
      (row : RuleEvaluation F) (rule_id : ℕ) (f : F) (o : Option F)
      → floats.stored f ≡ o
      → is_valid_row_of floats rule_id (record row { false_positives_per_day = some f }) ≡ true
      → Ensures
          (is_valid_row_of floats rule_id)
          (elim o [ none ↦ none | some g ↦ some record row { false_positives_per_day = some g } ])
  unfolding is_valid_row
  stored-is_valid_row row rule_id f none e h = tt
  stored-is_valid_row row rule_id f (some g) e h = ground (arith, keeps f g e)

  flushed-is_valid_row :
      (row kept : RuleEvaluation F) (rule_id : ℕ) (fp : Option F)
      → is_valid_row_of floats rule_id kept ≡ true
      → is_valid_row_of floats rule_id (record row { false_positives_per_day = fp }) ≡ true
      → Ensures (is_valid_row_of floats rule_id) (elim fp [
        | none ↦ some kept
        | some f ↦ elim (floats.stored f) [
          | none ↦ none
          | some g ↦ some record row { false_positives_per_day = some g }
        ]
      ])
  flushed-is_valid_row row kept rule_id none h k = h
  flushed-is_valid_row row kept rule_id (some f) h k =
      stored-is_valid_row row rule_id f (floats.stored f) refl k

  appended-IsKept :
      (actor : Option ℕ) (db : Database F) (row : RuleEvaluation F) (rule_id : ℕ)
      → IsKept floats db
      → any (λ r. r.id == rule_id) db.rules ≡ true
      → is_valid_row_of floats rule_id row ≡ true
      → IsKept floats (append_row floats actor db row)
  unfolding append_row IsKept
  appended-IsKept actor db row rule_id (valid, known, logged) k h =
      let (v, same) = &&-eq-true (is_valid_row floats row) (row.sigma_rule_id == rule_id) h in
      let at_rule = (==_iff row.sigma_rule_id rule_id).0 same in
      (
        rw (all-append (is_valid_row floats) db.rows (row ∷ []), valid, v) refl,
        rw (all-append (is_known db.rules) db.rows (row ∷ []), known, at_rule, k) refl,
        omega (
          arith,
          logged,
          count-append is_recorded db.audit_log
              (record { entity_id = row.id; action = recorded; actor = actor } ∷ []),
          length-append db.rows (row ∷ []),
        ),
      )

  checked-IsKept :
      (actor : Option ℕ) (db : Database F) (rule_id : ℕ) (o : Option (RuleEvaluation F))
      → IsKept floats db
      → any (λ r. r.id == rule_id) db.rules ≡ true
      → Ensures (is_valid_row_of floats rule_id) o
      → IsKept floats (checked floats actor db o).0
  unfolding flushed
  checked-IsKept actor db rule_id none i k h = i
  checked-IsKept actor db rule_id (some row) i k h =
      of_flushed (flushed floats row)
        (flushed-is_valid_row row row rule_id row.false_positives_per_day h h)
    where
      of_flushed :
          (o : Option (RuleEvaluation F))
          → Ensures (is_valid_row_of floats rule_id) o
          → IsKept floats (inserted floats actor db o).0
      of_flushed none h = i
      of_flushed (some r) h = appended-IsKept actor db r rule_id i k h

  record_evaluation-IsKept :
      (new_id now : ℕ) (actor : Option ℕ) (rule_id : ℕ) (evaluator : Option Text)
      (results : Results F) (db : Database F)
      → IsKept floats db
      → IsKept floats (record_evaluation floats new_id now actor rule_id evaluator results db).0
  unfolding record_evaluation
  record_evaluation-IsKept new_id now actor rule_id evaluator results db i =
      of_rule (first (λ r. r.id == rule_id) db.rules) refl
    where
      of_rule :
          (o : Option SigmaRule)
          → first (λ r. r.id == rule_id) db.rules ≡ o
          → IsKept floats (recorded_for floats new_id now actor evaluator results db o).0
      of_rule none h = i
      of_rule (some rule) h =
          let same =
            (==_iff rule.id rule_id).0 (first-some (λ r. r.id == rule_id) db.rules rule h) in
          let known = first-any (λ r. r.id == rule_id) db.rules rule h in
          checked-IsKept actor db rule.id (validated floats new_id now rule.id evaluator results) i
            (subst (λ n. any (λ r. r.id == n) db.rules ≡ true) (sym same) known)
            (validated-is_valid_row_of floats new_id now rule.id evaluator results)

  flag-is_valid_row :
      (id : ℕ) (r : RuleEvaluation F) → is_valid_row floats (flag id r) ≡ is_valid_row floats r
  unfolding is_valid_row
  flag-is_valid_row id r = elim (Bool-cases (r.id == id)) [ inl e ↦ rw e refl | inr e ↦ rw e refl ]

  flag-is_known :
      (rules : List SigmaRule) (id : ℕ) (r : RuleEvaluation F)
      → is_known rules (flag id r) ≡ is_known rules r
  flag-is_known rules id r = elim (Bool-cases (r.id == id)) [
    | inl e ↦ rw e refl
    | inr e ↦ rw e refl
  ]

  mark_contributed-IsKept :
      (id : ℕ) (actor : Option ℕ) (db : Database F)
      → IsKept floats db
      → IsKept floats (mark_contributed id actor db).0
  unfolding mark_contributed IsKept
  mark_contributed-IsKept id actor db (valid, known, logged) =
      of_row (first (λ r. r.id == id) db.rows)
    where
      of_row : (o : Option (RuleEvaluation F)) → IsKept floats (marked id actor db o).0
      of_row none = (valid, known, logged)
      of_row (some row) = (
        all-map (is_valid_row floats) (is_valid_row floats) (flag id)
            (λ r h. flag-is_valid_row id r ∙ h) db.rows valid,
        all-map (is_known db.rules) (is_known db.rules) (flag id)
            (λ r h. flag-is_known db.rules id r ∙ h) db.rows known,
        omega (
          arith,
          logged,
          length-map (flag id) db.rows,
          count-append is_recorded db.audit_log (
              record {
                entity_id = id;
                action = contributed row.contributed_to_commons;
                actor = actor;
              }
              ∷ []),
        ),
      )

-- A submission or the mark of a contribution, whatever its answer is.
pub data Step {F : Type 0} (floats : Floats F) : Database F → Database F → Type 0 where
  records :
      (new_id now : ℕ) (actor : Option ℕ) (rule_id : ℕ) (evaluator : Option Text)
      (results : Results F) (db : Database F)
      → Step floats db (record_evaluation floats new_id now actor rule_id evaluator results db).0
  marks :
      (id : ℕ) (actor : Option ℕ) (db : Database F)
      → Step floats db (mark_contributed id actor db).0

pub data Reach {F : Type 0} (floats : Floats F) (db : Database F) : Database F → Type 0 where
  here : Reach floats db db
  next : {s t : Database F} → Reach floats db s → Step floats s t → Reach floats db t

Step-IsKept :
    {F : Type 0} (floats : Floats F)
    → ((f g : F)
        → floats.stored f ≡ some g
        → floats.is_below f 0 ≡ false
        → floats.is_below g 0 ≡ false)
    → {s t : Database F} → Step floats s t
    → IsKept floats s
    → IsKept floats t
Step-IsKept floats keeps (records new_id now actor rule_id evaluator results db) i =
    record_evaluation-IsKept floats keeps new_id now actor rule_id evaluator results db i
Step-IsKept floats keeps (marks id actor db) i = mark_contributed-IsKept floats keeps id actor db i

-- When the column keeps a rate at or above zero, submissions and marks keep these: every evaluation
-- has texts that fit, levels of the lists, no rate below zero and a count, a rate or notes; its rule
-- exists; and the audit has as many records of submissions as there are evaluations.
pub Reach-IsKept :
    {F : Type 0} (floats : Floats F)
    → ((f g : F)
        → floats.stored f ≡ some g
        → floats.is_below f 0 ≡ false
        → floats.is_below g 0 ≡ false)
    → {s t : Database F} → Reach floats s t
    → IsKept floats s
    → IsKept floats t
Reach-IsKept floats keeps here i = i
Reach-IsKept floats keeps (next r step) i =
    Step-IsKept floats keeps step (Reach-IsKept floats keeps r i)
