-- ===== src/Evaluations/Pending.antt =====
-- A rule with an evaluation is not pending.
use fragchain_core.Prelude.{
  ℕ, zero, suc, Bool, true, false, ◌||◌, any, Option, none, some, List, [], ◌∷◌, ◌++◌, ◌==◌, max,
  leb, map, select, ◌≡◌, refl, arith, inl, inr, sym, ap, ◌∙◌, same_some, ==_iff, &&-eq-true,
  Bool-cases, subst,
}
use fragchain_core.Counting.{first, first-some}
use fragchain_core.Chunking.{take}
use fragchain_core.Router.Plan.{sorted}
use fragchain_core.Router.Sorted.{any-sorted}
use fragchain_core.Commons.{ℤ, pos, negsuc}
use fragchain_core.Evaluations.{Text, Floats, RuleEvaluation}
use fragchain_core.Evaluations.Store.{
  SigmaRule, Results, Database, Answer, ok, validated, flushed, append_row, inserted, checked,
  recorded_for, record_evaluation,
}
use fragchain_core.Evaluations.Sweep.{
  PendingEvaluation, pending_of, is_pending, identify_rules_pending_evaluation, time_or_zero,
}
use fragchain_core.Evaluations.Valid.{
  is_valid_row, Ensures, is_valid_row_of, validated-is_valid_row_of,
}

module _ {A : Type 0} (p : A → Bool) where
  any-take : (n : ℕ) (l : List A) → any p l ≡ false → any p (take n l) ≡ false
  any-take zero l h = refl
  any-take (suc n) [] h = refl
  any-take (suc n) (a ∷ l) h = ground (arith, any-take n l)

  any-select :
      (q : A → Bool) (l : List A)
      → ((a : A) → q a ≡ true → p a ≡ false)
      → any p (select q l) ≡ false
  any-select q [] h = refl
  any-select q (a ∷ l) h = ground (arith, h a, any-select q l h)

  any-map_test : {B : Type 0} (f : B → A) (l : List B) → any p (map f l) ≡ any (λ b. p (f b)) l
  any-map_test f [] = refl
  any-map_test f (b ∷ l) = ap (λ x. p (f b) || x) (any-map_test f l)

-- A rule that is pending is not one that has a row.
pending-other :
    {F : Type 0} (rule_id now w : ℕ) (rows : List (RuleEvaluation F)) (r : SigmaRule)
    → any (λ e. e.sigma_rule_id == rule_id) rows ≡ true
    → is_pending now w rows r ≡ true
    → (r.id == rule_id) ≡ false
unfolding is_pending
pending-other rule_id now w rows r h k = elim (Bool-cases (r.id == rule_id)) [
  | inr other ↦ other
  | inl same ↦
      let has_row =
        subst (λ n. any (λ e. e.sigma_rule_id == n) rows ≡ true)
          (sym ((==_iff r.id rule_id).0 same)) h in
      ground (arith, has_row)
]

-- A rule that has a row is not listed, by any window, time and limit.
evaluated-not_listed :
    {F : Type 0} (rule_id now limit : ℕ) (window_days : ℤ) (db : Database F)
    (pending : List PendingEvaluation)
    → any (λ e. e.sigma_rule_id == rule_id) db.rows ≡ true
    → identify_rules_pending_evaluation window_days now limit db ≡ some pending
    → any (λ p. p.sigma_rule_id == rule_id) pending ≡ false
unfolding identify_rules_pending_evaluation
evaluated-not_listed rule_id now limit (negsuc w) db pending h k = cc
evaluated-not_listed rule_id now limit (pos w) db pending h k =
    let q = is_pending now w db.rows in
    let le = λ (a b : SigmaRule). leb (time_or_zero a.reviewed_at) (time_or_zero b.reviewed_at) in
    let p = λ (r : SigmaRule). r.id == rule_id in
    let none_left = any-select p q db.rules (λ r q. pending-other rule_id now w db.rows r h q) in
    ap (any (λ p. p.sigma_rule_id == rule_id)) (sym (same_some k))
    ∙ any-map_test (λ p. p.sigma_rule_id == rule_id) (pending_of now)
        (take (max 1 limit) (sorted le (select q db.rules)))
    ∙ any-take p (max 1 limit) (sorted le (select q db.rules))
        (any-sorted le p (select q db.rules) ∙ none_left)

module _ {F : Type 0} (floats : Floats F) where
  any-snoc :
      {A : Type 0} (p : A → Bool) (l : List A) (a : A) → p a ≡ true → any p (l ++ (a ∷ [])) ≡ true
  any-snoc p [] a h = ground (arith, h)
  any-snoc p (b ∷ l) a h = ground (arith, any-snoc p l a)

  flushed-of :
      (row : RuleEvaluation F) (rule_id : ℕ)
      → (row.sigma_rule_id == rule_id) ≡ true
      → Ensures (λ r. r.sigma_rule_id == rule_id) (flushed floats row)
  unfolding flushed
  flushed-of row rule_id h = of_rate row.false_positives_per_day
    where
      of_stored :
          (o : Option F)
          → Ensures
              (λ r. r.sigma_rule_id == rule_id)
              (elim o [
                | none ↦ none
                | some g ↦ some record row { false_positives_per_day = some g }
              ])
      of_stored none = tt
      of_stored (some g) = h

      of_rate :
          (fp : Option F)
          → Ensures
              (λ r. r.sigma_rule_id == rule_id)
              (elim fp [
                | none ↦ some row
                | some f ↦ elim (floats.stored f) [
                  | none ↦ none
                  | some g ↦ some record row { false_positives_per_day = some g }
                ]
              ])
      of_rate none = h
      of_rate (some f) = of_stored (floats.stored f)

  inserted-has :
      (actor : Option ℕ) (db t : Database F) (rule_id : ℕ) (o : Option (RuleEvaluation F))
      (row : RuleEvaluation F)
      → Ensures (λ r. r.sigma_rule_id == rule_id) o
      → inserted floats actor db o ≡ (t, ok row)
      → any (λ e. e.sigma_rule_id == rule_id) t.rows ≡ true
  unfolding append_row
  inserted-has actor db t rule_id none row e h = cc
  inserted-has actor db t rule_id (some r) row e h =
      ap
        (λ (s : Database F × Answer (RuleEvaluation F)).
          any (λ e. e.sigma_rule_id == rule_id) s.0.rows)
        (sym h)
      ∙ any-snoc (λ e. e.sigma_rule_id == rule_id) db.rows r e

  checked-has :
      (actor : Option ℕ) (db t : Database F) (rule_id : ℕ) (o : Option (RuleEvaluation F))
      (row : RuleEvaluation F)
      → Ensures (is_valid_row_of floats rule_id) o
      → checked floats actor db o ≡ (t, ok row)
      → any (λ e. e.sigma_rule_id == rule_id) t.rows ≡ true
  unfolding flushed
  checked-has actor db t rule_id none row e h = cc
  checked-has actor db t rule_id (some r) row e h =
      inserted-has actor db t rule_id (flushed floats r) row
        (flushed-of r rule_id (&&-eq-true (is_valid_row floats r) (r.sigma_rule_id == rule_id) e).1)
        h

  recorded_for-has :
      (new_id now : ℕ) (actor : Option ℕ) (rule_id : ℕ) (evaluator : Option Text)
      (results : Results F) (db t : Database F) (row : RuleEvaluation F) (o : Option SigmaRule)
      → first (λ r. r.id == rule_id) db.rules ≡ o
      → recorded_for floats new_id now actor evaluator results db o ≡ (t, ok row)
      → any (λ e. e.sigma_rule_id == rule_id) t.rows ≡ true
  recorded_for-has new_id now actor rule_id evaluator results db t row none f h = cc
  recorded_for-has new_id now actor rule_id evaluator results db t row (some rule) f h =
      let same = (==_iff rule.id rule_id).0 (first-some (λ r. r.id == rule_id) db.rules rule f) in
      subst (λ n. any (λ e. e.sigma_rule_id == n) t.rows ≡ true) same
        (checked-has actor db t rule.id (validated floats new_id now rule.id evaluator results) row
          (validated-is_valid_row_of floats new_id now rule.id evaluator results) h)

  -- Once an evaluation of a rule has been recorded, the rule is not among those whose evaluation is
  -- pending, for any window, time and limit.
  pub recorded-not_pending :
      (new_id at : ℕ) (actor : Option ℕ) (rule_id : ℕ) (evaluator : Option Text)
      (results : Results F) (db t : Database F) (row : RuleEvaluation F) (window_days : ℤ)
      (now limit : ℕ) (pending : List PendingEvaluation)
      → record_evaluation floats new_id at actor rule_id evaluator results db ≡ (t, ok row)
      → identify_rules_pending_evaluation window_days now limit t ≡ some pending
      → any (λ p. p.sigma_rule_id == rule_id) pending ≡ false
  unfolding record_evaluation
  recorded-not_pending new_id at actor rule_id evaluator results db t row window_days now limit
        pending h k =
      evaluated-not_listed rule_id now limit window_days t pending
        (recorded_for-has new_id at actor rule_id evaluator results db t row
          (first (λ r. r.id == rule_id) db.rules) refl h)
        k
