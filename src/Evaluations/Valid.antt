-- ===== src/Evaluations/Valid.antt =====
-- What the validation of an evaluation ensures.
use fragchain_core.Prelude.{
  ℕ, Bool, true, false, not, ◌&&◌, ◌||◌, Option, none, some, ◌>>=◌, is_some, List, [], ◌∷◌, ltb,
  leb, ◌==◌, String, strip, length, if◌then◌else◌, ◌≡◌, refl, arith, Bool-cases, inl, inr,
}
use fragchain_core.Evaluations.{
  Text, Floats, Value, null, boolean, integer, float, text, other, is_empty, allows,
  clean_optional_str, validate_enum, not_negative, coerce_fp_per_day, coerce_true_positives,
  valid_environment_scales, valid_query_costs, valid_deployment_complexity, RuleEvaluation,
}
use fragchain_core.Evaluations.Store.{Results, text_value, validated}

-- A text that is set is not empty, and not longer than a bound.
abbrev pub fits : Option ℕ → Option Text → Bool
fits bound none = true
fits none (some t) = not (is_empty t)
fits (some n) (some t) = not (is_empty t) && leb (length t) n

abbrev pub one_of_names : List String → Option Text → Bool
one_of_names names none = true
one_of_names names (some t) = allows names t

abbrev pub rate_ok : {F : Type 0} → Floats F → Option F → Bool
rate_ok floats none = true
rate_ok floats (some f) = not (floats.is_below f 0)

-- A row whose texts fit their columns, whose levels are of the lists, whose rate is not below zero, and
-- which says something.
unfoldable pub is_valid_row : {F : Type 0} → Floats F → RuleEvaluation F → Bool
unfolding allows
is_valid_row floats r =
    fits (some 50) r.environment_platform
    && fits (some 100) r.environment_logsource
    && one_of_names valid_environment_scales r.environment_scale
    && one_of_names valid_query_costs r.query_cost
    && one_of_names valid_deployment_complexity r.deployment_complexity
    && fits none r.notes
    && fits (some 255) r.evaluator_username
    && rate_ok floats r.false_positives_per_day
    && (is_some r.true_positives || is_some r.false_positives_per_day || is_some r.notes)

-- A valid row of a rule.
abbrev pub is_valid_row_of : {F : Type 0} → Floats F → ℕ → RuleEvaluation F → Bool
is_valid_row_of floats rule_id r = is_valid_row floats r && r.sigma_rule_id == rule_id

-- A result has a property, if there is one.
abbrev pub Ensures : {A : Type 0} → (A → Bool) → Option A → Type 0
Ensures p none = Unit
Ensures p (some a) = p a ≡ true

bind-Ensures :
    {A B : Type 0} (q : A → Bool) (p : B → Bool) (o : Option A) (f : A → Option B)
    → Ensures q o
    → ((a : A) → q a ≡ true → Ensures p (f a))
    → Ensures p (o >>= f)
bind-Ensures q p none f h k = tt
bind-Ensures q p (some a) f h k = k a h

bounded-fits :
    (bound : Option ℕ) (t : Text)
    → Ensures (fits bound) (
        if is_empty t then some none else elim bound [
          | none ↦ some (some t)
          | some n ↦ if ltb n (length t) then none else some (some t)
        ])
bounded-fits bound [] = refl
bounded-fits none (c ∷ t) = refl
bounded-fits (some n) (c ∷ t) = elim (Bool-cases (ltb n (length (c ∷ t)))) [
  | inl long ↦ rw long tt
  | inr short ↦ rw short (ground arith)
]

guarded-Ensures :
    {A : Type 0} (p : A → Bool) (b : Bool) (a : A)
    → (b ≡ false → p a ≡ true)
    → Ensures p (if b then none else some a)
guarded-Ensures p true a h = tt
guarded-Ensures p false a h = h refl

same_number : (n : ℕ) → (n == n) ≡ true
same_number n = ground arith

or-of-not : (a b c : Bool) → (not a && not b && not c) ≡ false → (a || b || c) ≡ true
or-of-not a b c h = ground arith

module _ {F : Type 0} where
  clean-fits : (bound : Option ℕ) (v : Value F) → Ensures (fits bound) (clean_optional_str bound v)
  unfolding clean_optional_str
  clean-fits bound null = refl
  clean-fits bound (text t) = bounded-fits bound (strip t)
  clean-fits bound (boolean b) = tt
  clean-fits bound (integer n) = tt
  clean-fits bound (float f) = tt
  clean-fits bound other = tt

validate_enum-one_of :
    (names : List String) (o : Option Text) → Ensures (one_of_names names) (validate_enum names o)
unfolding validate_enum
validate_enum-one_of names none = refl
validate_enum-one_of names (some t) = elim (Bool-cases (allows names t)) [
  | inl in_list ↦ rw in_list in_list
  | inr out ↦ rw out tt
]

module _ {F : Type 0} (floats : Floats F) where
  not_negative-rate_ok : (f : F) → Ensures (rate_ok floats) (not_negative floats f)
  not_negative-rate_ok f = elim (Bool-cases (floats.is_below f 0)) [
    | inl low ↦ rw low tt
    | inr high ↦ rw high (ground (arith, high))
  ]

  coerce_fp-rate_ok : (v : Value F) → Ensures (rate_ok floats) (coerce_fp_per_day floats v)
  unfolding coerce_fp_per_day
  coerce_fp-rate_ok null = refl
  coerce_fp-rate_ok (integer n) = not_negative-rate_ok (floats.of_int n)
  coerce_fp-rate_ok (float f) = not_negative-rate_ok f
  coerce_fp-rate_ok (text t) = of_stripped (strip t)
    where
      of_number :
          (o : Option F)
          → Ensures (rate_ok floats) (elim o [ none ↦ none | some f ↦ not_negative floats f ])
      of_number none = tt
      of_number (some f) = not_negative-rate_ok f

      of_stripped :
          (s : Text)
          → Ensures (rate_ok floats) (
              if is_empty s
              then some none
              else elim (floats.of_text s) [ none ↦ none | some f ↦ not_negative floats f ])
      of_stripped [] = refl
      of_stripped (c ∷ s) = of_number (floats.of_text (c ∷ s))
  coerce_fp-rate_ok (boolean b) = tt
  coerce_fp-rate_ok other = tt

  any_value : {A : Type 0} (o : Option A) → Ensures (λ a. true) o
  any_value none = tt
  any_value (some a) = refl

  pub validated-is_valid_row_of :
      (new_id now rule_id : ℕ) (evaluator : Option Text) (results : Results F)
      → Ensures
          (is_valid_row_of floats rule_id)
          (validated floats new_id now rule_id evaluator results)
  unfolding validated is_valid_row
  validated-is_valid_row_of new_id now rule_id evaluator results =
      bind-Ensures (fits (some 50)) _ _ _ (clean-fits (some 50) results.environment_platform)
        (λ platform p.
          bind-Ensures (fits (some 100)) _ _ _ (clean-fits (some 100) results.environment_logsource)
            (λ logsource l.
              bind-Ensures (λ t. true) _ _ _
                (any_value (clean_optional_str (some 50) results.environment_scale))
                (λ scale_text u.
                  bind-Ensures (one_of_names valid_environment_scales) _ _ _
                    (validate_enum-one_of valid_environment_scales scale_text)
                    (λ scale s.
                      bind-Ensures (λ t. true) _ _ _
                        (any_value (coerce_true_positives floats results.true_positives))
                        (λ tp v.
                          bind-Ensures (rate_ok floats) _ _ _
                            (coerce_fp-rate_ok results.false_positives_per_day)
                            (λ fp r.
                              bind-Ensures (λ t. true) _ _ _
                                (any_value (clean_optional_str (some 20) results.query_cost))
                                (λ cost_text w.
                                  bind-Ensures (one_of_names valid_query_costs) _ _ _
                                    (validate_enum-one_of valid_query_costs cost_text)
                                    (λ cost c.
                                      bind-Ensures (λ t. true) _ _ _
                                        (any_value (
                                          clean_optional_str (some 20)
                                            results.deployment_complexity))
                                        (λ complexity_text x.
                                          bind-Ensures (one_of_names valid_deployment_complexity) _
                                            _ _
                                            (validate_enum-one_of valid_deployment_complexity
                                              complexity_text)
                                            (λ complexity d.
                                              bind-Ensures (fits none) _ _ _
                                                (clean-fits none results.notes)
                                                (λ notes n.
                                                  bind-Ensures (fits (some 255)) _ _ _
                                                    (clean-fits (some 255) (text_value evaluator))
                                                    (λ name e.
                                                      guarded-Ensures _
                                                        (not (is_some tp)
                                                          && not (is_some fp)
                                                          && not (is_some notes))
                                                        _
                                                        (λ h.
                                                          rw
                                                            (
                                                            p,
                                                            l,
                                                            s,
                                                            c,
                                                            d,
                                                            n,
                                                            e,
                                                            r,
                                                            or-of-not (is_some tp) (is_some fp)
                                                            (is_some notes) h,
                                                            )
                                                            (same_number rule_id))))))))))))))
