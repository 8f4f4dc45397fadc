-- ===== src/Routing/Laws.antt =====
-- Where a rule is sent.
use mathlib.Core.List.{Memᴰ}
use fragchain_core.Prelude.{
  String, Bool, true, Option, none, some, List, [], ◌∷◌, select, >>=-eq-some, same_some, subst, ◌≡◌,
  refl, arith, ap, ◌∙◌, Bool-cases, Option-cases, inl, inr,
}
use fragchain_core.Routing.{
  Value, bool, Expr, identifier, compare, constant, then_, end, is_in, RuleContext, lookup_name,
  walk_condition,
}
use fragchain_core.Routing.Select.{
  Clause, SigmaTarget, name_to_target, or_else, target_name_of, first_match, destination, choose,
  choose_from, first_default, chosen_or_default, select_target,
}

module _ {A : Type 0} (p : A → Bool) (a : A) where
  mem-cons_select :
      (x : A) (l rest : List A)
      → p x ≡ true
      → (Memᴰ a rest → Memᴰ a l × (p a ≡ true))
      → Memᴰ a (x ∷ rest)
      → Memᴰ a (x ∷ l) × (p a ≡ true)
  mem-cons_select x l rest e ih (Memᴰ.head q) = (Memᴰ.head q, ap p q ∙ e)
  mem-cons_select x l rest e ih (Memᴰ.tail m) = (Memᴰ.tail (ih m).0, (ih m).1)

  mem-select : (l : List A) → Memᴰ a (select p l) → Memᴰ a l × (p a ≡ true)
  mem-select [] m = elim m [ ]
  mem-select (x ∷ l) m = elim (Bool-cases (p x)) [
    | inl e ↦ mem-cons_select x l (select p l) e (mem-select l) (rw e at m)
    | inr e ↦ let kept = mem-select l (rw e at m) in (Memᴰ.tail kept.0, kept.1)
  ]

mem-name_to_target :
    (targets : List SigmaTarget) (name : String) (t : SigmaTarget)
    → name_to_target targets name ≡ some t
    → Memᴰ t targets
unfolding name_to_target
mem-name_to_target [] name t h = cc
mem-name_to_target (u ∷ targets) name t h = elim (Option-cases (name_to_target targets name)) [
  | inr (v, e) ↦ Memᴰ.tail (mem-name_to_target targets name t (ground (arith, h, e)))
  | inl e ↦ Memᴰ.head (ground (arith, h, e))
]

mem-first_default :
    (targets : List SigmaTarget) (t : SigmaTarget) → first_default targets ≡ some t → Memᴰ t targets
mem-first_default [] t h = cc
mem-first_default (u ∷ targets) t h = elim (Bool-cases u.is_default) [
  | inl e ↦ Memᴰ.head (ground (arith, h, e))
  | inr e ↦ Memᴰ.tail (mem-first_default targets t (ground (arith, h, e)))
]

mem-or_else :
    (targets : List SigmaTarget) (o : Option SigmaTarget) (u t : SigmaTarget)
    → ((v : SigmaTarget) → o ≡ some v → Memᴰ v targets)
    → Memᴰ u targets
    → or_else o u ≡ t
    → Memᴰ t targets
mem-or_else targets none u t h m e = subst (λ v. Memᴰ v targets) e m
mem-or_else targets (some v) u t h m e = subst (λ w. Memᴰ w targets) e (h v refl)

mem-destination :
    (targets : List SigmaTarget) (u t : SigmaTarget) (clause : Option Clause)
    → Memᴰ u targets
    → destination targets u clause ≡ t
    → Memᴰ t targets
mem-destination targets u t none m e = subst (λ v. Memᴰ v targets) e m
mem-destination targets u t (some clause) m e =
    mem-or_else targets (name_to_target targets (target_name_of clause u)) u t
      (mem-name_to_target targets (target_name_of clause u)) m e

mem-choose :
    (targets : List SigmaTarget) (u t : SigmaTarget) (chosen : Option SigmaTarget)
    (found : Option (Option Clause))
    → Memᴰ u targets
    → ((v : SigmaTarget) → chosen ≡ some v → Memᴰ v targets)
    → choose targets u chosen found ≡ some t
    → Memᴰ t targets
mem-choose targets u t (some v) found m h e = h t e
mem-choose targets u t none none m h e = cc
mem-choose targets u t none (some clause) m h e = mem-destination targets u t clause m (same_some e)

module _ (compile_condition : String → Option Expr) (ctx : RuleContext) where
  mem-choose_from :
      (targets rest : List SigmaTarget) (chosen : Option SigmaTarget) (t : SigmaTarget)
      → ((v : SigmaTarget) → Memᴰ v rest → Memᴰ v targets)
      → ((v : SigmaTarget) → chosen ≡ some v → Memᴰ v targets)
      → choose_from compile_condition ctx targets rest chosen ≡ some (some t)
      → Memᴰ t targets
  unfolding choose_from
  mem-choose_from targets [] chosen t sub h e = h t (same_some e)
  mem-choose_from targets (u ∷ rest) chosen t sub h e =
      let (found, p, q) = >>=-eq-some (first_match compile_condition ctx u u.routing_rules) _ e in
      mem-choose_from targets rest (choose targets u chosen found) t (λ v m. sub v (Memᴰ.tail m))
        (λ v k. mem-choose targets u v chosen found (sub u (Memᴰ.head refl)) h k) q

  mem-chosen_or_default :
      (targets : List SigmaTarget) (chosen : Option SigmaTarget) (t : SigmaTarget)
      → ((v : SigmaTarget) → chosen ≡ some v → Memᴰ v targets)
      → chosen_or_default targets chosen ≡ some t
      → Memᴰ t targets
  mem-chosen_or_default targets (some v) t h e = h t e
  mem-chosen_or_default targets none t h e = mem-first_default targets t e

  -- Whatever the clauses name, a rule is sent only to one of the targets, and to one that is enabled.
  select_target-enabled :
      (targets : List SigmaTarget) (t : SigmaTarget)
      → select_target compile_condition ctx targets ≡ some (some t)
      → Memᴰ t targets × (t.enabled ≡ true)
  unfolding select_target
  select_target-enabled targets t h =
      let enabled = select (λ (u : SigmaTarget). u.enabled) targets in
      let (chosen, p, q) =
        >>=-eq-some (choose_from compile_condition ctx enabled enabled none) _ h in
      mem-select (λ u. u.enabled) t targets
        (mem-chosen_or_default enabled chosen t
          (λ v e. mem-choose_from enabled enabled none v (λ w m. m) (λ w e. cc) (p ∙ ap some e))
          (same_some q))

-- A clause that asks whether a text is in a name which is no field of the rule raises, whatever
-- the rule: the name is a Boolean, and the `TypeError` is not caught.
pub walk-in_bareword :
    (ctx : RuleContext) (v : Value) (n : String) (b : Bool)
    → lookup_name ctx n ≡ bool b
    → walk_condition ctx (compare (constant v) (then_ is_in (identifier n) end)) ≡ none
unfolding walk_condition
walk-in_bareword ctx v n b h = rw h (ground arith)
