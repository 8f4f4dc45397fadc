-- ===== src/Routing/Select.antt =====
-- sigma/targets.py: `RoutingEngine.select_target`. A condition that does not compile is passed over;
-- a `TypeError` of its evaluation, `none`, escapes.
use fragchain_core.Prelude.{
  ℕ, String, Bool, false, Option, none, some, List, [], ◌∷◌, select, is_some, str_eq, ◌>>=◌,
  if◌then◌else◌,
}
use fragchain_core.Routing.{Expr, RuleContext, walk_condition, truth}

-- A clause; `condition` is `none` if its `if` is no text, and `target_name` is empty if missing.
pub record Clause : Type 0 where
  pub condition : Option String
  pub target_name : String

-- A routing rule that is no mapping is `none`.
pub record SigmaTarget : Type 0 where
  pub id : ℕ
  pub name : String
  pub enabled : Bool
  pub is_default : Bool
  pub routing_rules : List (Option Clause)

-- name_to_target.get(name): the last target with the name
unfoldable pub name_to_target : List SigmaTarget → String → Option SigmaTarget
name_to_target [] name = none
name_to_target (t ∷ targets) name =
    let later = name_to_target targets name in
    if is_some later then later else if str_eq t.name name then some t else none

abbrev pub or_else : Option SigmaTarget → SigmaTarget → SigmaTarget
or_else none t = t
or_else (some u) t = u

-- clause.get("target_name") or target.name
abbrev pub target_name_of : Clause → SigmaTarget → String
target_name_of clause target =
    if str_eq clause.target_name "" then target.name else clause.target_name

abbrev pub first_default : List SigmaTarget → Option SigmaTarget
first_default [] = none
first_default (t ∷ rest) = if t.is_default then some t else first_default rest

abbrev pub chosen_or_default : List SigmaTarget → Option SigmaTarget → Option SigmaTarget
chosen_or_default targets (some t) = some t
chosen_or_default targets none = first_default targets

abbrev pub destination : List SigmaTarget → SigmaTarget → Option Clause → SigmaTarget
destination all_targets target none = target
destination all_targets target (some clause) =
    or_else (name_to_target all_targets (target_name_of clause target)) target

-- The target that a found clause sends the rule to, unless one was chosen before.
abbrev pub choose :
    List SigmaTarget
    → SigmaTarget
    → Option SigmaTarget
    → Option (Option Clause)
    → Option SigmaTarget
choose all_targets target (some chosen) found = some chosen
choose all_targets target none none = none
choose all_targets target none (some clause) = some (destination all_targets target clause)

module _ (compile_condition : String → Option Expr) (ctx : RuleContext) where
  -- Whether a clause matches.
  unfoldable pub matched : SigmaTarget → Option Clause → Option Bool
  unfolding walk_condition
  matched target none = some false
  matched target (some clause) = elim clause.condition [
    | none ↦ some false
    | some expr ↦
        if str_eq (target_name_of clause target) ""
        then some false
        else elim (compile_condition expr) [
          | none ↦ some false
          | some e ↦ walk_condition ctx e >>= λ v. some (truth v)
        ]
  ]

  -- The loop over the clauses of a target: the first that matches.
  unfoldable pub first_match : SigmaTarget → List (Option Clause) → Option (Option (Option Clause))
  first_match target [] = some none
  first_match target (clause ∷ rest) =
      let later = first_match target rest in
      matched target clause >>= λ b. if b then some (some clause) else later

  -- The loop over the targets, all of them.
  unfoldable pub choose_from :
      List SigmaTarget → List SigmaTarget → Option SigmaTarget → Option (Option SigmaTarget)
  unfolding first_match name_to_target
  choose_from all_targets [] chosen = some chosen
  choose_from all_targets (target ∷ rest) chosen =
      first_match target target.routing_rules >>= λ found.
      choose_from all_targets rest (choose all_targets target chosen found)

  -- The engine keeps the enabled targets; the decision is the target, or none.
  unfoldable pub select_target : List SigmaTarget → Option (Option SigmaTarget)
  unfolding choose_from
  select_target targets =
      let enabled = select (λ t. t.enabled) targets in
      choose_from enabled enabled none >>= λ chosen. some (chosen_or_default enabled chosen)
