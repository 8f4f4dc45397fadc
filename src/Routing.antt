-- ===== src/Routing.antt =====
-- sigma/targets.py: the conditions of routing clauses, and the choice of a target. The text of a
-- condition is compiled by an argument: the regular expressions that rewrite it, `ast.parse` and the
-- check of its nodes.
pub mod Select
pub mod Laws
use fragchain_core.Prelude.{
  ℕ, zero, suc, String, Bool, true, false, not, ◌&&◌, ◌||◌, Option, none, some, List, [], ◌∷◌, any,
  map, ◌==◌, str_eq, codes, lower, same_codes, ◌>>=◌, if◌then◌else◌,
}

-- What an expression may be evaluated to.
mutual
  pub data Value : Type 0 where
    null : Value
    bool : Bool → Value
    num : ℕ → Value
    str : String → Value
    seq : Values → Value

  pub data Values : Type 0 where
    nil : Values
    cons : Value → Values → Values

-- `ast.Eq`, `ast.NotEq`, `ast.In`, `ast.NotIn`
pub data Op : Type 0 where
  eq not_eq is_in not_in : Op

mutual
  pub data Expr : Type 0 where
    constant : Value → Expr
    identifier : String → Expr
    elements : Exprs → Expr
    negation : Expr → Expr
    all_of : Exprs → Expr
    any_of : Exprs → Expr
    compare : Expr → Comparisons → Expr

  pub data Exprs : Type 0 where
    none_left : Exprs
    also : Expr → Exprs → Exprs

  pub data Comparisons : Type 0 where
    end : Comparisons
    then_ : Op → Expr → Comparisons → Comparisons

pub record RuleContext : Type 0 where
  pub tlp : String
  pub level : Option String
  pub status : String
  pub origin : String
  pub logsource_product : Option String
  pub logsource_service : Option String
  pub logsource_profile : Option String
  pub technique_ids : List String
  pub tags : List String

abbrev pub optional : Option String → Value
optional none = null
optional (some s) = str s

abbrev pub texts : List String → Values
texts [] = nil
texts (s ∷ rest) = cons (str s) (texts rest)

-- name in {t.lower() for t in self.tags}
abbrev pub is_tag : String → List String → Bool
is_tag name tags = any (λ t. same_codes (map lower (codes t)) (codes name)) tags

unfoldable pub lookup_name : RuleContext → String → Value
unfolding lower
lookup_name ctx name =
    if str_eq name "tlp"
    then str ctx.tlp
    else if str_eq name "level"
    then optional ctx.level
    else if str_eq name "status"
    then str ctx.status
    else if str_eq name "origin"
    then str ctx.origin
    else if str_eq name "logsource_product"
    then optional ctx.logsource_product
    else if str_eq name "logsource_service"
    then optional ctx.logsource_service
    else if str_eq name "logsource_profile"
    then optional ctx.logsource_profile
    else if str_eq name "technique_ids"
    then seq (texts ctx.technique_ids)
    else if str_eq name "tags"
    then seq (texts ctx.tags)
    else bool (is_tag name ctx.tags)

abbrev pub as_num : Bool → ℕ
as_num true = 1
as_num false = 0

-- `==`; True equals 1
unfoldable mutual
  pub same_value : Value → Value → Bool
  same_value null null = true
  same_value (bool a) (bool b) = as_num a == as_num b
  same_value (bool a) (num n) = as_num a == n
  same_value (num n) (bool a) = n == as_num a
  same_value (num m) (num n) = m == n
  same_value (str s) (str t) = str_eq s t
  same_value (seq s) (seq t) = same_values s t
  same_value _ _ = false

  pub same_values : Values → Values → Bool
  same_values nil nil = true
  same_values (cons v s) (cons w t) = same_value v w && same_values s t
  same_values _ _ = false

abbrev pub is_prefix : List ℕ → List ℕ → Bool
is_prefix [] t = true
is_prefix (c ∷ s) [] = false
is_prefix (c ∷ s) (d ∷ t) = c == d && is_prefix s t

abbrev pub is_infix : List ℕ → List ℕ → Bool
is_infix s [] = is_prefix s []
is_infix s (d ∷ t) = is_prefix s (d ∷ t) || is_infix s t

unfoldable pub member : Value → Values → Bool
unfolding same_value
member v nil = false
member v (cons w rest) = same_value v w || member v rest

-- `left in right`; `none` is a `TypeError`
unfoldable pub contained : Value → Value → Option Bool
unfolding member
contained v null = some false
contained v (bool b) = none
contained v (num n) = none
contained (str s) (str t) = some (is_infix (codes s) (codes t))
contained _ (str t) = none
contained v (seq values) = some (member v values)

unfoldable pub apply_op : Op → Value → Value → Option Bool
unfolding contained same_value
apply_op eq left right = some (same_value left right)
apply_op not_eq left right = some (not (same_value left right))
apply_op is_in left right = contained left right
apply_op not_in left right = contained left right >>= λ b. some (not b)

-- bool(value)
abbrev pub truth : Value → Bool
truth null = false
truth (bool b) = b
truth (num n) = not (n == 0)
truth (str s) = not (str_eq s "")
truth (seq nil) = false
truth (seq (cons v rest)) = true

-- `_walk_condition`
unfoldable mutual
  unfolding apply_op lookup_name

  pub walk_condition : RuleContext → Expr → Option Value
  walk_condition ctx (constant v) = some v
  walk_condition ctx (identifier n) = some (lookup_name ctx n)
  walk_condition ctx (elements es) = walk_elements ctx es >>= λ vs. some (seq vs)
  walk_condition ctx (negation e) = walk_condition ctx e >>= λ v. some (bool (not (truth v)))
  walk_condition ctx (all_of es) = walk_all ctx es >>= λ b. some (bool b)
  walk_condition ctx (any_of es) = walk_any ctx es >>= λ b. some (bool b)
  walk_condition ctx (compare e rest) =
      walk_condition ctx e >>= λ left. walk_compare ctx left rest >>= λ b. some (bool b)

  pub walk_elements : RuleContext → Exprs → Option Values
  walk_elements ctx none_left = some nil
  walk_elements ctx (also e es) =
      walk_condition ctx e >>= λ v. walk_elements ctx es >>= λ vs. some (cons v vs)

  pub walk_all : RuleContext → Exprs → Option Bool
  walk_all ctx none_left = some true
  walk_all ctx (also e es) =
      walk_condition ctx e >>= λ v. if truth v then walk_all ctx es else some false

  pub walk_any : RuleContext → Exprs → Option Bool
  walk_any ctx none_left = some false
  walk_any ctx (also e es) =
      walk_condition ctx e >>= λ v. if truth v then some true else walk_any ctx es

  pub walk_compare : RuleContext → Value → Comparisons → Option Bool
  walk_compare ctx left end = some true
  walk_compare ctx left (then_ op e rest) = walk_condition ctx e >>= λ right.
      apply_op op left right >>= λ ok. if ok then walk_compare ctx right rest else some false
