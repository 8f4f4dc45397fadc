-- ===== src/Tlp.antt =====
-- security/tlp.py: the TLP 2.0 levels, `parse` and `max_tlp`. A `ValueError` is `none`.
pub mod Order
use fragchain_core.Prelude.{
  ℕ, String, Bool, Option, none, some, List, [], ◌∷◌, map, ltb, if◌then◌else◌, str_eq, codes, strip,
  lower, same_codes, ◌>>=◌,
}

-- class TLP(StrEnum)
pub data Level : Type 0 where
  clear green amber amber_strict red : Level

pub Level-discrete : Discrete Level
Level-discrete = hlevel

abbrev pub restriction_level : Level → ℕ
restriction_level clear = 0
restriction_level green = 1
restriction_level amber = 2
restriction_level amber_strict = 3
restriction_level red = 4

-- What `parse` accepts: `None`, a member of the enum, or a string.
pub data Value : Type 0 where
  absent : Value
  level : Level → Value
  text : String → Value

-- str(value).strip().lower()
unfoldable pub normalized : String → List ℕ
unfolding strip lower
normalized s = map lower (strip (codes s))

-- cls(normalized)
unfoldable pub of_value : List ℕ → Option Level
of_value v =
    if same_codes v (codes "tlp:clear")
    then some clear
    else if same_codes v (codes "tlp:green")
    then some green
    else if same_codes v (codes "tlp:amber")
    then some amber
    else if same_codes v (codes "tlp:amber+strict")
    then some amber_strict
    else if same_codes v (codes "tlp:red")
    then some red
    else none

unfoldable pub parse : Value → Option Level
unfolding normalized of_value
parse absent = some clear
parse (level t) = some t
parse (text s) = if str_eq s "" then some clear else of_value (normalized s)

-- [TLP.parse(lv) for lv in levels]
unfoldable pub parse_all : List Value → Option (List Level)
parse_all [] = some []
parse_all (v ∷ vs) = do t ← parse v; ts ← parse_all vs; some (t ∷ ts)

-- max(…, key=…): the first of the greatest
unfoldable pub greatest : Level → List Level → Level
greatest best [] = best
greatest best (t ∷ ts) =
    greatest (if ltb (restriction_level best) (restriction_level t) then t else best) ts

abbrev pub greatest_of : List Level → Level
greatest_of [] = clear
greatest_of (t ∷ ts) = greatest t ts

unfoldable pub max_tlp : List Value → Option Level
unfolding parse_all greatest
max_tlp levels = do parsed ← parse_all levels; some (greatest_of parsed)
