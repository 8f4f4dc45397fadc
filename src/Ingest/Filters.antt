-- ===== src/Ingest/Filters.antt =====
-- ingest/filters.py: the filters of an import. Scores are scaled to integers; an instant that has no
-- zone cannot be compared with one that has: `none` is that `TypeError`. A record is one that is not
-- a dict, with its `affected_products` as the texts that are searched.
use fragchain_core.Prelude.{
  ℕ, String, Bool, true, false, not, ◌&&◌, ◌||◌, Option, none, some, List, [], ◌∷◌, ◌-◌, ◌*◌, any,
  map, ltb, is_some, str_eq, codes, lower, ◌>>=◌, if◌then◌else◌,
}
use fragchain_core.Gate.{one_of_texts}
use fragchain_core.Embargo.{Datetime, in_utc}
use fragchain_core.Routing.{is_infix}

pub record ImportFilters : Type 0 where
  pub date_from : Option Datetime
  pub date_to : Option Datetime
  pub cvss_min : Option ℕ
  pub kev_only : Bool
  pub vendor : String
  pub product : String
  pub cve_ids : List String
  pub published_within_days : Option ℕ
  pub epss_min : Option ℕ
  pub attackerkb_min : Option ℕ
  pub not_in_commons : Bool

-- A record of a connector; `upper_id` is its id in upper case.
pub record CveRecord : Type 0 where
  pub upper_id : Option String
  pub published : Option Datetime
  pub cvss_v3 : Option ℕ
  pub cisa_kev : Bool
  pub products : List String

pub record Enriched : Type 0 where
  pub epss_score : Option ℕ
  pub attackerkb_score : Option ℕ

unfoldable pub has_novelty_filters : ImportFilters → Bool
has_novelty_filters f =
    is_some f.published_within_days
    || is_some f.epss_min
    || is_some f.attackerkb_min
    || f.not_in_commons

abbrev pub same_zone : Datetime → Datetime → Bool
same_zone a b = if a.aware then b.aware else not b.aware

-- a < b
unfoldable pub before : Datetime → Datetime → Option Bool
before a b = if same_zone a b then some (ltb a.instant b.instant) else none

-- max(a, b): b if b is greater
unfoldable pub later_of : Datetime → Datetime → Option Datetime
unfolding before
later_of a b = before a b >>= λ less. some (if less then b else a)

abbrev pub cutoff_of : ℕ → ℕ → Datetime
cutoff_of now days = record { instant = now - days * 86400; aware = true }

unfoldable pub compute_effective_date_from : ImportFilters → ℕ → Option (Option Datetime)
unfolding later_of
compute_effective_date_from f now = elim f.published_within_days [
  | none ↦ some f.date_from
  | some days ↦ elim f.date_from [
    | none ↦ some (some (cutoff_of now days))
    | some from ↦ later_of from (cutoff_of now days) >>= λ d. some (some d)
  ]
]

-- `published` against the lower bound, if there is one
unfoldable pub from_ok : Option Datetime → Option Datetime → Option Bool
unfolding before
from_ok none published = some true
from_ok (some from) none = some false
from_ok (some from) (some published) = before (in_utc published) from >>= λ early. some (not early)

unfoldable pub to_ok : Option Datetime → Option Datetime → Option Bool
unfolding before
to_ok none published = some true
to_ok (some to) none = some false
to_ok (some to) (some published) = before to (in_utc published) >>= λ late. some (not late)

-- A score against a least value.
abbrev pub score_ok : Option ℕ → Option ℕ → Bool
score_ok none score = true
score_ok (some least) none = false
score_ok (some least) (some score) = not (ltb score least)

-- `_matches_text`
unfoldable pub matches_text : String → List String → Bool
unfolding lower
matches_text needle items =
    str_eq needle ""
    || any
        (λ item.
          not (str_eq item "") && is_infix (map lower (codes needle)) (map lower (codes item)))
        items

-- The tests after the dates.
unfoldable pub rest_ok : CveRecord → ImportFilters → Bool
unfolding matches_text
rest_ok r f =
    score_ok f.cvss_min r.cvss_v3
    && (not f.kev_only || r.cisa_kev)
    && matches_text f.vendor r.products
    && matches_text f.product r.products

abbrev pub id_listed : CveRecord → List String → Bool
id_listed r ids = elim r.upper_id [ none ↦ false | some id ↦ one_of_texts ids id ]

abbrev pub is_nonempty : List String → Bool
is_nonempty [] = false
is_nonempty (id ∷ ids) = true

unfoldable pub apply_basic_filters : CveRecord → ImportFilters → ℕ → Option Bool
unfolding compute_effective_date_from from_ok to_ok rest_ok
apply_basic_filters r f now =
    if is_nonempty f.cve_ids
    then some (id_listed r f.cve_ids)
    else compute_effective_date_from f now >>= λ from. from_ok from r.published >>= λ late_enough.
        if not late_enough
        then some false
        else to_ok f.date_to r.published >>= λ early_enough. some (early_enough && rest_ok r f)

unfoldable pub apply_novelty_filters : Enriched → ImportFilters → Bool → Bool × Option String
apply_novelty_filters e f commons_has_chain =
    if not (score_ok f.epss_min e.epss_score)
    then (false, some "epss_below_threshold")
    else if not (score_ok f.attackerkb_min e.attackerkb_score)
    then (false, some "attackerkb_below_threshold")
    else if f.not_in_commons && commons_has_chain
    then (false, some "already_in_commons")
    else (true, none)
