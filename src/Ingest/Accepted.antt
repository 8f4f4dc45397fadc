-- ===== src/Ingest/Accepted.antt =====
-- What the filters of an import let through.
use fragchain_core.Prelude.{
  ℕ, Bool, true, false, not, ◌&&◌, Option, none, some, ◌-◌, ◌*◌, ◌≤◌, ltb, ◌>>=◌, >>=-eq-some,
  same_some, if◌then◌else◌, ◌≡◌, refl, sym, ap, ◌∙◌, subst, arith, ◌||◌,
}
use fragchain_core.Embargo.{Datetime, in_utc}
use fragchain_core.Ingest.Filters.{
  ImportFilters, CveRecord, before, later_of, same_zone, cutoff_of, compute_effective_date_from,
  from_ok, to_ok, rest_ok, score_ok, is_nonempty, apply_basic_filters,
}

tested-le : (same : Bool) (m n : ℕ) → (if same then some (ltb m n) else none) ≡ some false → n ≤ m
tested-le false m n h = cc
tested-le true m n h = ground arith

before-le : (a b : Datetime) → before a b ≡ some false → b.instant ≤ a.instant
unfolding before
before-le a b h = tested-le (same_zone a b) a.instant b.instant h

larger :
    (from cut : Datetime)
    → cut.instant ≤ (if ltb from.instant cut.instant then cut else from).instant
larger from cut = ground arith

larger_first :
    (from cut : Datetime)
    → from.instant ≤ (if ltb from.instant cut.instant then cut else from).instant
larger_first from cut = ground arith

later-le :
    (same : Bool) (from cut d : Datetime)
    → ((if same then some (ltb from.instant cut.instant) else none) >>= λ less.
        some (if less then cut else from))
      ≡ some d
    → (from.instant ≤ d.instant) × (cut.instant ≤ d.instant)
later-le false from cut d h = cc
later-le true from cut d h =
    subst (λ x. (from.instant ≤ x.instant) × (cut.instant ≤ x.instant)) (same_some h)
      (larger_first from cut, larger from cut)

later_of-le :
    (from cut d : Datetime)
    → later_of from cut ≡ some d
    → (from.instant ≤ d.instant) × (cut.instant ≤ d.instant)
unfolding later_of
later_of-le from cut d h = later-le (same_zone from cut) from cut d h

negated : (m : Option Bool) → (m >>= λ x. some (not x)) ≡ some true → m ≡ some false
negated none h = cc
negated (some false) h = refl
negated (some true) h = cc

-- The bounds that a record passes.
from_ok-le :
    (from : Datetime) (published : Option Datetime)
    → from_ok (some from) published ≡ some true
    → (d : Datetime) × (published ≡ some d) × (from.instant ≤ (in_utc d).instant)
unfolding from_ok
from_ok-le from none h = cc
from_ok-le from (some d) h =
    (d, refl, before-le (in_utc d) from (negated (before (in_utc d) from) h))

to_ok-le :
    (to d : Datetime) → to_ok (some to) (some d) ≡ some true → (in_utc d).instant ≤ to.instant
unfolding to_ok
to_ok-le to d h = before-le to (in_utc d) (negated (before to (in_utc d)) h)

bounded :
    (first : Option Datetime) (cut : Datetime) (bound : Option Datetime)
    → elim first [ none ↦ some (some cut) | some from ↦ later_of from cut >>= λ d. some (some d) ]
      ≡ some bound
    → (d : Datetime) × (bound ≡ some d)
      × (cut.instant ≤ d.instant)
      × ((from : Datetime) → first ≡ some from → from.instant ≤ d.instant)
bounded none cut bound h = (cut, sym (same_some h), omega arith, λ from e. cc)
bounded (some first) cut bound h =
    let (d, e, rest) = >>=-eq-some (later_of first cut) _ h in
    let both = later_of-le first cut d e in
    (
      d,
      sym (same_some rest),
      both.1,
      λ from e. subst (λ x. x.instant ≤ d.instant) (same_some e) both.0,
    )

-- The lower bound when a number of days is given: no earlier than that, nor than `date_from`.
effective-le :
    (f : ImportFilters) (now days : ℕ) (bound : Option Datetime)
    → f.published_within_days ≡ some days
    → compute_effective_date_from f now ≡ some bound
    → (d : Datetime) × (bound ≡ some d)
      × (now - days * 86400 ≤ d.instant)
      × ((from : Datetime) → f.date_from ≡ some from → from.instant ≤ d.instant)
unfolding compute_effective_date_from
effective-le f now days bound within h =
    bounded f.date_from (cutoff_of now days) bound (rw (within, compute_effective_date_from) at h)

passed :
    (late_enough : Bool) (early_enough : Option Bool) (rest : Bool)
    → (if not late_enough then some false else early_enough >>= λ early. some (early && rest))
      ≡ some true
    → (late_enough ≡ true) × (early_enough ≡ some true) × (rest ≡ true)
passed false early_enough rest h = cc
passed true none rest h = cc
passed true (some false) rest h = cc
passed true (some true) rest h = (refl, refl, same_some h)

unless : {A : Type 0} (b : Bool) (x y : A) {z : A} → b ≡ false → (if b then x else y) ≡ z → y ≡ z
unless false x y e h = h
unless true x y e h = cc

-- A record that the filters accept, without a list of ids.
accepted-parts :
    (r : CveRecord) (f : ImportFilters) (now : ℕ)
    → is_nonempty f.cve_ids ≡ false
    → apply_basic_filters r f now ≡ some true
    → (bound : Option Datetime) × (compute_effective_date_from f now ≡ some bound)
      × (from_ok bound r.published ≡ some true)
      × (to_ok f.date_to r.published ≡ some true)
      × (rest_ok r f ≡ true)
unfolding apply_basic_filters
accepted-parts r f now unlisted h =
    let (bound, e, g) =
      >>=-eq-some (compute_effective_date_from f now) _
        (unless (is_nonempty f.cve_ids) _ _ unlisted h) in
    let (late_enough, k, rest) = >>=-eq-some (from_ok bound r.published) _ g in
    let (late, early, others) =
      passed late_enough (to_ok f.date_to r.published) (rest_ok r f) rest in
    (bound, e, k ∙ ap some late, early, others)

-- A record that the filters accept, when they have no list of ids and a number of days, was published
-- no earlier than that many days ago, no earlier than `date_from` and no later than `date_to` if these
-- are given; its score reaches the least one, and it is known to be exploited if that is asked for.
pub apply_basic_filters-accepted :
    (r : CveRecord) (f : ImportFilters) (now days : ℕ)
    → is_nonempty f.cve_ids ≡ false
    → f.published_within_days ≡ some days
    → apply_basic_filters r f now ≡ some true
    → (d : Datetime) × (r.published ≡ some d)
      × (now - days * 86400 ≤ (in_utc d).instant)
      × ((from : Datetime) → f.date_from ≡ some from → from.instant ≤ (in_utc d).instant)
      × ((to : Datetime) → f.date_to ≡ some to → (in_utc d).instant ≤ to.instant)
      × (score_ok f.cvss_min r.cvss_v3 ≡ true)
      × ((not f.kev_only || r.cisa_kev) ≡ true)
unfolding rest_ok
apply_basic_filters-accepted r f now days unlisted within h =
    let (bound, e, late, early, others) = accepted-parts r f now unlisted h in
    let (least, same, cut, first) = effective-le f now days bound within e in
    let (d, published, after) =
      from_ok-le least r.published (subst (λ b. from_ok b r.published ≡ some true) same late) in
    (
      d,
      published,
      omega (arith, cut, after),
      λ from h. omega (arith, first from h, after),
      λ to h. to_ok-le to d (
          subst (λ p. to_ok (some to) p ≡ some true) published
            (subst (λ t. to_ok t r.published ≡ some true) h early)),
      ground (arith, others),
      ground (arith, others),
    )
