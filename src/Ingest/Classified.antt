-- ===== src/Ingest/Classified.antt =====
-- An enrichment never lowers the level of a CVE.
use fragchain_core.Prelude.{
  ℕ, String, Bool, true, false, Option, none, some, List, [], ◌∷◌, ◌++◌, ◌≤◌, All, ltb, ◌||◌,
  str_eq, >>=-eq-some, same_some, if◌then◌else◌, ◌≡◌, refl, sym, ap, ◌∙◌, subst, arith, Bool-cases,
  inl, inr,
}
use fragchain_core.Tlp.{Level, restriction_level, level, parse, max_tlp}
use fragchain_core.Tlp.Order.{IsBelow, max_tlp-lub}
use fragchain_core.Ingest.Merge.{
  FieldValue, EnrichmentResult, Merged, SourceRecord, EnrichedCve, or_else, later, merge_rest,
  start, merge_field, merge_fields, merge_result, merge_results, merge_enrichments,
  apply_merged_enrichment, enrich,
}

All-append : {A : Type 0} (P : A → Type 0) (xs ys : List A) → All P (xs ++ ys) → All P xs × All P ys
All-append P [] ys h = (tt, h)
All-append P (x ∷ xs) ys (h, rest) =
    let (left, right) = All-append P xs ys rest in ((h, left), right)

-- An embargo that lasts at least as long as another, if there is one.
abbrev pub Outlasts : Option ℕ → Option ℕ → Type 0
Outlasts e none = Unit
Outlasts e (some t) = (u : ℕ) × (e ≡ some u) × (t ≤ u)

Outlasts-self : (e : Option ℕ) → Outlasts e e
Outlasts-self none = tt
Outlasts-self (some t) = (t, refl, omega arith)

Outlasts-trans : (e f g : Option ℕ) → Outlasts e f → Outlasts f g → Outlasts e g
Outlasts-trans e f none h k = tt
Outlasts-trans e none (some t) h (u, k, le) = cc
Outlasts-trans e (some s) (some t) (v, h, gt) (u, k, le) = (v, h, ground arith)

later-Outlasts : (e f : Option ℕ) → Outlasts (later e f) e × Outlasts (later e f) f
unfolding later
later-Outlasts none none = (tt, tt)
later-Outlasts (some t) none = ((t, refl, omega arith), tt)
later-Outlasts none (some t) = (tt, (t, refl, omega arith))
later-Outlasts (some s) (some t) = elim (Bool-cases (ltb s t)) [
  | inl lt ↦ ((t, rw lt, ground arith), (t, rw lt, omega arith))
  | inr ge ↦ ((s, rw ge, omega arith), (s, rw ge, ground arith))
]

-- A result that is there is below a level, and its embargo is outlasted.
abbrev pub Respects : Level → Option ℕ → String × Option EnrichmentResult → Type 0
Respects b e (connector, none) = Unit
Respects b e (connector, some result) = IsBelow b result.tlp × Outlasts e result.embargo_until

-- The classification of a merge is that of another.
abbrev SameClass : Merged → Merged → Type 0
SameClass m n = (n.tlps ≡ m.tlps) × (n.embargo_until ≡ m.embargo_until)

branch :
    (o m : Merged) (b : Bool) (n : Merged)
    → SameClass o m
    → SameClass o n
    → SameClass o (if b then m else n)
branch o m true n h k = h
branch o m false n h k = k

-- What a merge of results respects, if its end does.
abbrev Below : Level → Option ℕ → Merged → Type 0
Below b e m = All (IsBelow b) m.tlps × Outlasts e m.embargo_until

parse-level : (t : Level) → parse (level t) ≡ some t
unfolding parse
parse-level t = refl

merge_rest-Below :
    (b : Level) (e : Option ℕ) (connector : String) (result : EnrichmentResult) (t : Level)
    (m : Merged)
    → parse result.tlp ≡ some t
    → Below b e (merge_rest connector result t m)
    → Below b e m × Respects b e (connector, some result)
unfolding merge_rest
merge_rest-Below b e connector result t m parsed (levels, outlasts) =
    let (before, (below, end)) = All-append (IsBelow b) m.tlps (level t ∷ []) levels in
    let both = later-Outlasts m.embargo_until result.embargo_until in
    (
      (
        before,
        Outlasts-trans e (later m.embargo_until result.embargo_until) m.embargo_until outlasts
            both.0,
      ),
      (
        (below.0, parsed ∙ sym (parse-level t) ∙ below.1, below.2),
        Outlasts-trans e (later m.embargo_until result.embargo_until) result.embargo_until outlasts
            both.1,
      ),
    )

or_else-Outlasts : (e f : Option ℕ) → Outlasts (or_else e f) e
or_else-Outlasts none f = tt
or_else-Outlasts (some t) f = (t, refl, omega arith)

module _ (date_of moment_of : List ℕ → Option ℕ) where
  merge_field-same :
      (f : String × FieldValue) (m : Merged) → SameClass m (merge_field date_of moment_of f m)
  unfolding merge_field
  merge_field-same (key, value) m =
      branch m _ (str_eq key "epss.score" || str_eq key "epss_score") _ (refl, refl)
        (branch m _ (str_eq key "epss.percentile" || str_eq key "epss_percentile") _ (refl, refl)
          (branch m _ (str_eq key "attackerkb.score" || str_eq key "attackerkb_score") _
            (refl, refl)
            (branch m _ (str_eq key "kev.flag" || str_eq key "cisa_kev") _ (refl, refl)
              (branch m _ (str_eq key "kev.date_added" || str_eq key "cisa_kev_date") _ (refl, refl)
                (refl, refl)))))

  merge_fields-same :
      (fields : List (String × FieldValue)) (m : Merged)
      → SameClass m (merge_fields date_of moment_of fields m)
  unfolding merge_fields
  merge_fields-same [] m = (refl, refl)
  merge_fields-same (f ∷ fields) m =
      let one = merge_field-same f m in
      let more = merge_fields-same fields (merge_field date_of moment_of f m) in
      (more.0 ∙ one.0, more.1 ∙ one.1)

  merge_result-Below :
      (b : Level) (e : Option ℕ) (connector : String) (result : Option EnrichmentResult)
      (m n : Merged)
      → merge_result date_of moment_of connector result m ≡ some n
      → Below b e n
      → Below b e m × Respects b e (connector, result)
  unfolding merge_result
  merge_result-Below b e connector none m n h below =
      (subst (Below b e) (sym (same_some h)) below, tt)
  merge_result-Below b e connector (some result) m n h below =
      let (t, parsed, made) = >>=-eq-some (parse result.tlp) _ h in
      let merged = merge_fields date_of moment_of result.structured m in
      let (before, respects) =
        merge_rest-Below b e connector result t merged parsed
          (subst (Below b e) (sym (same_some made)) below) in
      let same = merge_fields-same result.structured m in
      ((subst (All (IsBelow b)) same.0 before.0, subst (Outlasts e) same.1 before.1), respects)

  merge_results-Below :
      (b : Level) (e : Option ℕ) (enrichments : List (String × Option EnrichmentResult))
      (m n : Merged)
      → merge_results date_of moment_of enrichments m ≡ some n
      → Below b e n
      → Below b e m × All (Respects b e) enrichments
  unfolding merge_results
  merge_results-Below b e [] m n h below = (subst (Below b e) (sym (same_some h)) below, tt)
  merge_results-Below b e ((connector, result) ∷ rest) m n h below =
      let (mid, first, later_ones) =
        >>=-eq-some (merge_result date_of moment_of connector result m) _ h in
      let (kept, respects) = merge_results-Below b e rest mid n later_ones below in
      let (before, this) = merge_result-Below b e connector result m mid first kept in
      (before, (this, respects))

  merge_enrichments-Respects :
      (r : SourceRecord) (enrichments : List (String × Option EnrichmentResult)) (m : Merged)
      (tlp b : Level) (e : Option ℕ)
      → merge_enrichments date_of moment_of r enrichments ≡ some (m, tlp)
      → restriction_level tlp ≤ restriction_level b
      → Outlasts e m.embargo_until
      → IsBelow b r.tlp × Outlasts e r.embargo_until × All (Respects b e) enrichments
  unfolding merge_enrichments
  merge_enrichments-Respects r enrichments m tlp b e h le outlasts =
      let (t, parsed, next) = >>=-eq-some (parse r.tlp) _ h in
      let (n, results, last) =
        >>=-eq-some (merge_results date_of moment_of enrichments (start r t)) _ next in
      let (highest, greatest, made) = >>=-eq-some (max_tlp n.tlps) _ last in
      let same = same_some made in
      let top : restriction_level highest ≤ restriction_level b =
        subst (λ (x : Level). restriction_level x ≤ restriction_level b)
          (sym (ap (λ (p : Merged × Level). p.1) same)) le in
      let ((first, outlasts_first), respects) =
        merge_results-Below b e enrichments (start r t) n results (
          (max_tlp-lub n.tlps highest b greatest).0 top,
          subst (λ (x : Merged). Outlasts e x.embargo_until)
              (sym (ap (λ (p : Merged × Level). p.0) same)) outlasts,
        ) in
      ((first.0.0, parsed ∙ sym (parse-level t) ∙ first.0.1, first.0.2), outlasts_first, respects)

  apply-never_lower :
      (now : ℕ) (m : Merged) (tlp : Level) (cve after : EnrichedCve)
      → apply_merged_enrichment now (m, tlp) cve ≡ some after
      → (b : Level) × (after.tlp ≡ level b)
        × (restriction_level tlp ≤ restriction_level b)
        × IsBelow b cve.tlp
        × Outlasts after.embargo_until m.embargo_until
  unfolding apply_merged_enrichment
  apply-never_lower now m tlp cve after h =
      let (b, joined, written) = >>=-eq-some (max_tlp (level tlp ∷ cve.tlp ∷ [])) _ h in
      let below = (max_tlp-lub (level tlp ∷ cve.tlp ∷ []) b b joined).0 (omega arith) in
      let same = same_some written in
      let t_eq = same_some (sym (parse-level tlp) ∙ below.0.1) in
      (
        b,
        sym (ap (λ (c : EnrichedCve). c.tlp) same),
        subst (λ (x : Level). restriction_level x ≤ restriction_level b) (sym t_eq) below.0.2,
        below.1.0,
        subst (λ x. Outlasts x m.embargo_until) (ap (λ (c : EnrichedCve). c.embargo_until) same)
            (or_else-Outlasts m.embargo_until cve.embargo_until),
      )

  -- If an enrichment of a CVE goes through, then its new level is at least that of the CVE before, that
  -- of the record and that of each result, and the merged embargo lasts at least as long as that of the
  -- record and of each result.
  pub enrich-never_lower :
      (now : ℕ) (r : SourceRecord) (enrichments : List (String × Option EnrichmentResult))
      (cve after : EnrichedCve)
      → enrich date_of moment_of now r enrichments cve ≡ some after
      → (b : Level) × (after.tlp ≡ level b)
        × IsBelow b cve.tlp
        × IsBelow b r.tlp
        × Outlasts after.embargo_until r.embargo_until
        × All (Respects b after.embargo_until) enrichments
  unfolding enrich
  enrich-never_lower now r enrichments cve after h =
      let ((m, tlp), merged, applied) =
        >>=-eq-some (merge_enrichments date_of moment_of r enrichments) _ h in
      let (b, level_b, le, before, outlasts) = apply-never_lower now m tlp cve after applied in
      let (of_record, of_embargo, of_results) =
        merge_enrichments-Respects r enrichments m tlp b after.embargo_until merged le outlasts in
      (b, level_b, before, of_record, of_embargo, of_results)
