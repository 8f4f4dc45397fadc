-- ===== src/Ingest/Merge.antt =====
-- ingest/service.py: the results of the enrichment connectors, merged and written to a CVE. `none` is
-- an exception of `TLP.parse`. Instants have a zone; the two ISO parsers are arguments.
use fragchain_core.Prelude.{
  ℕ, String, Bool, true, false, not, ◌&&◌, ◌||◌, Option, none, some, List, [], ◌∷◌, ◌++◌, map,
  length, ltb, ◌==◌, str_eq, codes, strip, ◌>>=◌, if◌then◌else◌,
}
use fragchain_core.Tlp.{Level, Value, level, parse, max_tlp}

-- A value of a connector's dict; a date or a datetime is its day.
pub data FieldValue : Type 0 where
  null : FieldValue
  number : ℕ → FieldValue
  flag : Bool → FieldValue
  string : String → FieldValue
  day : ℕ → FieldValue

abbrev pub truthy : FieldValue → Bool
truthy null = false
truthy (number n) = not (n == 0)
truthy (flag b) = b
truthy (string s) = not (str_eq s "")
truthy (day d) = true

pub record AttackPattern : Type 0 where
  pub technique_id : String
  pub source : Option String

pub record EnrichmentResult : Type 0 where
  pub structured : List (String × FieldValue)
  pub documents : List ℕ
  pub attack_patterns : List AttackPattern
  pub tlp : Value
  pub embargo_until : Option ℕ

-- The counts that `sources` keeps of a connector.
pub record SourceSummary : Type 0 where
  pub structured_keys : ℕ
  pub documents : ℕ
  pub patterns : ℕ

-- The dict `merged`, with the local `tlps`; a missing key is empty.
pub record Merged : Type 0 where
  pub cisa_kev : Bool
  pub cisa_kev_date : Option ℕ
  pub epss_score : FieldValue
  pub epss_percentile : FieldValue
  pub attackerkb_score : FieldValue
  pub attackerkb_data : Option (List (String × FieldValue))
  pub ctid_techniques : List AttackPattern
  pub documents : List (ℕ × String)
  pub enrichment_sources : String → Option SourceSummary
  pub tlps : List Value
  pub embargo_until : Option ℕ

-- What the merge reads of a record.
pub record SourceRecord : Type 0 where
  pub cisa_kev : Bool
  pub tlp : Value
  pub embargo_until : Option ℕ

abbrev pub is_empty_text : List ℕ → Bool
is_empty_text [] = true
is_empty_text (c ∷ s) = false

abbrev pub or_else : Option ℕ → Option ℕ → Option ℕ
or_else none other = other
or_else (some d) other = some d

abbrev pub is_nonempty : {A : Type 0} → List A → Bool
is_nonempty [] = false
is_nonempty (a ∷ l) = true

abbrev pub sourced : String → AttackPattern → AttackPattern
sourced connector p = record p {
  source = elim p.source [
    | none ↦ some connector
    | some s ↦ if str_eq s "" then some connector else some s
  ];
}

-- The later of the two, when the second is given.
unfoldable pub later : Option ℕ → Option ℕ → Option ℕ
later current none = current
later none (some t) = some t
later (some u) (some t) = if ltb u t then some t else some u

-- What follows the loop over the structured values.
unfoldable pub merge_rest : String → EnrichmentResult → Level → Merged → Merged
unfolding later
merge_rest connector result tlp m = record m {
  ctid_techniques =
      if is_nonempty result.attack_patterns
      then map (sourced connector) result.attack_patterns
      else m.ctid_techniques;
  documents = m.documents ++ map (λ (d : ℕ). (d, connector)) result.documents;
  attackerkb_data =
      if str_eq connector "attackerkb" && is_nonempty result.structured
      then some result.structured
      else m.attackerkb_data;
  enrichment_sources = λ name.
      if str_eq name connector
      then some record {
        structured_keys = length result.structured;
        documents = length result.documents;
        patterns = length result.attack_patterns;
      }
      else m.enrichment_sources name;
  tlps = m.tlps ++ (level tlp ∷ []);
  embargo_until = later m.embargo_until result.embargo_until;
}

abbrev pub start : SourceRecord → Level → Merged
start r tlp = record {
  cisa_kev = r.cisa_kev;
  cisa_kev_date = none;
  epss_score = null;
  epss_percentile = null;
  attackerkb_score = null;
  attackerkb_data = none;
  ctid_techniques = [];
  documents = [];
  enrichment_sources = λ name. none;
  tlps = level tlp ∷ [];
  embargo_until = r.embargo_until;
}

-- The columns of a CVE that the merge writes.
pub record EnrichedCve : Type 0 where
  pub epss_score : FieldValue
  pub epss_fetched_at : Option ℕ
  pub epss_percentile : FieldValue
  pub attackerkb_score : FieldValue
  pub attackerkb_data : Option (List (String × FieldValue))
  pub ctid_techniques : List AttackPattern
  pub cisa_kev : Bool
  pub cisa_kev_date : Option ℕ
  pub tlp : Value
  pub embargo_until : Option ℕ
  pub enrichment_sources : String → Option SourceSummary

abbrev pub or_value : FieldValue → FieldValue → FieldValue
or_value null old = old
or_value value old = value

abbrev pub or_summary : Option SourceSummary → Option SourceSummary → Option SourceSummary
or_summary none old = old
or_summary (some summary) old = some summary

abbrev pub is_null : FieldValue → Bool
is_null null = true
is_null _ = false

-- `_apply_merged_enrichment`, at a time; the new level is computed first, since it may raise.
unfoldable pub apply_merged_enrichment : ℕ → Merged × Level → EnrichedCve → Option EnrichedCve
unfolding max_tlp
apply_merged_enrichment now (m, tlp) cve = max_tlp (level tlp ∷ cve.tlp ∷ []) >>= λ highest.
    some record {
      epss_score = or_value m.epss_score cve.epss_score;
      epss_fetched_at = if is_null m.epss_score then cve.epss_fetched_at else some now;
      epss_percentile = or_value m.epss_percentile cve.epss_percentile;
      attackerkb_score = or_value m.attackerkb_score cve.attackerkb_score;
      attackerkb_data = elim m.attackerkb_data [ none ↦ cve.attackerkb_data | some d ↦ some d ];
      ctid_techniques =
          if is_nonempty m.ctid_techniques then m.ctid_techniques else cve.ctid_techniques;
      cisa_kev = m.cisa_kev || cve.cisa_kev;
      cisa_kev_date = or_else m.cisa_kev_date cve.cisa_kev_date;
      tlp = level highest;
      embargo_until = or_else m.embargo_until cve.embargo_until;
      enrichment_sources =
          λ name. or_summary (m.enrichment_sources name) (cve.enrichment_sources name);
    }

module _ (date_of moment_of : List ℕ → Option ℕ) where
  -- `_coerce_date`; `moment_of` is given the text with `Z` replaced.
  unfoldable pub coerce_date : FieldValue → Option ℕ
  unfolding strip
  coerce_date null = none
  coerce_date (number n) = none
  coerce_date (flag b) = none
  coerce_date (day d) = some d
  coerce_date (string s) =
      let text_value = strip (codes s) in
      if is_empty_text text_value then none else or_else (date_of text_value) (moment_of text_value)

  -- One turn of the loop over the structured values.
  unfoldable pub merge_field : String × FieldValue → Merged → Merged
  unfolding coerce_date
  merge_field (key, value) m =
      if str_eq key "epss.score" || str_eq key "epss_score"
      then record m { epss_score = value }
      else if str_eq key "epss.percentile" || str_eq key "epss_percentile"
      then record m { epss_percentile = value }
      else if str_eq key "attackerkb.score" || str_eq key "attackerkb_score"
      then record m { attackerkb_score = value }
      else if str_eq key "kev.flag" || str_eq key "cisa_kev"
      then record m { cisa_kev = truthy value }
      else if str_eq key "kev.date_added" || str_eq key "cisa_kev_date"
      then record m { cisa_kev_date = coerce_date value }
      else m

  unfoldable pub merge_fields : List (String × FieldValue) → Merged → Merged
  unfolding merge_field
  merge_fields [] m = m
  merge_fields (f ∷ fields) m = merge_fields fields (merge_field f m)

  unfoldable pub merge_result : String → Option EnrichmentResult → Merged → Option Merged
  unfolding merge_fields merge_rest parse
  merge_result connector none m = some m
  merge_result connector (some result) m = parse result.tlp >>= λ tlp.
      some (merge_rest connector result tlp (merge_fields result.structured m))

  unfoldable pub merge_results : List (String × Option EnrichmentResult) → Merged → Option Merged
  unfolding merge_result
  merge_results [] m = some m
  merge_results ((connector, result) ∷ enrichments) m =
      merge_result connector result m >>= λ next. merge_results enrichments next

  -- `_merge_enrichments`, with the level that it gives
  unfoldable pub merge_enrichments :
      SourceRecord → List (String × Option EnrichmentResult) → Option (Merged × Level)
  unfolding merge_results parse max_tlp
  merge_enrichments r enrichments = do
    tlp ← parse r.tlp
    merged ← merge_results enrichments (start r tlp)
    highest ← max_tlp merged.tlps
    some (merged, highest)

  -- The merge, and its writing to a CVE, for a dict of results that is not empty.
  unfoldable pub enrich :
      ℕ → SourceRecord → List (String × Option EnrichmentResult) → EnrichedCve → Option EnrichedCve
  unfolding merge_enrichments apply_merged_enrichment
  enrich now r enrichments cve =
      merge_enrichments r enrichments >>= λ merged. apply_merged_enrichment now merged cve

  -- if enrichments: …
  unfoldable pub enrich_if_any :
      ℕ → SourceRecord → List (String × Option EnrichmentResult) → EnrichedCve → Option EnrichedCve
  unfolding enrich
  enrich_if_any now r [] cve = some cve
  enrich_if_any now r (e ∷ enrichments) cve = enrich now r (e ∷ enrichments) cve
