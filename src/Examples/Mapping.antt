-- ===== src/Examples/Mapping.antt =====
-- coverage/mapper.py: a technique that one rule covers and another half covers, its priority, and
-- answers of a model that are read as verdicts.
use fragchain_core.Prelude.{
  List, if◌then◌else◌, true, false, not, ◌&&◌, ◌||◌, some, none, ◌==◌, [], ◌∷◌, ◌≡◌, refl,
}
use fragchain_core.Embargo.Release.{one_of}
use fragchain_core.Coverage.{
  phase2_input, tag_matches, VerifyOutcome, ChainTtp, CveScores, CoverageStatus, Found,
  normalise_verdict, technique_status, statuses,
}
use fragchain_core.Coverage.Persist.{CoverageMap, merged, persist_statuses, merged-rules}
use fragchain_core.Coverage.Matches.{names, is_verified}
use fragchain_core.Coverage.Laws.{covers, half_covers, technique_status-rules}

abbrev ttp : ChainTtp
ttp = record { technique_id = "T1190"; seq_order = 1 }

abbrev scores : CveScores
scores = record {
  cisa_kev = true;
  cvss_score = some 980000;
  epss_score = some 20000;
  attackerkb_score = none;
}

abbrev found_verdicts : List VerifyOutcome
found_verdicts =
    record { technique_id = "T1190"; rule_id = 6; verdict = "partial" }
    ∷ record { technique_id = "T1190"; rule_id = 7; verdict = "yes" }
    ∷ record { technique_id = "T1190"; rule_id = 6; verdict = "partial" }
    ∷ []

-- Of the rules with the tag, 5 is verified, 8 is demoted and 9 is dropped.
abbrev phases : Found
phases = record {
  verify_on = false;
  has_provider = true;
  tagged = λ tid. 5 ∷ 8 ∷ 9 ∷ [];
  tag_verdict = λ t r. if r == 5 then "yes" else if r == 8 then "partial" else "no";
  search = λ ttps. elim ttps [ [] ↦ [] | t ∷ rest ↦ found_verdicts ];
  has_poc = true;
  shared_gaps = λ tid. 1 ∷ 2 ∷ [];
}

abbrev verified : Found
verified = record phases { verify_on = true }

-- The technique is verified, and nothing is searched for.
kept_and_demoted :
    ((technique_status 1 scores verified (ttp ∷ []) ttp).covering_rule_ids ≡ 5 ∷ [])
    × ((technique_status 1 scores verified (ttp ∷ []) ttp).partial_rule_ids ≡ 8 ∷ [])
unfolding technique_status
kept_and_demoted = (refl, refl)

technique_status-rules_example :
    let status = technique_status 1 scores verified (ttp ∷ []) ttp in
    (one_of status.covering_rule_ids 9 ≡ covers verified (ttp ∷ []) ttp 9)
    × (one_of status.partial_rule_ids 9
        ≡ (half_covers verified (ttp ∷ []) ttp 9 && not (covers verified (ttp ∷ []) ttp 9)))
    × (status.coverage_status ≡ "gap"
        → (covers verified (ttp ∷ []) ttp 9 || half_covers verified (ttp ∷ []) ttp 9) ≡ false)
    × (verified.verify_on ≡ true
        → is_verified verified ttp 9 ≡ true
        → names "T1190" (phase2_input verified (tag_matches verified (ttp ∷ [])) (ttp ∷ []))
          ≡ false)
technique_status-rules_example = technique_status-rules 1 scores verified [] [] ttp 9 refl refl refl

-- Without the verification, the rules with the tag alone are in neither list.
mapped :
    statuses 1 scores phases (ttp ∷ [])
    ≡ record {
      technique_id = "T1190";
      seq_order = 1;
      coverage_status = "covered";
      covering_rule_ids = 7 ∷ [];
      partial_rule_ids = 6 ∷ [];
      priority_score = 90;
    }
      ∷ []
unfolding statuses
mapped = refl

tagged_only :
    (technique_status 1 scores
      (record phases { search = λ ttps. [] })
      (ttp ∷ [])
      ttp).priority_score
    ≡ 95
unfolding technique_status
tagged_only = refl

read_as_partial : normalise_verdict "No, not even partial" ≡ "partial"
unfolding normalise_verdict
read_as_partial = refl

read_as_no : normalise_verdict "Unknown" ≡ "no"
unfolding normalise_verdict
read_as_no = refl

-- A row that an earlier chain covered.
abbrev known : CoverageMap
known = record {
  technique_id = "T1190";
  covering_rule_ids = 9 ∷ 3 ∷ [];
  chain_cve_ids = 2 ∷ [];
  chain_cve_count = 1;
  kev_cve_count = 0;
  kev_exposed = false;
  coverage_status = "covered";
}

abbrev gap : CoverageStatus
gap = record {
  technique_id = "T1190";
  seq_order = 1;
  coverage_status = "gap";
  covering_rule_ids = [];
  partial_rule_ids = [];
  priority_score = 0;
}

merged-rules_example :
    let after = merged (λ c. true) 1 gap known in
    (one_of after.covering_rule_ids 3 ≡ (
      one_of known.covering_rule_ids 3
      || one_of gap.covering_rule_ids 3
      || one_of gap.partial_rule_ids 3))
    × (one_of after.chain_cve_ids 3 ≡ (3 == 1 || one_of known.chain_cve_ids 3))
merged-rules_example = merged-rules (λ c. true) 1 gap known 3

-- The row keeps the rules and is marked as a gap.
gap_with_rules :
    persist_statuses (λ c. true) 1 (gap ∷ []) (λ tid. some known) "T1190"
    ≡ some record {
      technique_id = "T1190";
      covering_rule_ids = 3 ∷ 9 ∷ [];
      chain_cve_ids = 1 ∷ 2 ∷ [];
      chain_cve_count = 2;
      kev_cve_count = 2;
      kev_exposed = true;
      coverage_status = "gap";
    }
unfolding persist_statuses
gap_with_rules = refl
