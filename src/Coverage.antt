-- ===== src/Coverage.antt =====
-- fragchain/coverage/mapper.py: the coverage of a chain's techniques by rules. The rules with a tag, the
-- verdict of a model on a rule for a technique, and what the semantic search and its verification
-- find are arguments.
pub mod Matches
pub mod Laws
pub mod Persist
use fragchain_core.Prelude.{
  ℕ, String, Bool, true, false, not, ◌&&◌, ◌||◌, Option, none, some, List, [], ◌∷◌, ◌++◌, ◌+◌, ◌*◌,
  ◌-◌, map, select, length, ltb, leb, codes, strip, lower, str_eq, if◌then◌else◌,
}
use fragchain_core.Embargo.Release.{one_of}
use fragchain_core.Routing.{is_prefix, is_infix}

pub record VerifyOutcome : Type 0 where
  pub technique_id : String
  pub rule_id : ℕ
  pub verdict : String

pub record ChainTtp : Type 0 where
  pub technique_id : String
  pub seq_order : ℕ

-- The scores of a CVE, in units of 0.00001, the finest of their columns.
pub record CveScores : Type 0 where
  pub cisa_kev : Bool
  pub cvss_score : Option ℕ
  pub epss_score : Option ℕ
  pub attackerkb_score : Option ℕ

pub record CoverageStatus : Type 0 where
  pub technique_id : String
  pub seq_order : ℕ
  pub coverage_status : String
  pub covering_rule_ids : List ℕ
  pub partial_rule_ids : List ℕ
  pub priority_score : ℕ

-- text == token or text.startswith(token + " ") or text.startswith(token + ".")
unfoldable pub begins_with_token : List ℕ → List ℕ → Bool
begins_with_token token text =
    (is_prefix token text && is_prefix text token)
    || is_prefix (token ++ (32 ∷ [])) text
    || is_prefix (token ++ (46 ∷ [])) text

-- The first of the tokens that passes a test.
abbrev pub first_token : (List ℕ → Bool) → String → String
first_token test otherwise =
    if test (codes "partial")
    then "partial"
    else if test (codes "yes")
    then "yes"
    else if test (codes "no")
    then "no"
    else otherwise

-- `_normalise_verdict`, of a text
unfoldable pub normalise_verdict : String → String
unfolding begins_with_token strip lower
normalise_verdict raw =
    let text_value = map lower (strip (codes raw)) in
    first_token (λ token. not (is_prefix text_value []) && begins_with_token token text_value)
      (first_token (λ token. is_infix token text_value) "error")

-- The rules that a technique's verdicts of one kind name.
unfoldable pub bucket : String → String → List VerifyOutcome → List ℕ
bucket tid verdict verdicts =
    map (λ (v : VerifyOutcome). v.rule_id)
      (select (λ (v : VerifyOutcome). str_eq v.technique_id tid && str_eq v.verdict verdict)
        verdicts)

-- covering.extend(r for r in rules if r not in covering), which reads `covering` as it grows
unfoldable pub extend_covering : List ℕ → List ℕ → List ℕ
unfolding one_of
extend_covering covering [] = covering
extend_covering covering (r ∷ rules) =
    extend_covering (if one_of covering r then covering else covering ++ (r ∷ [])) rules

-- partial.extend(r for r in rules if r not in covering and r not in partial)
unfoldable pub extend_partial : List ℕ → List ℕ → List ℕ → List ℕ
unfolding one_of
extend_partial covering found [] = found
extend_partial covering found (r ∷ rules) =
    extend_partial covering
      (if not (one_of covering r) && not (one_of found r) then found ++ (r ∷ []) else found) rules

abbrev pub reaches : ℕ → Option ℕ → Bool
reaches least none = false
reaches least (some score) = leb least score

unfoldable pub calculate_priority : CveScores → ℕ → Bool → ℕ → ℕ
calculate_priority cve seq_order has_poc shared_count =
    (if cve.cisa_kev then 30 else 0)
    + (if reaches 900000 cve.cvss_score then 20 else 0)
    + (if reaches 50000 cve.epss_score then 20 else if reaches 20000 cve.epss_score then 15 else 0)
    + (if has_poc then 15 else 0)
    + (if reaches 350000 cve.attackerkb_score then 10 else 0)
    + (if leb seq_order 3 then 10 else 0)
    + 5 * shared_count

-- How many other CVEs have the gap.
unfoldable pub shared_gap_count : ℕ → List ℕ → ℕ
unfolding one_of
shared_gap_count cve_id ids = if one_of ids cve_id then length ids - 1 else length ids

abbrev pub status_of : List ℕ → List ℕ → String
status_of [] [] = "gap"
status_of [] (r ∷ found) = "partial"
status_of (r ∷ covering) found = "covered"

-- What the database and the model answer: the rules with the tag of a technique, in the order in which
-- their verifications end; whether there is a provider of a model; its verdict on such a rule; the
-- verdicts on what the semantic search finds for the techniques that it is given; and for each
-- technique the CVEs that have it as a gap.
pub record Found : Type 0 where
  pub verify_on : Bool
  pub has_provider : Bool
  pub tagged : String → List ℕ
  pub tag_verdict : ChainTtp → ℕ → String
  pub search : List ChainTtp → List VerifyOutcome
  pub has_poc : Bool
  pub shared_gaps : String → List ℕ

-- The dicts `phase1` and `phase1_5_partial`; a missing key is the empty list.
pub record TagMatches : Type 0 where
  pub phase1 : String → List ℕ
  pub phase1_5_partial : String → List ℕ

abbrev pub set_key : String → List ℕ → (String → List ℕ) → String → List ℕ
set_key key rules dict tid = if str_eq tid key then rules else dict tid

abbrev pub is_empty : List ℕ → Bool
is_empty [] = true
is_empty (r ∷ rules) = false

-- `_phase1_5_verify_tag_match`: the rules that are kept, and those that are demoted.
unfoldable pub verify_tag_match : Found → ChainTtp → List ℕ → List ℕ × List ℕ
verify_tag_match f ttp rules =
    if f.has_provider
    then (
      select (λ r. str_eq (f.tag_verdict ttp r) "yes") rules,
      select (λ r. str_eq (f.tag_verdict ttp r) "partial") rules,
    )
    else (rules, [])

-- One turn of the loop of phase 1.5.
unfoldable pub verify_ttp : Found → ChainTtp → TagMatches → TagMatches
unfolding verify_tag_match
verify_ttp f ttp m =
    let tid = ttp.technique_id in
    let found = verify_tag_match f ttp (m.phase1 tid) in
    if str_eq tid "" then m else record {
      phase1 = set_key tid found.0 m.phase1;
      phase1_5_partial =
          if is_empty found.1 then m.phase1_5_partial else set_key tid found.1 m.phase1_5_partial;
    }

unfoldable pub verify_ttps : Found → List ChainTtp → TagMatches → TagMatches
unfolding verify_ttp
verify_ttps f [] m = m
verify_ttps f (ttp ∷ ttps) m = verify_ttps f ttps (verify_ttp f ttp m)

-- Phase 1, and phase 1.5 if the verification is on.
unfoldable pub tag_matches : Found → List ChainTtp → TagMatches
unfolding verify_ttps
tag_matches f ttps =
    let start : TagMatches = record { phase1 = f.tagged; phase1_5_partial = λ tid. [] } in
    let verified = verify_ttps f ttps start in if f.verify_on then verified else start

-- The techniques that are searched for: with the verification on, those with no rule left.
unfoldable pub phase2_input : Found → TagMatches → List ChainTtp → List ChainTtp
phase2_input f m ttps =
    select
      (λ (t : ChainTtp).
        not (str_eq t.technique_id "") && (not f.verify_on || is_empty (m.phase1 t.technique_id)))
      ttps

unfoldable pub verdicts_of : Found → List ChainTtp → List VerifyOutcome
unfolding tag_matches phase2_input
verdicts_of f ttps = f.search (phase2_input f (tag_matches f ttps) ttps)

unfoldable pub covering_rules : Found → TagMatches → List VerifyOutcome → String → List ℕ
unfolding extend_covering bucket
covering_rules f m verdicts tid =
    extend_covering (if f.verify_on then m.phase1 tid else []) (bucket tid "yes" verdicts)

unfoldable pub partial_rules : Found → TagMatches → List VerifyOutcome → String → List ℕ
unfolding covering_rules extend_partial bucket
partial_rules f m verdicts tid =
    let covering = covering_rules f m verdicts tid in
    extend_partial covering (extend_partial covering [] (m.phase1_5_partial tid))
      (bucket tid "partial" verdicts)

-- One turn of the loop over the techniques of the chain.
unfoldable pub technique_status : ℕ → CveScores → Found → List ChainTtp → ChainTtp → CoverageStatus
unfolding tag_matches verdicts_of covering_rules partial_rules calculate_priority shared_gap_count
technique_status cve_id cve f ttps ttp =
    let m = tag_matches f ttps in
    let verdicts = verdicts_of f ttps in
    let covering = covering_rules f m verdicts ttp.technique_id in
    let found = partial_rules f m verdicts ttp.technique_id in
    let status = status_of covering found in
    record {
      technique_id = ttp.technique_id;
      seq_order = ttp.seq_order;
      coverage_status = status;
      covering_rule_ids = covering;
      partial_rule_ids = found;
      priority_score = calculate_priority cve ttp.seq_order f.has_poc (
          if str_eq status "gap"
          then shared_gap_count cve_id (f.shared_gaps ttp.technique_id)
          else 0);
    }

unfoldable pub statuses : ℕ → CveScores → Found → List ChainTtp → List CoverageStatus
unfolding technique_status
statuses cve_id cve f ttps =
    map (technique_status cve_id cve f ttps)
      (select (λ (t : ChainTtp). not (str_eq t.technique_id "")) ttps)
