-- ===== src/Coverage/Persist.antt =====
-- coverage/mapper.py: `_persist_statuses`, the row of `coverage_map` for a technique. A set is the list
-- of its ids in the order of their texts, which the numbers stand for; the framework is that of the run, and the descriptive
-- columns are left out.
use fragchain_core.Prelude.{
  ℕ, String, Bool, false, ◌||◌, Option, none, some, List, [], ◌∷◌, length, select, ltb, ◌==◌,
  str_eq, if◌then◌else◌, ◌≡◌, refl, arith, Bool-cases, inl, inr, ==_iff, ap,
}
use fragchain_core.Embargo.Release.{one_of}
use fragchain_core.Coverage.{CoverageStatus}

pub record CoverageMap : Type 0 where
  pub technique_id : String
  pub covering_rule_ids : List ℕ
  pub chain_cve_ids : List ℕ
  pub chain_cve_count : ℕ
  pub kev_cve_count : ℕ
  pub kev_exposed : Bool
  pub coverage_status : String

-- sorted(s | {i})
unfoldable pub add : ℕ → List ℕ → List ℕ
add i [] = i ∷ []
add i (j ∷ ids) =
    let rest = add i ids in if i == j then j ∷ ids else if ltb i j then i ∷ j ∷ ids else j ∷ rest

unfoldable pub add_all : List ℕ → List ℕ → List ℕ
unfolding add
add_all [] ids = ids
add_all (i ∷ more) ids = add_all more (add i ids)

abbrev pub new_row : String → CoverageMap
new_row tid = record {
  technique_id = tid;
  covering_rule_ids = [];
  chain_cve_ids = [];
  chain_cve_count = 0;
  kev_cve_count = 0;
  kev_exposed = false;
  coverage_status = "";
}

-- The columns that one status writes to its row, given which CVEs are known to be exploited.
unfoldable pub merged : (ℕ → Bool) → ℕ → CoverageStatus → CoverageMap → CoverageMap
unfolding add_all add
merged is_kev cve_id s row =
    let chain_cves = add cve_id (add_all row.chain_cve_ids []) in
    let kev_count = length (select is_kev chain_cves) in
    record row {
      covering_rule_ids =
          add_all s.partial_rule_ids
            (add_all s.covering_rule_ids (add_all row.covering_rule_ids []));
      chain_cve_ids = chain_cves;
      chain_cve_count = length chain_cves;
      kev_cve_count = kev_count;
      kev_exposed = ltb 0 kev_count;
      coverage_status = s.coverage_status;
    }

-- One turn of the loop over the statuses: the row of the technique, or a new one.
unfoldable pub persist_status :
    (ℕ → Bool) → ℕ → CoverageStatus → (String → Option CoverageMap) → String → Option CoverageMap
unfolding merged
persist_status is_kev cve_id s rows tid =
    if str_eq tid s.technique_id
    then some (
        merged is_kev cve_id s
          (elim (rows s.technique_id) [ none ↦ new_row s.technique_id | some row ↦ row ]))
    else rows tid

unfoldable pub persist_statuses :
    (ℕ → Bool)
    → ℕ
    → List CoverageStatus
    → (String → Option CoverageMap)
    → String
    → Option CoverageMap
unfolding persist_status
persist_statuses is_kev cve_id [] rows = rows
persist_statuses is_kev cve_id (s ∷ rest) rows =
    persist_statuses is_kev cve_id rest (persist_status is_kev cve_id s rows)

one_of-add : (i : ℕ) (ids : List ℕ) (r : ℕ) → one_of (add i ids) r ≡ (r == i || one_of ids r)
unfolding add one_of
one_of-add i [] r = refl
one_of-add i (j ∷ ids) r = elim (Bool-cases (i == j)) [
  | inl same ↦ ground (arith, ap (λ x. r == x) ((==_iff i j).0 same))
  | inr other ↦ ground (arith, one_of-add i ids r)
]

one_of-add_all :
    (more ids : List ℕ) (r : ℕ) → one_of (add_all more ids) r ≡ (one_of more r || one_of ids r)
unfolding add_all one_of
one_of-add_all [] ids r = refl
one_of-add_all (i ∷ more) ids r =
    ground (arith, one_of-add_all more (add i ids) r, one_of-add i ids r)

-- After a status is written, the row names the rules that it named before and those of the status,
-- covering or partial, and no other; and it names the CVE beside those that it named.
pub merged-rules :
    (is_kev : ℕ → Bool) (cve_id : ℕ) (s : CoverageStatus) (row : CoverageMap) (r : ℕ)
    → let after = merged is_kev cve_id s row in
      (one_of after.covering_rule_ids r ≡ (
        one_of row.covering_rule_ids r
        || one_of s.covering_rule_ids r
        || one_of s.partial_rule_ids r))
      × (one_of after.chain_cve_ids r ≡ (r == cve_id || one_of row.chain_cve_ids r))
unfolding merged one_of
merged-rules is_kev cve_id s row r =
    let kept = add_all row.covering_rule_ids [] in
    (
      ground (
        arith,
        one_of-add_all s.partial_rule_ids (add_all s.covering_rule_ids kept) r,
        one_of-add_all s.covering_rule_ids kept r,
        one_of-add_all row.covering_rule_ids [] r,
      ),
      ground (
        arith,
        one_of-add cve_id (add_all row.chain_cve_ids []) r,
        one_of-add_all row.chain_cve_ids [] r,
      ),
    )
