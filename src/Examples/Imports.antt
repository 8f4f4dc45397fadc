-- ===== src/Examples/Imports.antt =====
-- ingest: one historical CVE that is approved, the rate, and a tick on a day whose approvals have
-- reached the limit.
use fragchain_core.Prelude.{
  ℕ, String, true, false, not, ◌||◌, ◌*◌, Option, none, some, List, [], ◌∷◌, ◌-◌, ◌≤◌, ◌≡◌, refl,
}
use fragchain_core.Embargo.{Datetime, in_utc}
use fragchain_core.Ingest.Filters.{ImportFilters, CveRecord, score_ok, apply_basic_filters}
use fragchain_core.Ingest.Accepted.{apply_basic_filters-accepted}
use fragchain_core.Ingest.{Cve, StatusChange}
use fragchain_core.Ingest.Stages.{
  set_processing_stage, set_processing_failed, mark_approved, mark_skipped,
}
use fragchain_core.Ingest.Laws.{replay, IsTrail, transitions-IsTrail}
use fragchain_core.Ingest.Budget.{check_live_rate, enforce_budget_tick}

abbrev staged : Cve
staged = record {
  id = 1;
  import_mode = "historical";
  processing_status = "staged";
  processing_stage = none;
  processing_error = none;
  approved_by = none;
  approved_at = none;
  created_at = 10;
}

transitions-IsTrail_example :
    ((stage error shortened : String)
      → IsTrail "staged" (set_processing_failed stage error shortened (staged, [])))
    × ((new_status : String) (stage remark : Option String) (after : Cve × List StatusChange)
        → set_processing_stage new_status stage remark (staged, []) ≡ some after
        → IsTrail "staged" after)
    × ((now : ℕ) (actor : String) (after : Cve × List StatusChange)
        → mark_approved now actor (staged, []) ≡ some after
        → IsTrail "staged" after)
    × ((reason : Option String) (after : Cve × List StatusChange)
        → mark_skipped reason (staged, []) ≡ some after
        → IsTrail "staged" after)
unfolding replay
transitions-IsTrail_example = transitions-IsTrail "staged" staged [] refl

abbrev approved : Cve
approved = record staged {
  processing_status = "pending";
  approved_by = some "ann";
  approved_at = some 99000;
}

abbrev live : Cve
live = record staged { import_mode = "live"; processing_status = "pending"; created_at = 99500 }

saturated : (check_live_rate 100000 1 (live ∷ approved ∷ [])).retry_after_seconds ≡ 3600
unfolding check_live_rate
saturated = refl

-- The approval itself has used the day's budget: the CVE is not drained.
not_drained :
    (enforce_budget_tick (λ c. true) 100000 1 (live ∷ approved ∷ [])).historical_pending ≡ 0
unfolding enforce_budget_tick
not_drained = refl

abbrev week : ImportFilters
week = record {
  date_from = some record { instant = 900000; aware = true };
  date_to = none;
  cvss_min = some 70;
  kev_only = true;
  vendor = "";
  product = "";
  cve_ids = [];
  published_within_days = some 7;
  epss_min = none;
  attackerkb_min = none;
  not_in_commons = false;
}

abbrev recent : CveRecord
recent = record {
  upper_id = some "CVE-1";
  published = some record { instant = 950000; aware = false };
  cvss_v3 = some 98;
  cisa_kev = true;
  products = [];
}

accepted_recent : apply_basic_filters recent week 1000000 ≡ some true
unfolding apply_basic_filters
accepted_recent = refl

apply_basic_filters-accepted_example :
    (d : Datetime) × (recent.published ≡ some d)
    × (1000000 - 7 * 86400 ≤ (in_utc d).instant)
    × ((from : Datetime) → week.date_from ≡ some from → from.instant ≤ (in_utc d).instant)
    × ((to : Datetime) → week.date_to ≡ some to → (in_utc d).instant ≤ to.instant)
    × (score_ok week.cvss_min recent.cvss_v3 ≡ true)
    × ((not week.kev_only || recent.cisa_kev) ≡ true)
apply_basic_filters-accepted_example =
    apply_basic_filters-accepted recent week 1000000 7 refl refl accepted_recent
