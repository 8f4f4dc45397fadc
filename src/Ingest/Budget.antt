-- ===== src/Ingest/Budget.antt =====
-- ingest/rate_limit.py and ingest/budget.py: the rate of live CVEs, the daily budget of historical
-- ones, and the rows that one tick takes. Instants are in seconds, and `now - window` stops at 0.
use fragchain_core.Prelude.{
  ℕ, String, Bool, true, false, ◌&&◌, ◌||◌, Option, none, some, List, [], ◌++◌, ◌-◌, ◌/◌, max, min,
  length, select, ltb, leb, ◌==◌, str_eq, if◌then◌else◌,
}
use fragchain_core.Router.Plan.{sorted}
use fragchain_core.Chunking.{take}
use fragchain_core.Ingest.{Cve}

pub record LiveRateCheck : Type 0 where
  pub allowed : Bool
  pub count_in_window : ℕ
  pub limit : ℕ
  pub window_seconds : ℕ
  pub retry_after_seconds : ℕ

unfoldable pub check_live_rate : ℕ → ℕ → List Cve → LiveRateCheck
check_live_rate now limit cves =
    let count =
      length (select (λ c. str_eq c.import_mode "live" && leb (now - 3600) c.created_at) cves) in
    let allowed = ltb count limit in
    record {
      allowed = allowed;
      count_in_window = count;
      limit = limit;
      window_seconds = 3600;
      retry_after_seconds = if allowed then 0 else max 60 (3600 / max limit 1);
    }

abbrev pub since : ℕ → Option ℕ → Bool
since cutoff none = false
since cutoff (some t) = leb cutoff t

unfoldable pub count_processed_today : ℕ → List Cve → ℕ
count_processed_today now cves =
    length
      (select (λ c. str_eq c.import_mode "historical" && since (now - 86400) c.approved_at) cves)

pub record BudgetCheck : Type 0 where
  pub remaining : ℕ
  pub daily_limit : ℕ
  pub used_today : ℕ

-- max(0, limit - used)
unfoldable pub check_daily_budget : ℕ → ℕ → List Cve → BudgetCheck
unfolding count_processed_today
check_daily_budget now limit cves =
    let used = count_processed_today now cves in
    record { remaining = limit - used; daily_limit = limit; used_today = used }

abbrev pub is_pending : String → Cve → Bool
is_pending mode c = str_eq c.processing_status "pending" && str_eq c.import_mode mode

abbrev pub created_le : Cve → Cve → Bool
created_le a b = leb a.created_at b.created_at

-- ORDER BY approved_at, created_at: rows without a value come last
abbrev pub approved_le : Option ℕ → Option ℕ → Bool → Bool
approved_le none none tie = tie
approved_le none (some t) tie = false
approved_le (some s) none tie = true
approved_le (some s) (some t) tie = ltb s t || (s == t && tie)

abbrev pub drained_le : Cve → Cve → Bool
drained_le a b = approved_le a.approved_at b.approved_at (created_le a b)

unfoldable pub live_rows : List Cve → List Cve
unfolding sorted
live_rows cves = take 50 (sorted created_le (select (is_pending "live") cves))

unfoldable pub historical_rows : ℕ → List Cve → List Cve
unfolding sorted
historical_rows remaining cves =
    if ltb 0 remaining
    then take (min remaining 50) (sorted drained_le (select (is_pending "historical") cves))
    else []

pub record Tick : Type 0 where
  pub sent : List Cve
  pub live_pending : ℕ
  pub historical_pending : ℕ
  pub remaining_budget : ℕ

-- `enforce_budget_tick`; a task that cannot be sent is passed over.
unfoldable pub enforce_budget_tick : (Cve → Bool) → ℕ → ℕ → List Cve → Tick
unfolding check_daily_budget live_rows historical_rows
enforce_budget_tick send_task now limit cves =
    let budget = check_daily_budget now limit cves in
    let live = live_rows cves in
    let historical = historical_rows budget.remaining cves in
    record {
      sent = select send_task (live ++ historical);
      live_pending = length live;
      historical_pending = length historical;
      remaining_budget = budget.remaining;
    }
