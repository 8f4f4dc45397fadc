-- ===== src/Ingest/Limits.antt =====
-- The bounds of the rate of live CVEs and of one tick of the budget.
use fragchain_core.Prelude.{
  ℕ, Bool, true, false, List, [], ◌-◌, ◌/◌, ◌≤◌, ◌<◌, min, max, length, ltb, leb, select, str_eq,
  ◌&&◌, if◌then◌else◌, ◌≡◌, arith,
}
use native.Mathlib.Nat.{div-le_self}
use fragchain_core.Chunking.{take}
use fragchain_core.Chunking.Windows.{length-take-le}
use fragchain_core.Router.Plan.{sorted}
use fragchain_core.Ingest.{Cve}
use fragchain_core.Ingest.Budget.{
  check_live_rate, count_processed_today, check_daily_budget, created_le, drained_le, is_pending,
  live_rows, historical_rows, enforce_budget_tick,
}

-- The wait for a count.
retry : (count limit : ℕ) → ℕ
retry count limit = if ltb count limit then 0 else max 60 (3600 / max limit 1)

retry-le : (free : Bool) {wait : ℕ} → wait ≤ 3600 → (if free then 0 else max 60 wait) ≤ 3600
retry-le free h = ground arith

retry-bounds :
    (count limit : ℕ)
    → (count < limit → retry count limit ≡ 0)
      × (limit ≤ count → (60 ≤ retry count limit) × (retry count limit ≤ 3600))
unfolding retry
retry-bounds count limit = (
  λ h. ground arith,
  λ h. (ground arith, retry-le (ltb count limit) (div-le_self 3600 (max limit 1))),
)

taken :
    (n : ℕ) (p : Bool) (rows : List Cve)
    → (length (if p then take (min n 50) rows else []) ≤ 50)
      × (length (if p then take (min n 50) rows else []) ≤ n)
taken n false rows = (omega arith, omega arith)
taken n true rows =
    (omega (arith, length-take-le (min n 50) rows), omega (arith, length-take-le (min n 50) rows))

-- A live CVE is told to wait for between a minute and an hour when there are as many in the window as
-- the limit says, and not at all when there are fewer.
pub check_live_rate-retry :
    (now limit : ℕ) (cves : List Cve)
    → let check = check_live_rate now limit cves in
      (check.count_in_window < limit → check.retry_after_seconds ≡ 0)
      × (limit ≤ check.count_in_window
          → (60 ≤ check.retry_after_seconds) × (check.retry_after_seconds ≤ 3600))
unfolding check_live_rate retry
check_live_rate-retry now limit cves =
    retry-bounds
      (length (select (λ c. str_eq c.import_mode "live" && leb (now - 3600) c.created_at) cves))
      limit

-- A tick takes at most fifty live CVEs, and of the historical ones at most fifty and at most the daily
-- limit less the historical CVEs that were approved in the last day.
enforce_budget_tick-bounds :
    (send_task : Cve → Bool) (now limit : ℕ) (cves : List Cve)
    → let tick = enforce_budget_tick send_task now limit cves in
      (tick.live_pending ≤ 50)
      × (tick.historical_pending ≤ 50)
      × (tick.historical_pending ≤ limit - count_processed_today now cves)
unfolding enforce_budget_tick check_daily_budget live_rows historical_rows
enforce_budget_tick-bounds send_task now limit cves =
    let remaining = limit - count_processed_today now cves in
    let t =
      taken remaining (ltb 0 remaining)
        (sorted drained_le (select (is_pending "historical") cves)) in
    (length-take-le 50 (sorted created_le (select (is_pending "live") cves)), t.0, t.1)
