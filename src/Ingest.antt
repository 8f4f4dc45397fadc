-- ===== src/Ingest.antt =====
-- fragchain/ingest: the import of CVEs. A row of `cves` and its audit rows; the children have its
-- stages, the filters of an import, and the limits of rate and budget.
pub mod Stages
pub mod Filters
pub mod Budget
pub mod Laws
pub mod Limits
pub mod Accepted
pub mod Merge
pub mod Classified
use fragchain_core.Prelude.{ℕ, String, Option, List}

pub record Cve : Type 0 where
  pub id : ℕ
  pub import_mode : String
  pub processing_status : String
  pub processing_stage : Option String
  pub processing_error : Option String
  pub approved_by : Option String
  pub approved_at : Option ℕ
  pub created_at : ℕ

-- The audit row of one transition.
pub record StatusChange : Type 0 where
  pub before : String
  pub after : String
  pub note : Option String
