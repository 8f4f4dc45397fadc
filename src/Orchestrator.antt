-- ===== src/Orchestrator.antt =====
-- assessments/orchestrator.py, assessments/active_rows.py: the runs of an assessment's loops. Each
-- operation is one step on the rows, committed or rolled back whole.
pub mod Execute
pub mod Worker
pub mod Count
pub mod Finish
pub mod Invariant
pub mod Preserve
pub mod Operations
pub mod Reach
pub mod Shown
pub mod Refines
pub mod Settles
use fragchain_core.Prelude.{
  ℕ, String, Bool, true, false, not, ◌&&◌, ◌||◌, Option, none, some, List, [], ◌∷◌, ◌++◌, ◌+◌, any,
  select, map, max, ltb, ◌==◌, is_some, ◌>>=◌, if◌then◌else◌,
}
use fragchain_core.LoopState.{
  AssessmentState, LoopNumber, one, two, three, number, can_run_loop, can_close, completed,
  states_invalidated_by_rerun, RunStatus, running, gate_failed, failed, superseded, succeeded,
}
use fragchain_core.Gate.{GateResult}
use fragchain_core.PostLoop.{Output, nonblank}

-- `AssessmentLoopRun`
pub record LoopRun : Type 0 where
  pub id : ℕ
  pub assessment_id : ℕ
  pub loop_number : LoopNumber
  pub version : ℕ
  pub status : RunStatus
  pub is_active : Bool
  pub override_rationale : Option String
  pub output : Option Output
  pub gate_result : Option GateResult
  pub error : Option String
  pub started_at : ℕ
  pub completed_at : Option ℕ

-- `CoverageAssessment`
pub record CoverageAssessment : Type 0 where
  pub id : ℕ
  pub state : AssessmentState
  pub auto_advance : Bool
  pub closed_by : Option ℕ

-- A row of `audit_log`: the state before and after, and the run.
pub record StateChange : Type 0 where
  pub assessment_id : ℕ
  pub before : AssessmentState
  pub after : AssessmentState
  pub loop_number : LoopNumber
  pub version : ℕ
  pub status : RunStatus

-- The rows: assessments by id, and the runs in the order of their creation.
pub record Rows : Type 0 where
  pub assessments : ℕ → Option CoverageAssessment
  pub runs : List LoopRun
  pub audit_log : List StateChange

-- A result, an error of the module, `MultipleResultsFound` of a query for one row, or an exception
-- that escapes from a hook.
pub data Outcome (A : Type 0) : Type 0 where
  done : A → Outcome A
  not_found : Outcome A
  invalid_transition : Outcome A
  multiple_results : Outcome A
  hook_raised : Outcome A

abbrev pub same_loop : LoopNumber → LoopNumber → Bool
same_loop k l = number k == number l

abbrev pub same_status : RunStatus → RunStatus → Bool
same_status running running = true
same_status succeeded succeeded = true
same_status gate_failed gate_failed = true
same_status failed failed = true
same_status superseded superseded = true
same_status _ _ = false

unfoldable pub scalar_one_or_none : List LoopRun → Outcome (Option LoopRun)
scalar_one_or_none [] = done none
scalar_one_or_none (r ∷ []) = done (some r)
scalar_one_or_none (r ∷ s ∷ rest) = multiple_results

module _ (assessment_id : ℕ) (loop_number : LoopNumber) where
  -- The rows of one loop of one assessment.
  abbrev pub of_loop : LoopRun → Bool
  of_loop r = r.assessment_id == assessment_id && same_loop r.loop_number loop_number

  abbrev pub is_active_row : LoopRun → Bool
  is_active_row r = of_loop r && r.is_active

  abbrev pub is_running_row : LoopRun → Bool
  is_running_row r = of_loop r && same_status r.status running

  unfoldable pub running_run : List LoopRun → Bool
  running_run runs = any is_running_row runs

  -- func.coalesce(func.max(version), 0)
  unfoldable pub max_version : List LoopRun → ℕ
  max_version [] = 0
  max_version (r ∷ runs) =
      let rest = max_version runs in if of_loop r then max r.version rest else rest

  unfoldable pub next_version : List LoopRun → ℕ
  unfolding max_version
  next_version runs = max_version runs + 1

  unfoldable pub latest_active_run : List LoopRun → Outcome (Option LoopRun)
  unfolding scalar_one_or_none
  latest_active_run runs = scalar_one_or_none (select is_active_row runs)

  unfoldable pub supersede_row : LoopRun → LoopRun
  supersede_row r =
      if is_active_row r then record r { is_active = false; status = superseded } else r

  unfoldable pub supersede_prior_active_rows : List LoopRun → List LoopRun
  unfolding supersede_row
  supersede_prior_active_rows runs = map supersede_row runs

-- for downstream in states_invalidated_by_rerun(loop_number)
unfoldable pub invalidate_loops : ℕ → List LoopNumber → List LoopRun → List LoopRun
unfolding supersede_prior_active_rows
invalidate_loops assessment_id [] runs = runs
invalidate_loops assessment_id (downstream ∷ rest) runs =
    invalidate_loops assessment_id rest (supersede_prior_active_rows assessment_id downstream runs)

unfoldable pub invalidate_downstream : ℕ → LoopNumber → List LoopRun → List LoopRun
unfolding invalidate_loops states_invalidated_by_rerun
invalidate_downstream assessment_id loop_number runs =
    invalidate_loops assessment_id (states_invalidated_by_rerun loop_number) runs

abbrev pub truthy_text : Option String → Bool
truthy_text none = false
truthy_text (some s) = nonblank s

-- Whether a Loop 3 is refused for the gate of Loop 2.
abbrev pub is_refused : Option LoopRun → Option String → Bool
is_refused none rationale = false
is_refused (some loop2) rationale =
    same_status loop2.status gate_failed && not (truthy_text rationale)

-- The check that only Loop 3 makes.
unfoldable pub check_gate : List LoopRun → ℕ → LoopNumber → Option String → Outcome (Unit {0})
unfolding latest_active_run
check_gate runs assessment_id three rationale = elim (latest_active_run assessment_id two runs) [
  | done latest ↦ if is_refused latest rationale then invalid_transition else done tt
  | not_found ↦ not_found
  | invalid_transition ↦ invalid_transition
  | multiple_results ↦ multiple_results
  | hook_raised ↦ hook_raised
]
check_gate runs assessment_id _ rationale = done tt

abbrev pub add_run : LoopRun → Rows → Rows
add_run r db = record db { runs = db.runs ++ (r ∷ []) }

abbrev pub new_run : ℕ → ℕ → ℕ → LoopNumber → ℕ → Option String → LoopRun
new_run id now assessment_id loop_number version rationale = record {
  id = id;
  assessment_id = assessment_id;
  loop_number = loop_number;
  version = version;
  status = running;
  is_active = false;
  override_rationale = rationale;
  output = none;
  gate_result = none;
  error = none;
  started_at = now;
  completed_at = none;
}

-- The checks of `begin_run`.
unfoldable pub check_begin : Rows → ℕ → LoopNumber → Option String → Outcome (Unit {0})
unfolding running_run check_gate
check_begin db assessment_id loop_number rationale = elim (db.assessments assessment_id) [
  | none ↦ not_found
  | some asmt ↦
      if not (can_run_loop asmt.state loop_number)
      then invalid_transition
      else if running_run assessment_id loop_number db.runs
      then invalid_transition
      else check_gate db.runs assessment_id loop_number rationale
]

-- `begin_run`, with the new row's id and the time.
unfoldable pub begin_run : ℕ → ℕ → Rows → ℕ → LoopNumber → Option String → Rows × Outcome LoopRun
unfolding check_begin next_version
begin_run id now db assessment_id loop_number rationale =
    elim (check_begin db assessment_id loop_number rationale) [
      | not_found ↦ (db, not_found)
      | invalid_transition ↦ (db, invalid_transition)
      | multiple_results ↦ (db, multiple_results)
      | hook_raised ↦ (db, hook_raised)
      | done _ ↦
          let r =
            new_run id now assessment_id loop_number
              (next_version assessment_id loop_number db.runs) rationale in
          (add_run r db, done r)
    ]
