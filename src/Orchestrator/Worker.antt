-- ===== src/Orchestrator/Worker.antt =====
-- worker/tasks/run_assessment_loop.py, worker/tasks/reaper.py, assessments/loop_chain.py and
-- assessments/service.py: the tasks that run, fail and chain the loops, and the closing of an
-- assessment. Queues and events are left out: what is enqueued is returned.
use fragchain_core.Prelude.{
  ℕ, String, Bool, false, ◌&&◌, Option, none, some, ◌-◌, map, ltb, ◌==◌, select, length,
  if◌then◌else◌,
}
use fragchain_core.LoopState.{
  completed, can_close, LoopNumber, one, two, three, number, running, failed, ChainDecision, noop,
  stop, dispatch, decide_next,
}
use fragchain_core.Orchestrator.{
  LoopRun, CoverageAssessment, Rows, Outcome, done, not_found, invalid_transition, multiple_results,
  hook_raised, same_status, begin_run,
}
use fragchain_core.Orchestrator.Execute.{
  Environment, execute_run, lookup_run, update_run, put_assessment,
}

-- The columns that a recovery writes to a row that is still running.
unfoldable pub fail_row : ℕ → String → LoopRun → LoopRun
fail_row now error r =
    if same_status r.status running
    then record r { status = failed; error = some error; completed_at = some now }
    else r

-- `_finalize_failed`, and the run that it returns
unfoldable pub finalize_failed : ℕ → String → ℕ → Rows → Rows × Option LoopRun
unfolding lookup_run update_run fail_row
finalize_failed now error run_id db = elim (lookup_run run_id db.runs) [
  | none ↦ (db, none)
  | some r ↦ (
    record db { runs = update_run run_id (fail_row now error) db.runs },
    some (fail_row now error r),
  )
]

-- LoopNumber(loop_number)
unfoldable pub loop_of : ℕ → Option LoopNumber
loop_of n =
    if n == 1 then some one else if n == 2 then some two else if n == 3 then some three else none

abbrev pub auto_advance_of : Option CoverageAssessment → Bool
auto_advance_of none = false
auto_advance_of (some asmt) = asmt.auto_advance

-- The id of a run that `_begin_next` made, which `_enqueue` is given.
abbrev pub begun : Rows × Outcome LoopRun → Rows × Option ℕ
begun (db, done r) = (db, some r.id)
begun (db, _) = (db, none)

-- `_begin_next`; `LoopNumber(…)` raises for another number, and what raises is passed over.
unfoldable pub begin_next : ℕ → ℕ → Rows → LoopRun → Option LoopNumber → Rows × Option ℕ
begin_next id now db r none = (db, none)
begin_next id now db r (some loop) = begun (begin_run id now db r.assessment_id loop none)

-- The branches of `advance_after_run` on the decision.
unfoldable pub follow : ℕ → ℕ → Rows → LoopRun → ChainDecision → Rows × Option ℕ
unfolding begin_next loop_of
follow id now db r noop = (db, none)
follow id now db r (stop reason) = (db, none)
follow id now db r (dispatch next_loop) = begin_next id now db r (loop_of next_loop)

-- `advance_after_run`, with the id of a new run
unfoldable pub advance_after_run : ℕ → ℕ → Rows → LoopRun → Bool → Rows × Option ℕ
unfolding follow
advance_after_run id now db r auto_advance =
    follow id now db r (decide_next r.status (number r.loop_number) auto_advance)

-- The `except` of `_run`: the session of the execution is rolled back to `db`.
unfoldable pub recover : ℕ → ℕ → Rows → Rows × Outcome LoopRun → Rows × Option LoopRun
unfolding finalize_failed
recover now run_id db (after, done r) = (after, some r)
recover now run_id db (_, not_found) = finalize_failed now "raised" run_id db
recover now run_id db (_, invalid_transition) = finalize_failed now "raised" run_id db
recover now run_id db (_, multiple_results) = finalize_failed now "raised" run_id db
recover now run_id db (_, hook_raised) = finalize_failed now "raised" run_id db

-- `execute_run`, or the recovery if it raises
unfoldable pub executed : Environment → ℕ → Rows → ℕ → Rows × Option LoopRun
unfolding recover
executed e now db run_id = recover now run_id db (execute_run e now db run_id)

-- What `_run` does after the execution.
unfoldable pub advance_task : ℕ → ℕ → Rows × Option LoopRun → Rows × Option ℕ
unfolding advance_after_run
advance_task id now (db, none) = (db, none)
advance_task id now (db, some r) =
    advance_after_run id now db r (auto_advance_of (db.assessments r.assessment_id))

-- `_run`: what it leaves, and the run that it enqueues
unfoldable pub run_task : Environment → ℕ → ℕ → Rows → ℕ → Rows × Option ℕ
unfolding executed advance_task
run_task e id now db run_id = advance_task id now (executed e now db run_id)

-- Whether the reaper takes a run: `started_at < now - max_age`.
abbrev pub is_stale : ℕ → ℕ → LoopRun → Bool
is_stale max_age now r = same_status r.status running && ltb r.started_at (now - max_age)

unfoldable pub reap_row : ℕ → ℕ → LoopRun → LoopRun
reap_row max_age now r =
    if is_stale max_age now r
    then record r {
      status = failed;
      error = some "reaped: stale in-flight row";
      completed_at = some now;
    }
    else r

-- The loop runs of `_reap`, and how many it flipped.
unfoldable pub reap : ℕ → ℕ → Rows → Rows × ℕ
unfolding reap_row
reap max_age now db = (
  record db { runs = map (reap_row max_age now) db.runs },
  length (select (is_stale max_age now) db.runs),
)

-- `close`
unfoldable pub close : Rows → ℕ → ℕ → Rows × Outcome CoverageAssessment
close db assessment_id closed_by = elim (db.assessments assessment_id) [
  | none ↦ (db, not_found)
  | some asmt ↦
      let row = record asmt { state = completed; closed_by = some closed_by } in
      if can_close asmt.state
      then (record db { assessments = put_assessment assessment_id row db.assessments }, done row)
      else (db, invalid_transition)
]

unfoldable pub set_auto_advance : Rows → ℕ → Bool → Rows × Outcome (Unit {0})
set_auto_advance db assessment_id value = elim (db.assessments assessment_id) [
  | none ↦ (db, not_found)
  | some asmt ↦ (
    record db {
      assessments =
          put_assessment assessment_id (record asmt { auto_advance = value }) db.assessments;
    },
    done tt,
  )
]
