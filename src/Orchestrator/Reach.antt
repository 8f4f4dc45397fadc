-- ===== src/Orchestrator/Reach.antt =====
-- The operations on the runs as steps, in any order, and what holds in every state they reach. An
-- operation is one step: two executions of one run do not overlap.
use fragchain_core.Prelude.{
  ℕ, String, Bool, false, List, [], ◌∷◌, ◌≤◌, ◌≡◌, ◌≢◌, refl, arith, select, length, ◌==◌,
  Option-cases, inl, inr, Option, some, none, subst, sym,
}
use fragchain_core.LoopState.{
  created, LoopNumber, one, two, three, ChainDecision, noop, stop, dispatch, decide_next, number,
}
use fragchain_core.Orchestrator.{
  LoopRun, CoverageAssessment, Rows, Outcome, done, not_found, invalid_transition, multiple_results,
  hook_raised, is_active_row, begin_run, check_begin, check_gate, scalar_one_or_none,
  latest_active_run,
}
use fragchain_core.Orchestrator.Execute.{Environment, lookup_run, put_assessment, execute_run}
use fragchain_core.Orchestrator.Worker.{
  finalize_failed, executed, run_task, recover, begin_next, follow, advance_task, auto_advance_of,
  reap, close, set_auto_advance, loop_of, begun,
}
use fragchain_core.Counting.{count, length-select}
use fragchain_core.Orchestrator.Invariant.{IsSound, IsSound-nil}
use fragchain_core.Orchestrator.Preserve.{IsSound-failed, IsSound-reaped}
use fragchain_core.Orchestrator.Operations.{begin_run-IsSound, execute_run-IsSound}

abbrev pub new_assessment : ℕ → CoverageAssessment
new_assessment id = record { id = id; state = created; auto_advance = false; closed_by = none }

-- No row has the id.
abbrev pub IsFresh : ℕ → Rows → Type 0
IsFresh id db = count (λ r. r.id == id) db.runs ≡ 0

-- One operation: of the API (`create`, `begin_run`, `close`, `set_auto_advance`), of a worker
-- (`_run`), or of the reaper. The id of a new run is one that no run has.
pub data Step (e : Environment) (db after : Rows) : Type 0 where
  create :
      (id : ℕ)
      → db.assessments id ≡ none
      → after ≡ record db { assessments = put_assessment id (new_assessment id) db.assessments }
      → Step e db after
  begin :
      (id now a : ℕ) (l : LoopNumber) (rationale : Option String)
      → IsFresh id db
      → after ≡ (begin_run id now db a l rationale).0
      → Step e db after
  work :
      (id now run_id : ℕ)
      → IsFresh id (executed e now db run_id).0
      → after ≡ (run_task e id now db run_id).0
      → Step e db after
  reaping : (max_age now : ℕ) → after ≡ (reap max_age now db).0 → Step e db after
  closing : (a user : ℕ) → after ≡ (close db a user).0 → Step e db after
  setting : (a : ℕ) (value : Bool) → after ≡ (set_auto_advance db a value).0 → Step e db after

abbrev pub no_rows : Rows
no_rows = record { assessments = λ i. none; runs = []; audit_log = [] }

pub data Reach (e : Environment) : Rows → Type 0 where
  start : Reach e no_rows
  next : {db after : Rows} → Reach e db → Step e db after → Reach e after

finalize_failed-IsSound :
    (now : ℕ) (error : String) (run_id : ℕ) (db : Rows)
    → IsSound db.runs
    → IsSound (finalize_failed now error run_id db).0.runs
unfolding finalize_failed
finalize_failed-IsSound now error run_id db s = elim (Option-cases (lookup_run run_id db.runs)) [
  | inl e ↦ rw (e, finalize_failed) s
  | inr (r, e) ↦ rw (e, finalize_failed) (IsSound-failed now run_id error db.runs s)
]

recover-IsSound :
    (now run_id : ℕ) (db : Rows) (out : Rows × Outcome LoopRun)
    → IsSound db.runs
    → IsSound out.0.runs
    → IsSound (recover now run_id db out).0.runs
unfolding recover
recover-IsSound now run_id db (after, done r) s t = t
recover-IsSound now run_id db (after, not_found) s t =
    finalize_failed-IsSound now "raised" run_id db s
recover-IsSound now run_id db (after, invalid_transition) s t =
    finalize_failed-IsSound now "raised" run_id db s
recover-IsSound now run_id db (after, multiple_results) s t =
    finalize_failed-IsSound now "raised" run_id db s
recover-IsSound now run_id db (after, hook_raised) s t =
    finalize_failed-IsSound now "raised" run_id db s

executed-IsSound :
    (e : Environment) (now : ℕ) (db : Rows) (run_id : ℕ)
    → IsSound db.runs
    → IsSound (executed e now db run_id).0.runs
unfolding executed
executed-IsSound e now db run_id s =
    recover-IsSound now run_id db (execute_run e now db run_id) s
      (execute_run-IsSound e now db run_id s)

begun-rows : (out : Rows × Outcome LoopRun) → (begun out).0 ≡ out.0
begun-rows (db, done r) = refl
begun-rows (db, not_found) = refl
begun-rows (db, invalid_transition) = refl
begun-rows (db, multiple_results) = refl
begun-rows (db, hook_raised) = refl

module _ (id now : ℕ) (db : Rows) (r : LoopRun) (fresh : IsFresh id db) (s : IsSound db.runs) where
  begin_next-IsSound : (o : Option LoopNumber) → IsSound (begin_next id now db r o).0.runs
  unfolding begin_next
  begin_next-IsSound none = s
  begin_next-IsSound (some loop) =
      subst (λ (d : Rows). IsSound d.runs)
        (sym (begun-rows (begin_run id now db r.assessment_id loop none)))
        (begin_run-IsSound id now db r.assessment_id loop none fresh s)

  follow-IsSound : (decision : ChainDecision) → IsSound (follow id now db r decision).0.runs
  unfolding follow
  follow-IsSound noop = s
  follow-IsSound (stop reason) = s
  follow-IsSound (dispatch next_loop) = begin_next-IsSound (loop_of next_loop)

advance_task-IsSound :
    (id now : ℕ) (out : Rows × Option LoopRun)
    → IsFresh id out.0
    → IsSound out.0.runs
    → IsSound (advance_task id now out).0.runs
unfolding advance_task
advance_task-IsSound id now (db, none) fresh s = s
advance_task-IsSound id now (db, some r) fresh s =
    follow-IsSound id now db r fresh s (
      decide_next r.status (number r.loop_number)
        (auto_advance_of (db.assessments r.assessment_id)))

run_task-IsSound :
    (e : Environment) (id now : ℕ) (db : Rows) (run_id : ℕ)
    → IsFresh id (executed e now db run_id).0
    → IsSound db.runs
    → IsSound (run_task e id now db run_id).0.runs
unfolding run_task
run_task-IsSound e id now db run_id fresh s =
    advance_task-IsSound id now (executed e now db run_id) fresh
      (executed-IsSound e now db run_id s)

close-runs : (db : Rows) (a user : ℕ) → (close db a user).0.runs ≡ db.runs
unfolding close
close-runs db a user = ground arith

set_auto_advance-runs :
    (db : Rows) (a : ℕ) (value : Bool) → (set_auto_advance db a value).0.runs ≡ db.runs
unfolding set_auto_advance
set_auto_advance-runs db a value = ground arith

reap-IsSound :
    (max_age now : ℕ) (db : Rows) → IsSound db.runs → IsSound (reap max_age now db).0.runs
unfolding reap
reap-IsSound max_age now db s = IsSound-reaped max_age now db.runs s

abbrev at_rows : {db after : Rows} → after ≡ db → IsSound db.runs → IsSound after.runs
at_rows p s = subst (λ (d : Rows). IsSound d.runs) (sym p) s

Step-IsSound :
    {e : Environment} {db after : Rows} → Step e db after → IsSound db.runs → IsSound after.runs
Step-IsSound {e} {db} (create id free p) s = at_rows p s
Step-IsSound {e} {db} (begin id now a l rationale fresh p) s =
    at_rows p (begin_run-IsSound id now db a l rationale fresh s)
Step-IsSound {e} {db} (work id now run_id fresh p) s =
    at_rows p (run_task-IsSound e id now db run_id fresh s)
Step-IsSound {e} {db} (reaping max_age now p) s = at_rows p (reap-IsSound max_age now db s)
Step-IsSound {e} {db} (closing a user p) s =
    at_rows p (subst IsSound (sym (close-runs db a user)) s)
Step-IsSound {e} {db} (setting a value p) s =
    at_rows p (subst IsSound (sym (set_auto_advance-runs db a value)) s)

-- In every state that the operations reach, in any order, ids are unique; each loop of each
-- assessment has at most one active run, at most one running, and each version at most once; and
-- an active run succeeded or failed the gate.
pub Reach-IsSound : {e : Environment} {db : Rows} → Reach e db → IsSound db.runs
Reach-IsSound start = IsSound-nil
Reach-IsSound (next r st) = Step-IsSound st (Reach-IsSound r)

single_row : (rows : List LoopRun) → length rows ≤ 1 → scalar_one_or_none rows ≢ multiple_results
unfolding scalar_one_or_none
single_row [] h p = cc
single_row (r ∷ []) h p = cc
single_row (r ∷ t ∷ rest) h p = omega arith

latest-single :
    (a : ℕ) (l : LoopNumber) (runs : List LoopRun)
    → count (is_active_row a l) runs ≤ 1
    → latest_active_run a l runs ≢ multiple_results
unfolding latest_active_run
latest-single a l runs h p =
    single_row (select (is_active_row a l) runs)
      (omega (arith, length-select (is_active_row a l) runs)) p

check_gate-single :
    (runs : List LoopRun) (a : ℕ) (l : LoopNumber) (rationale : Option String)
    → count (is_active_row a two) runs ≤ 1
    → check_gate runs a l rationale ≢ multiple_results
unfolding check_gate
check_gate-single runs a one rationale h p = cc
check_gate-single runs a two rationale h p = cc
check_gate-single runs a three rationale h p = ground (arith, latest-single a two runs h)

check_begin-single :
    (db : Rows) (a : ℕ) (l : LoopNumber) (rationale : Option String)
    → check_gate db.runs a l rationale ≢ multiple_results
    → check_begin db a l rationale ≢ multiple_results
unfolding check_begin
check_begin-single db a l rationale h p = ground arith

-- In every state that the operations reach, the query for the active run of Loop 2 finds at most
-- one row: `begin_run` never raises `MultipleResultsFound`.
pub Reach-single_result :
    {e : Environment} {db : Rows} (id now a : ℕ) (l : LoopNumber) (rationale : Option String)
    → Reach e db
    → (begin_run id now db a l rationale).1 ≢ multiple_results
unfolding begin_run
Reach-single_result {e} {db} id now a l rationale r p = ground (
  arith,
  check_begin-single db a l rationale
      (check_gate-single db.runs a l rationale ((Reach-IsSound r).exclusive a two)),
)
