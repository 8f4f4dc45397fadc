-- ===== src/Orchestrator/Refines.antt =====
-- An execution of a run, as the analyst sees it: which run each loop shows, and the state of the
-- assessment. The versions, superseded rows and the order of the writes are forgotten.
use fragchain_core.Prelude.{
  ℕ, true, false, ==_iff, same_some, ◌≡◌, refl, arith, if◌then◌else◌, Bool-cases, Option-cases, inl,
  inr, some, none, sym, ap, ◌∙◌,
}
use fragchain_core.LoopState.{
  next_state_after_loop, LoopNumber, two, three, number, loop3_done, running,
}
use fragchain_core.PostLoop.{LoopExecution, is_done, run_pipeline}
use fragchain_core.PostLoop.Hooks.{post_finalize_hooks}
use fragchain_core.Orchestrator.{LoopRun, CoverageAssessment, Rows, done, same_status}
use fragchain_core.Orchestrator.Execute.{
  Environment, lookup_run, written, activated, finalize_run, execute_running, execute_run,
}
use fragchain_core.Orchestrator.Count.{lookup_run-all, lookup_run-some}
use fragchain_core.Orchestrator.Finish.{is_inactive}
use fragchain_core.Orchestrator.Invariant.{IsSound, is_settled}
use fragchain_core.Orchestrator.Shown.{shown, completed_run, shown-finished, shown-written}
use fragchain_core.Orchestrator.Operations.{pipelined, running-inactive}

-- An execution that returned for a run that was running, as it is finalized.
pub record IsFinalized (e : Environment) (now : ℕ) (db : Rows) (r out : LoopRun) (after : Rows)
    : Type 0 where
  pub asmt : CoverageAssessment
  pub ex : LoopExecution
  pub loaded : db.assessments r.assessment_id ≡ some asmt
  pub ran : pipelined e now db r ≡ some ex
  pub status : out.status ≡ ex.status
  pub rows : after ≡ finalize_run now r asmt ex db

out-status :
    (now : ℕ) (ex : LoopExecution) (r : LoopRun)
    → (if is_done ex.status then activated (written now ex r) else written now ex r).status
      ≡ ex.status
unfolding written
out-status now ex r = ground arith

execute_run-IsFinalized :
    (e : Environment) (now : ℕ) (db : Rows) (run_id : ℕ) (r out : LoopRun)
    → lookup_run run_id db.runs ≡ some r
    → same_status r.status running ≡ true
    → (execute_run e now db run_id).1 ≡ done out
    → IsFinalized e now db r out (execute_run e now db run_id).0
unfolding execute_run execute_running
execute_run-IsFinalized e now db run_id r out at runs h =
    elim (Option-cases (db.assessments r.assessment_id)) [
      | inl t ↦ ground (arith, at, runs, t)
      | inr (asmt, t) ↦ elim (Option-cases (pipelined e now db r)) [
        | inl p ↦ ground (arith, at, runs, t, p)
        | inr (ex, p) ↦
            elim (Option-cases (run_pipeline (post_finalize_hooks e.collaborators) ex)) [
              | inl q ↦ ground (arith, at, runs, t, p, q)
              | inr (after, q) ↦ record {
                asmt = asmt;
                ex = ex;
                loaded = t;
                ran = p;
                status = ground (arith, at, runs, t, p, q, out-status now ex r);
                rows = ground (arith, at, runs, t, p, q);
              }
            ]
      ]
    ]

shown-finalize :
    (now : ℕ) (r : LoopRun) (asmt : CoverageAssessment) (ex : LoopExecution) (db : Rows) (a : ℕ)
    (l : LoopNumber)
    → IsSound db.runs
    → lookup_run r.id db.runs ≡ some r
    → r.is_active ≡ false
    → shown (finalize_run now r asmt ex db) a l ≡ (
        if is_done ex.status
        then completed_run r.id r.assessment_id r.loop_number (shown db) a l
        else shown db a l)
unfolding finalize_run number
shown-finalize now r asmt ex db a l s at quiet = elim (Bool-cases (is_done ex.status)) [
  | inl d ↦ rw d (
      shown-finished now r.id r.assessment_id r.loop_number ex a l db.runs r at (
        lookup_run-all r.id (is_inactive now r.id r.assessment_id r.loop_number ex) db.runs r
          (s.unique r.id) at (ground arith)))
  | inr d ↦ rw d (shown-written now r.id r.assessment_id r.loop_number ex a l db.runs)
]

state-finalize :
    (now : ℕ) (r : LoopRun) (asmt : CoverageAssessment) (ex : LoopExecution) (db : Rows)
    → (finalize_run now r asmt ex db).assessments r.assessment_id
      ≡ some (record asmt {
        state =
            if is_done ex.status
            then next_state_after_loop asmt.state r.loop_number
            else asmt.state;
      })
unfolding finalize_run
state-finalize now r asmt ex db = ground (arith, (==_iff r.assessment_id r.assessment_id).1 refl)

-- From sound rows, an execution that returns for a run that was running refines the abstract
-- update: if the run succeeded or failed the gate, its loop shows it, the later loops of its
-- assessment show nothing, and all other loops and assessments show what they did; if it failed,
-- every loop shows what it did.
pub execute_run-completed_run :
    (e : Environment) (now : ℕ) (db : Rows) (run_id : ℕ) (r out : LoopRun)
    → IsSound db.runs
    → lookup_run run_id db.runs ≡ some r
    → same_status r.status running ≡ true
    → (execute_run e now db run_id).1 ≡ done out
    → (a : ℕ) (l : LoopNumber)
    → shown (execute_run e now db run_id).0 a l ≡ (
        if is_done out.status
        then completed_run run_id r.assessment_id r.loop_number (shown db) a l
        else shown db a l)
execute_run-completed_run e now db run_id r out s at runs h a l =
    let f = execute_run-IsFinalized e now db run_id r out at runs h in
    let id_ = (lookup_run-some run_id is_settled db.runs r s.settled at).1 in
    let final =
      shown-finalize now r f.asmt f.ex db a l s (ap (λ i. lookup_run i db.runs) id_ ∙ at)
        (running-inactive run_id db.runs r s at runs) in
    ap (λ d. shown d a l) f.rows
    ∙ final
    ∙ ap
        (λ i.
          if is_done f.ex.status
          then completed_run i r.assessment_id r.loop_number (shown db) a l
          else shown db a l)
        id_
    ∙ ap
        (λ t.
          if is_done t
          then completed_run run_id r.assessment_id r.loop_number (shown db) a l
          else shown db a l)
        (sym f.status)

-- An execution that returns for a run that was running moves the assessment to the state of its loop
-- if the run succeeded or failed the gate, whatever the state was, and leaves it alone otherwise.
execute_run-state :
    (e : Environment) (now : ℕ) (db : Rows) (run_id : ℕ) (r out : LoopRun)
    (asmt : CoverageAssessment)
    → lookup_run run_id db.runs ≡ some r
    → same_status r.status running ≡ true
    → db.assessments r.assessment_id ≡ some asmt
    → (execute_run e now db run_id).1 ≡ done out
    → (execute_run e now db run_id).0.assessments r.assessment_id
      ≡ some (record asmt {
        state =
            if is_done out.status
            then next_state_after_loop asmt.state r.loop_number
            else asmt.state;
      })
execute_run-state e now db run_id r out asmt at runs loaded h =
    let f = execute_run-IsFinalized e now db run_id r out at runs h in
    let same = same_some (sym f.loaded ∙ loaded) in
    ap (λ d. d.assessments r.assessment_id) f.rows
    ∙ state-finalize now r f.asmt f.ex db
    ∙ ap
        (λ (x : CoverageAssessment). some (record x {
          state =
              if is_done f.ex.status then next_state_after_loop x.state r.loop_number else x.state;
        }))
        same
    ∙ ap
        (λ t. some (record asmt {
          state = if is_done t then next_state_after_loop asmt.state r.loop_number else asmt.state;
        }))
        (sym f.status)

-- A Loop 3 that was begun before an earlier loop was run again is not stopped: from sound rows, if it
-- succeeds while Loop 2 shows no run, the assessment is in the state loop3_done and Loop 2 still
-- shows no run.
pub execute_run-stale :
    (e : Environment) (now : ℕ) (db : Rows) (run_id : ℕ) (r out : LoopRun)
    (asmt : CoverageAssessment)
    → IsSound db.runs
    → lookup_run run_id db.runs ≡ some r
    → same_status r.status running ≡ true
    → r.loop_number ≡ three
    → db.assessments r.assessment_id ≡ some asmt
    → shown db r.assessment_id two ≡ none
    → (execute_run e now db run_id).1 ≡ done out
    → is_done out.status ≡ true
    → ((execute_run e now db run_id).0.assessments r.assessment_id
        ≡ some (record asmt { state = loop3_done }))
      × (shown (execute_run e now db run_id).0 r.assessment_id two ≡ none)
unfolding next_state_after_loop number
execute_run-stale e now db run_id r out asmt s at runs third loaded gone h d = (
  ground (arith, execute_run-state e now db run_id r out asmt at runs loaded h, third, d),
  ground (
    arith,
    execute_run-completed_run e now db run_id r out s at runs h r.assessment_id two,
    third,
    gone,
    d,
  ),
)
