-- ===== src/Orchestrator/Execute.antt =====
-- assessments/orchestrator.py: `execute_run`. The implementation of the loops, the classification
-- and the collaborators are arguments. What escapes rolls the session back.
use fragchain_core.Prelude.{
  ℕ, String, Bool, true, false, not, ◌&&◌, Option, none, some, List, [], ◌∷◌, ◌++◌, map, ◌==◌,
  is_some, codes, strip, if◌then◌else◌,
}
use fragchain_core.LoopState.{LoopNumber, next_state_after_loop, running, succeeded, failed}
use fragchain_core.Gate.{sigma_generation_gated}
use fragchain_core.PostLoop.{Output, LoopExecution, is_three, is_done, Collaborators, run_pipeline}
use fragchain_core.PostLoop.Hooks.{pre_finalize_hooks, post_finalize_hooks}
use fragchain_core.Orchestrator.{
  LoopRun, CoverageAssessment, Rows, Outcome, done, not_found, hook_raised, same_status,
  supersede_prior_active_rows, invalidate_downstream,
}

unfoldable pub lookup_run : ℕ → List LoopRun → Option LoopRun
lookup_run id [] = none
lookup_run id (r ∷ runs) = let rest = lookup_run id runs in if r.id == id then some r else rest

unfoldable pub update_run : ℕ → (LoopRun → LoopRun) → List LoopRun → List LoopRun
update_run id change runs = map (λ r. if r.id == id then change r else r) runs

abbrev pub put_assessment :
    ℕ → CoverageAssessment → (ℕ → Option CoverageAssessment) → ℕ → Option CoverageAssessment
put_assessment assessment_id asmt rows i = if i == assessment_id then some asmt else rows i

-- {**output, "_chain": ex.synth_meta}
unfoldable pub persisted_output : LoopExecution → Option Output
persisted_output ex = elim ex.output [
  | none ↦ none
  | some o ↦ elim ex.synth_meta [
    | none ↦ some o
    | some chain_id ↦ some (record o { chain = some chain_id })
  ]
]

-- The columns that finalization writes before it looks at the other rows.
unfoldable pub written : ℕ → LoopExecution → LoopRun → LoopRun
unfolding persisted_output
written now ex r = record r {
  status = ex.status;
  output = persisted_output ex;
  gate_result = ex.gate_result;
  error = if is_some ex.error then ex.error else r.error;
  completed_at = some now;
}

abbrev pub activated : LoopRun → LoopRun
activated r = record r { is_active = true }

-- The rows after the finalization of a run that has output.
unfoldable pub finished_runs : ℕ → ℕ → ℕ → LoopNumber → LoopExecution → List LoopRun → List LoopRun
unfolding update_run written supersede_prior_active_rows invalidate_downstream
finished_runs now run_id assessment_id loop ex runs = invalidate_downstream assessment_id loop (
    update_run run_id activated
      (supersede_prior_active_rows assessment_id loop (update_run run_id (written now ex) runs)))

-- `_finalize_run`
unfoldable pub finalize_run : ℕ → LoopRun → CoverageAssessment → LoopExecution → Rows → Rows
unfolding finished_runs
finalize_run now r asmt ex db =
    let new_state =
      if is_done ex.status then next_state_after_loop asmt.state r.loop_number else asmt.state in
    record {
      assessments =
          put_assessment r.assessment_id (record asmt { state = new_state }) db.assessments;
      runs =
          if is_done ex.status
          then finished_runs now r.id r.assessment_id r.loop_number ex db.runs
          else update_run r.id (written now ex) db.runs;
      audit_log =
          db.audit_log
          ++ record {
            assessment_id = r.assessment_id;
            before = asmt.state;
            after = new_state;
            loop_number = r.loop_number;
            version = r.version;
            status = ex.status;
          }
            ∷ [];
    }

-- What the implementation of a loop does: an output, or an exception with its text.
pub data LoopResult : Type 0 where
  returned : Output → LoopResult
  raised : String → LoopResult

-- bool((override_rationale or "").strip())
unfoldable pub override_value : Option String → Bool
unfolding strip
override_value none = false
override_value (some text) = elim (strip (codes text)) [ [] ↦ false | c ∷ rest ↦ true ]

-- The class for which Loop 3 skips generation.
unfoldable pub gated_class : Bool → Option String → List String → Option String
unfolding sigma_generation_gated
gated_class overridden det_class skip_classes =
    if overridden
    then none
    else if sigma_generation_gated det_class skip_classes
    then det_class
    else none

unfoldable pub execution_of : LoopNumber → LoopResult → LoopExecution
execution_of loop_number result = record {
  loop_number = loop_number;
  status = elim result [ returned o ↦ succeeded | raised text ↦ failed ];
  output = elim result [ returned o ↦ some o | raised text ↦ none ];
  gate_result = none;
  synth_meta = none;
  error = elim result [ returned o ↦ none | raised text ↦ some text ];
  supersession_totals = record { pending_superseded = 0; approved_deprecated = 0 };
  dispatched = [];
}

-- What `execute_run` is given: `impl` gets the rows, the run, whether it is overridden and the class
-- for which it is gated.
pub record Environment : Type 0 where
  pub impl : Rows → LoopRun → Bool → Option String → LoopResult
  pub det_class : ℕ → Option String
  pub skip_classes : List String
  pub gate_min : ℕ
  pub collaborators : Collaborators

unfoldable pub run_impl : Environment → Rows → LoopRun → LoopResult
unfolding override_value gated_class
run_impl e db r =
    let overridden = is_three r.loop_number && override_value r.override_rationale in
    e.impl db r overridden (
      if is_three r.loop_number
      then gated_class overridden (e.det_class r.assessment_id) e.skip_classes
      else none)

unfoldable pub execute_running :
    Environment → ℕ → Rows → LoopRun → CoverageAssessment → Rows × Outcome LoopRun
unfolding finalize_run
execute_running e now db r asmt =
    elim (run_pipeline (pre_finalize_hooks e.gate_min e.collaborators)
      (execution_of r.loop_number (run_impl e db r))) [
        | none ↦ (db, hook_raised)
        | some ex ↦ elim (run_pipeline (post_finalize_hooks e.collaborators) ex) [
          | none ↦ (db, hook_raised)
          | some _ ↦ (
            finalize_run now r asmt ex db,
            done (if is_done ex.status then activated (written now ex r) else written now ex r),
          )
        ]
      ]

unfoldable pub execute_run : Environment → ℕ → Rows → ℕ → Rows × Outcome LoopRun
unfolding lookup_run
execute_run e now db run_id = elim (lookup_run run_id db.runs) [
  | none ↦ (db, not_found)
  | some r ↦
      if not (same_status r.status running)
      then (db, done r)
      else elim (db.assessments r.assessment_id) [
        | none ↦ (db, not_found)
        | some asmt ↦ execute_running e now db r asmt
      ]
]
