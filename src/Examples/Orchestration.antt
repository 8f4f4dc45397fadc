-- ===== src/Examples/Orchestration.antt =====
-- assessments/orchestrator.py, its hooks and gates, and rule_supersession.py: an assessment whose
-- Loop 3 is running while Loop 2 has been invalidated.
use fragchain_core.Prelude.{true, false, none, some, [], ◌∷◌, ◌≡◌, ◌≢◌, refl, arith, all}
use fragchain_core.LoopState.{
  loop1_done, loop3_done, one, two, three, number, running, succeeded, gate_failed,
}
use fragchain_core.Gate.{Indicators, evaluate_detectability_gate}
use fragchain_core.PostLoop.{Output, LoopExecution, Collaborators, run_gate, run_pipeline}
use fragchain_core.PostLoop.Hooks.{pre_finalize_hooks}
use fragchain_core.PostLoop.Laws.{IsGated, pre_finalize-IsGated}
use fragchain_core.Orchestrator.{
  LoopRun, CoverageAssessment, Rows, done, multiple_results, begin_run,
}
use fragchain_core.Orchestrator.Execute.{
  Environment, returned, execution_of, run_impl, lookup_run, execute_running, execute_run,
  put_assessment, written,
}
use fragchain_core.Orchestrator.Worker.{executed}
use fragchain_core.Orchestrator.Invariant.{IsSound}
use fragchain_core.Orchestrator.Reach.{
  Reach, start, next, create, begin, new_assessment, no_rows, Reach-IsSound, Reach-single_result,
}
use fragchain_core.Orchestrator.Shown.{shown, completed_run}
use fragchain_core.Orchestrator.Refines.{execute_run-completed_run, execute_run-stale}
use fragchain_core.Orchestrator.Settles.{is_ended, executed-is_ended}

abbrev indicators : Indicators
indicators = ("process", "a.exe" ∷ []) ∷ ("file", []) ∷ []

abbrev alone : Collaborators
alone = record {
  synthesizer = none;
  superseder = none;
  observe = none;
  dispatcher = none;
  classify = none;
  plan = none;
}

abbrev output : Output
output = record {
  indicators = some indicators;
  rules = none;
  chain_id = "";
  gaps_processed = none;
  has_other = false;
  chain = none;
}

-- Two categories are asked for and one has a value.
abbrev thin : LoopExecution
thin = execution_of two (returned output)

abbrev refused : LoopExecution
refused = record {
  loop_number = two;
  status = gate_failed;
  output = some output;
  gate_result = some record {
    passed = false;
    filled_categories = "process" ∷ [];
    empty_categories =
        "api_call" ∷ "command_line" ∷ "file" ∷ "network" ∷ "parent_child" ∷ "registry" ∷ [];
    threshold = 2;
  };
  synth_meta = none;
  error = none;
  supersession_totals = record { pending_superseded = 0; approved_deprecated = 0 };
  dispatched = [];
}

thin_refused : run_pipeline (pre_finalize_hooks 2 alone) thin ≡ some refused
unfolding run_pipeline execution_of run_gate evaluate_detectability_gate
thin_refused = refl

pre_finalize-IsGated_example : IsGated 2 thin refused
pre_finalize-IsGated_example =
    pre_finalize-IsGated 2 alone thin refused (unfold execution_of in refl) thin_refused

abbrev environment : Environment
environment = record {
  impl = λ db r overridden gated. returned output;
  det_class = λ a. none;
  skip_classes = [];
  gate_min = 1;
  collaborators = alone;
}

abbrev opened : Rows
opened = record no_rows { assessments = put_assessment 1 (new_assessment 1) no_rows.assessments }

reached : Reach environment (begin_run 5 100 opened 1 one none).0
reached = next (next start (create 1 refl refl)) (begin 5 100 1 one none refl refl)

Reach-IsSound_example : IsSound (begin_run 5 100 opened 1 one none).0.runs
Reach-IsSound_example = Reach-IsSound reached

Reach-single_result_example :
    (begin_run 6 101 (begin_run 5 100 opened 1 one none).0 1 three none).1 ≢ multiple_results
Reach-single_result_example = Reach-single_result 6 101 1 three none reached

abbrev run_three : LoopRun
run_three = record {
  id = 7;
  assessment_id = 1;
  loop_number = three;
  version = 1;
  status = running;
  is_active = false;
  override_rationale = none;
  output = none;
  gate_result = none;
  error = none;
  started_at = 100;
  completed_at = none;
}

abbrev assessment : CoverageAssessment
assessment = record { id = 1; state = loop1_done; auto_advance = false; closed_by = none }

abbrev rows : Rows
rows = record { assessments = λ i. some assessment; runs = run_three ∷ []; audit_log = [] }

rows_IsSound : IsSound rows.runs
unfolding number
rows_IsSound = record {
  unique = λ i. ground arith;
  exclusive = λ a l. ground arith;
  single = λ a l. ground arith;
  versions = λ a l v. ground arith;
  settled = refl;
}

abbrev run_after : LoopRun
run_after = record run_three {
  status = succeeded;
  is_active = true;
  output = some output;
  completed_at = some 200;
}

run_returns : (execute_run environment 200 rows 7).1 ≡ done run_after
unfolding execute_run execute_running run_pipeline execution_of run_impl written
run_returns = refl

execute_run-completed_run_example :
    shown (execute_run environment 200 rows 7).0 1 three
    ≡ completed_run 7 1 three (shown rows) 1 three
execute_run-completed_run_example =
    execute_run-completed_run environment 200 rows 7 run_three run_after rows_IsSound
      (unfold lookup_run in refl) refl run_returns 1 three

execute_run-stale_example :
    ((execute_run environment 200 rows 7).0.assessments 1
      ≡ some (record assessment { state = loop3_done }))
    × (shown (execute_run environment 200 rows 7).0 1 two ≡ none)
execute_run-stale_example =
    execute_run-stale environment 200 rows 7 run_three run_after assessment rows_IsSound
      (unfold lookup_run in refl) refl refl refl (unfold number in refl) run_returns refl

executed-is_ended_example : all (is_ended 7) (executed environment 200 rows 7).0.runs ≡ true
executed-is_ended_example = executed-is_ended environment 200 rows 7 rows_IsSound
