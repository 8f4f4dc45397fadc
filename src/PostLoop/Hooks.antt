-- ===== src/PostLoop/Hooks.antt =====
-- assessments/loops/post_loop.py: the last hooks, and assessments/orchestrator.py: the two lists of
-- hooks, before and after a run is finalized.
use fragchain_core.Prelude.{
  ℕ, String, false, ◌&&◌, Option, none, some, List, [], ◌∷◌, ◌++◌, is_some, length, ◌>>=◌,
  if◌then◌else◌,
}
use fragchain_core.Gate.{GateResult}
use fragchain_core.PostLoop.{
  Output, nonblank, rules_of, chain_id_of, LoopExecution, is_two, is_three, is_succeeded, is_done,
  Collaborators, PostLoopHook, gate_hook, chain_synthesis_hook, rule_supersession_hook,
}

-- output.get("gaps_processed")
abbrev pub gaps_of : Option Output → Option ℕ
gaps_of none = none
gaps_of (some o) = o.gaps_processed

unfoldable pub run_observe :
    Option (ℕ → Option ℕ → Option (Unit {0})) → LoopExecution → Option LoopExecution
run_observe none ex = some ex
run_observe (some observe_loop3) ex =
    observe_loop3 (length (rules_of ex.output)) (gaps_of ex.output) >>= λ _. some ex

abbrev pub observe_loop3_hook : Option (ℕ → Option ℕ → Option (Unit {0})) → PostLoopHook
observe_loop3_hook router = record {
  should_run = λ ex.
      is_three ex.loop_number && is_succeeded ex.status && is_some router && is_some ex.output;
  run = run_observe router;
}

-- A dispatch that raises is passed over: `dispatched` has the others.
unfoldable pub run_dispatch :
    Option (String → Option (Unit {0})) → LoopExecution → Option LoopExecution
run_dispatch none ex = some ex
run_dispatch (some dispatch) ex = elim (dispatch (chain_id_of ex.output)) [
  | none ↦ some ex
  | some _ ↦ some (record ex { dispatched = ex.dispatched ++ (chain_id_of ex.output ∷ []) })
]

abbrev pub coverage_dispatch_hook : Option (String → Option (Unit {0})) → PostLoopHook
coverage_dispatch_hook dispatcher = record {
  should_run = λ ex.
      is_three ex.loop_number
      && is_succeeded ex.status
      && is_some dispatcher
      && is_some ex.output
      && nonblank (chain_id_of ex.output);
  run = run_dispatch dispatcher;
}

-- `ex.gate_result or {}`: what the classifier sees when there is no gate result.
abbrev pub no_gate_result : GateResult
no_gate_result = record {
  passed = false;
  filled_categories = [];
  empty_categories = [];
  threshold = 0;
}

abbrev pub gate_result_or_empty : Option GateResult → GateResult
gate_result_or_empty none = no_gate_result
gate_result_or_empty (some g) = g

-- The router plans exactly if there is one and the classifier returned a row.
unfoldable pub run_detectability : Collaborators → LoopExecution → Option LoopExecution
run_detectability c ex =
    let gate = gate_result_or_empty ex.gate_result in
    elim ex.output [
      | none ↦ some ex
      | some output ↦ elim c.classify [
        | none ↦ some ex
        | some classify ↦ classify output gate >>= λ has_row. elim c.plan [
          | none ↦ some ex
          | some plan ↦ if has_row then plan gate >>= (λ _. some ex) else some ex
        ]
      ]
    ]

abbrev pub detectability_hook : Collaborators → PostLoopHook
detectability_hook c = record {
  should_run =
      λ ex. is_two ex.loop_number && is_some ex.output && is_done ex.status && is_some c.classify;
  run = run_detectability c;
}

abbrev pub pre_finalize_hooks : ℕ → Collaborators → List PostLoopHook
pre_finalize_hooks gate_min c =
    gate_hook gate_min
    ∷ chain_synthesis_hook c.synthesizer
    ∷ rule_supersession_hook c.superseder
    ∷ observe_loop3_hook c.observe
    ∷ coverage_dispatch_hook c.dispatcher
    ∷ []

abbrev pub post_finalize_hooks : Collaborators → List PostLoopHook
post_finalize_hooks c = detectability_hook c ∷ []
