-- ===== src/PostLoop/Laws.antt =====
-- What the hooks make of a run.
use fragchain_core.Prelude.{
  ℕ, String, Bool, true, false, not, ◌&&◌, Option, none, some, List, [], ◌∷◌, if◌then◌else◌, ◌≡◌,
  ◌≢◌, refl, ◌↔◌, inl, inr, arith, Bool-cases, same_some, >>=-eq-some, ◌∙◌, sym, All, subst,
}
use fragchain_core.LoopState.{succeeded, gate_failed, failed}
use fragchain_core.Gate.{Indicators, GateResult, evaluate_detectability_gate}
use fragchain_core.PostLoop.{
  RuleRef, LoopExecution, is_truthy, indicators_of, is_two, is_done, is_succeeded, Totals,
  Synthesis, Collaborators, PostLoopHook, run_pipeline, gate_hook, chain_synthesis_hook,
  rule_supersession_hook, run_gate, run_synthesis, run_supersession,
}
use fragchain_core.PostLoop.Hooks.{
  observe_loop3_hook, coverage_dispatch_hook, run_observe, run_dispatch, pre_finalize_hooks,
  post_finalize_hooks,
}

-- One turn of the pipeline.
abbrev pub turn : PostLoopHook → LoopExecution → Option LoopExecution
turn hook ex = if hook.should_run ex then hook.run ex else some ex

idle-run_pipeline :
    (ex : LoopExecution) (hooks : List PostLoopHook)
    → All (λ hook. hook.should_run ex ≡ false) hooks
    → run_pipeline hooks ex ≡ some ex
unfolding run_pipeline
idle-run_pipeline ex [] h = refl
idle-run_pipeline ex (hook ∷ hooks) h = rw (h.0) (idle-run_pipeline ex hooks h.1)

module _ (gate_min : ℕ) (c : Collaborators) (ex : LoopExecution) where
  -- A run that failed passes through the hooks before its row is finalized, and those after it,
  -- unchanged.
  pub pipeline-failed :
      ex.status ≡ failed
      → (run_pipeline (pre_finalize_hooks gate_min c) ex ≡ some ex)
        × (run_pipeline (post_finalize_hooks c) ex ≡ some ex)
  pipeline-failed h = (
    idle-run_pipeline ex (pre_finalize_hooks gate_min c)
        (ground arith, (ground arith, (ground arith, (ground arith, (ground arith, tt))))),
    idle-run_pipeline ex (post_finalize_hooks c) (ground arith, tt),
  )

-- What the finalization of the row reads of an execution.
pub record IsSame (ex after : LoopExecution) : Type 0 where
  pub number : after.loop_number ≡ ex.loop_number
  pub status : after.status ≡ ex.status
  pub output : after.output ≡ ex.output
  pub gate : after.gate_result ≡ ex.gate_result
  pub error : after.error ≡ ex.error

IsSame-refl : (ex : LoopExecution) → IsSame ex ex
IsSame-refl ex = record { number = refl; status = refl; output = refl; gate = refl; error = refl }

abbrev Keeps : PostLoopHook → Type 0
Keeps hook = (ex after : LoopExecution) → turn hook ex ≡ some after → IsSame ex after

Keeps-run_pipeline :
    (hooks : List PostLoopHook)
    → All Keeps hooks
    → (ex after : LoopExecution) → run_pipeline hooks ex ≡ some after
    → IsSame ex after
unfolding run_pipeline
Keeps-run_pipeline [] k ex after h = ground arith
Keeps-run_pipeline (hook ∷ hooks) k ex after h =
    let (next, first, rest) = >>=-eq-some (turn hook ex) _ h in
    ground (arith, k.0 ex next first, Keeps-run_pipeline hooks k.1 next after rest)

Keeps-supersession :
    (superseder : Option (RuleRef → Option Totals)) → Keeps (rule_supersession_hook superseder)
unfolding run_supersession
Keeps-supersession none ex after h = ground arith
Keeps-supersession (some supersede) ex after h = ground arith

Keeps-observe :
    (router : Option (ℕ → Option ℕ → Option (Unit {0}))) → Keeps (observe_loop3_hook router)
unfolding run_observe
Keeps-observe none ex after h = ground arith
Keeps-observe (some observe) ex after h = ground arith

Keeps-dispatch :
    (dispatcher : Option (String → Option (Unit {0}))) → Keeps (coverage_dispatch_hook dispatcher)
unfolding run_dispatch
Keeps-dispatch none ex after h = ground arith
Keeps-dispatch (some dispatch) ex after h = ground arith

-- The hooks after the gate and the synthesis, which change nothing that the row of a run holds.
abbrev later_hooks : Collaborators → List PostLoopHook
later_hooks c =
    rule_supersession_hook c.superseder
    ∷ observe_loop3_hook c.observe
    ∷ coverage_dispatch_hook c.dispatcher
    ∷ []

Keeps-later : (c : Collaborators) → All Keeps (later_hooks c)
Keeps-later c =
    (Keeps-supersession c.superseder, (Keeps-observe c.observe, (Keeps-dispatch c.dispatcher, tt)))

-- Whether the gate is asked.
abbrev pub is_gated : LoopExecution → Bool
is_gated ex = is_two ex.loop_number && is_succeeded ex.status && is_truthy ex.output

module _ (gate_min : ℕ) (ex : LoopExecution) where
  abbrev verdict : GateResult
  verdict = evaluate_detectability_gate (indicators_of ex.output) gate_min

  -- The execution after the gate.
  abbrev checked : LoopExecution
  checked = if is_gated ex then run_gate gate_min ex else ex

  turn-gate : turn (gate_hook gate_min) ex ≡ some checked
  turn-gate = ground arith

-- What the synthesis may do to a run: it fails one that had passed, and nothing else.
record IsSynthesized (ex after : LoopExecution) : Type 0 where
  same_number : after.loop_number ≡ ex.loop_number
  same_output : after.output ≡ ex.output
  same_gate : after.gate_result ≡ ex.gate_result
  keeps : ex.status ≢ succeeded → after.status ≡ ex.status
  fails : ex.status ≡ succeeded → after.status ≢ succeeded → after.status ≡ failed

turn-synthesis :
    (synthesizer : Option (Indicators → Synthesis)) (ex after : LoopExecution)
    → turn (chain_synthesis_hook synthesizer) ex ≡ some after
    → IsSynthesized ex after
unfolding run_synthesis
turn-synthesis none ex after h = ground arith
turn-synthesis (some synthesize) ex after h = ground arith

-- What the hooks before finalization make of a run that succeeded.
pub record IsGated (gate_min : ℕ) (ex after : LoopExecution) : Type 0 where
  pub number : after.loop_number ≡ ex.loop_number
  pub output : after.output ≡ ex.output
  pub gate :
      after.gate_result ≡ (if is_gated ex then some (verdict gate_min ex) else ex.gate_result)
  pub refused :
      (after.status ≡ gate_failed) ↔ ((is_gated ex && not (verdict gate_min ex).passed) ≡ true)
  pub ends : is_done after.status ≡ false → after.status ≡ failed

IsGated-compose :
    (gate_min : ℕ) (ex second after : LoopExecution)
    → ex.status ≡ succeeded
    → IsSynthesized (checked gate_min ex) second
    → IsSame second after
    → IsGated gate_min ex after
unfolding run_gate
IsGated-compose gate_min ex second after ok s k = elim (Bool-cases (is_gated ex)) [
  | inl g ↦ elim (Bool-cases (verdict gate_min ex).passed) [
    | inl v ↦ ground arith
    | inr v ↦ ground arith
  ]
  | inr g ↦ ground arith
]

-- If the hooks before finalization return for a run that succeeded, they keep its loop and output;
-- the gate is asked exactly about a Loop 2 output that is not empty, its result is the run's, and
-- the run ends as gate_failed exactly when it does not pass. A run that ends neither so nor as
-- succeeded has failed.
pub pre_finalize-IsGated :
    (gate_min : ℕ) (c : Collaborators) (ex after : LoopExecution)
    → ex.status ≡ succeeded
    → run_pipeline (pre_finalize_hooks gate_min c) ex ≡ some after
    → IsGated gate_min ex after
unfolding run_pipeline
pre_finalize-IsGated gate_min c ex after ok h =
    let (first, p, r) = >>=-eq-some (turn (gate_hook gate_min) ex) _ h in
    let (second, q, rest) = >>=-eq-some (turn (chain_synthesis_hook c.synthesizer) first) _ r in
    let synthesized = turn-synthesis c.synthesizer first second q in
    let kept = Keeps-run_pipeline (later_hooks c) (Keeps-later c) second after rest in
    IsGated-compose gate_min ex second after ok
      (subst (λ e. IsSynthesized e second) (same_some (sym p ∙ turn-gate gate_min ex)) synthesized)
      kept
