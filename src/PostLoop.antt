-- ===== src/PostLoop.antt =====
-- assessments/loops/post_loop.py: the hooks that follow a run of a loop, in order. A collaborator is
-- an argument, `none` when it is not configured; its exceptions are values. Events are left out.
pub mod Hooks
pub mod Laws
use fragchain_core.Prelude.{
  ℕ, String, Bool, true, false, not, ◌&&◌, ◌||◌, Option, none, some, List, [], ◌∷◌, ◌+◌, is_some,
  str_eq, length, ◌>>=◌, if◌then◌else◌,
}
use fragchain_core.LoopState.{
  LoopNumber, one, two, three, RunStatus, succeeded, gate_failed, failed, running, superseded,
}
use fragchain_core.Gate.{Indicators, GateResult, evaluate_detectability_gate}

-- An entry of a Loop 3 output's `rules`; a missing key is the empty text.
pub record RuleRef : Type 0 where
  pub rule_id : String
  pub technique_id : String
  pub profile_name : String

-- The keys of a loop's output that the hooks read, and whether it has any other. `chain` is the
-- chain id that `_chain` adds.
pub record Output : Type 0 where
  pub indicators : Option Indicators
  pub rules : Option (List RuleRef)
  pub chain_id : String
  pub gaps_processed : Option ℕ
  pub has_other : Bool
  pub chain : Option String

abbrev pub nonblank : String → Bool
nonblank s = not (str_eq s "")

-- bool(output)
abbrev pub truthy : Output → Bool
truthy o =
    is_some o.indicators
    || is_some o.rules
    || nonblank o.chain_id
    || is_some o.gaps_processed
    || o.has_other

abbrev pub is_truthy : Option Output → Bool
is_truthy none = false
is_truthy (some o) = truthy o

-- output.get("indicators", {})
abbrev pub indicators_of : Option Output → Indicators
indicators_of none = []
indicators_of (some o) = elim o.indicators [ none ↦ [] | some i ↦ i ]

-- output.get("rules", []) or []
abbrev pub rules_of : Option Output → List RuleRef
rules_of none = []
rules_of (some o) = elim o.rules [ none ↦ [] | some rules ↦ rules ]

abbrev pub chain_id_of : Option Output → String
chain_id_of none = ""
chain_id_of (some o) = o.chain_id

pub record Totals : Type 0 where
  pub pending_superseded : ℕ
  pub approved_deprecated : ℕ

-- The state that the hooks share; `error` is the run's.
pub record LoopExecution : Type 0 where
  pub loop_number : LoopNumber
  pub status : RunStatus
  pub output : Option Output
  pub gate_result : Option GateResult
  pub synth_meta : Option String
  pub error : Option String
  pub supersession_totals : Totals
  pub dispatched : List String

abbrev pub is_two : LoopNumber → Bool
is_two two = true
is_two _ = false

abbrev pub is_three : LoopNumber → Bool
is_three three = true
is_three _ = false

abbrev pub is_succeeded : RunStatus → Bool
is_succeeded succeeded = true
is_succeeded _ = false

-- status in ("succeeded", "gate_failed")
abbrev pub is_done : RunStatus → Bool
is_done succeeded = true
is_done gate_failed = true
is_done _ = false

-- What a synthesizer does: the id of the chain, a `ChainSynthesisError`, or another exception.
pub data Synthesis : Type 0 where
  chain_made : String → Synthesis
  synthesis_error : String → Synthesis
  raised : Synthesis

-- `Option` for what may be missing or may raise.
pub record Collaborators : Type 0 where
  pub synthesizer : Option (Indicators → Synthesis)
  pub superseder : Option (RuleRef → Option Totals)
  pub observe : Option (ℕ → Option ℕ → Option (Unit {0}))
  pub dispatcher : Option (String → Option (Unit {0}))
  pub classify : Option (Output → GateResult → Option Bool)
  pub plan : Option (GateResult → Option (Unit {0}))

-- A hook, with its predicate; `none` is an exception that escapes.
pub record PostLoopHook : Type 0 where
  pub should_run : LoopExecution → Bool
  pub run : LoopExecution → Option LoopExecution

unfoldable pub run_pipeline : List PostLoopHook → LoopExecution → Option LoopExecution
run_pipeline [] ex = some ex
run_pipeline (hook ∷ hooks) ex =
    (if hook.should_run ex then hook.run ex else some ex) >>= λ next. run_pipeline hooks next

unfoldable pub run_gate : ℕ → LoopExecution → LoopExecution
run_gate gate_min ex =
    let result = evaluate_detectability_gate (indicators_of ex.output) gate_min in
    record ex {
      gate_result = some result;
      status = if result.passed then ex.status else gate_failed;
    }

abbrev pub gate_hook : ℕ → PostLoopHook
gate_hook gate_min = record {
  should_run = λ ex. is_two ex.loop_number && is_succeeded ex.status && is_truthy ex.output;
  run = λ ex. some (run_gate gate_min ex);
}

abbrev pub gate_passed : Option GateResult → Bool
gate_passed none = false
gate_passed (some g) = g.passed

unfoldable pub run_synthesis :
    Option (Indicators → Synthesis) → LoopExecution → Option LoopExecution
run_synthesis none ex = some ex
run_synthesis (some synthesize) ex = elim (synthesize (indicators_of ex.output)) [
  | chain_made chain_id ↦ some (record ex { synth_meta = some chain_id })
  | synthesis_error text ↦ some (record ex { status = failed; error = some text })
  | raised ↦ none
]

abbrev pub chain_synthesis_hook : Option (Indicators → Synthesis) → PostLoopHook
chain_synthesis_hook synthesizer = record {
  should_run = λ ex.
      is_two ex.loop_number
      && is_succeeded ex.status
      && gate_passed ex.gate_result
      && is_some synthesizer;
  run = run_synthesis synthesizer;
}

-- One turn of the loop over the rules: a rule that lacks a part is passed over, and so is one whose
-- supersession raises.
unfoldable pub add_supersession : (RuleRef → Option Totals) → RuleRef → Totals → Totals
add_supersession supersede rule totals =
    if nonblank rule.rule_id && nonblank rule.technique_id && nonblank rule.profile_name
    then elim (supersede rule) [
      | none ↦ totals
      | some summary ↦ record {
        pending_superseded = totals.pending_superseded + summary.pending_superseded;
        approved_deprecated = totals.approved_deprecated + summary.approved_deprecated;
      }
    ]
    else totals

unfoldable pub supersede_rules : (RuleRef → Option Totals) → List RuleRef → Totals → Totals
unfolding add_supersession
supersede_rules supersede [] totals = totals
supersede_rules supersede (rule ∷ rules) totals =
    supersede_rules supersede rules (add_supersession supersede rule totals)

unfoldable pub run_supersession :
    Option (RuleRef → Option Totals) → LoopExecution → Option LoopExecution
unfolding supersede_rules
run_supersession none ex = some ex
run_supersession (some supersede) ex = some (record ex {
  supersession_totals = supersede_rules supersede (rules_of ex.output) ex.supersession_totals;
})

abbrev pub rule_supersession_hook : Option (RuleRef → Option Totals) → PostLoopHook
rule_supersession_hook superseder = record {
  should_run = λ ex.
      is_three ex.loop_number && is_succeeded ex.status && is_some superseder && is_some ex.output;
  run = run_supersession superseder;
}
