-- ===== src/LoopState.antt =====
-- assessments/state_machine.py and the decision of assessments/loop_chain.py: which loop of an
-- assessment may run, where it leads, and what follows it.
pub mod Laws
use fragchain_core.Prelude.{
  ℕ, String, Bool, true, false, Option, none, some, List, [], ◌∷◌, ◌+◌, select, ltb, leb, ◌==◌,
  if◌then◌else◌,
}

pub data AssessmentState : Type 0 where
  created loop1_done loop2_done loop3_done completed : AssessmentState

pub data LoopNumber : Type 0 where
  one two three : LoopNumber

unfoldable pub number : LoopNumber → ℕ
number one = 1
number two = 2
number three = 3

-- `loop in _RUNNABLE.get(current, set())`
unfoldable pub can_run_loop : AssessmentState → LoopNumber → Bool
can_run_loop created one = true
can_run_loop created _ = false
can_run_loop loop1_done three = false
can_run_loop loop1_done _ = true
can_run_loop loop2_done _ = true
can_run_loop loop3_done _ = true
can_run_loop completed _ = false

unfoldable pub next_state_after_loop : AssessmentState → LoopNumber → AssessmentState
next_state_after_loop current one = loop1_done
next_state_after_loop current two = loop2_done
next_state_after_loop current three = loop3_done

unfoldable pub states_invalidated_by_rerun : LoopNumber → List LoopNumber
unfolding number
states_invalidated_by_rerun loop =
    select (λ n. ltb (number loop) (number n)) (one ∷ two ∷ three ∷ [])

unfoldable pub can_close : AssessmentState → Bool
can_close loop2_done = true
can_close loop3_done = true
can_close _ = false

-- `run.status`
pub data RunStatus : Type 0 where
  running succeeded gate_failed failed superseded : RunStatus

pub data ChainDecision : Type 0 where
  noop : ChainDecision
  stop : String → ChainDecision
  dispatch : ℕ → ChainDecision

unfoldable pub decide_next : RunStatus → ℕ → Bool → ChainDecision
decide_next status loop_number false = noop
decide_next failed loop_number true = stop "loop_failed"
decide_next gate_failed loop_number true = stop "gate_failed"
decide_next succeeded loop_number true =
    if leb 3 loop_number then stop "chain_complete" else dispatch (loop_number + 1)
decide_next _ loop_number true = noop
