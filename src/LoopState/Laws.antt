-- ===== src/LoopState/Laws.antt =====
-- The loops of an assessment, run in sequence.
use fragchain_core.Prelude.{ℕ, Bool, true, false, ◌+◌, ◌≡◌, refl, ◌&&◌, arith, leb}
use fragchain_core.LoopState.{
  AssessmentState, created, loop1_done, loop2_done, loop3_done, completed, LoopNumber, one, two,
  three, number, can_run_loop, next_state_after_loop, succeeded, dispatch, decide_next,
}

-- The number of the last loop whose output an assessment in this state has.
abbrev pub done : AssessmentState → ℕ
done created = 0
done loop1_done = 1
done loop2_done = 2
done loop3_done = 3
done completed = 3

abbrev pub is_open : AssessmentState → Bool
is_open completed = false
is_open _ = true

-- A loop may run exactly when the assessment is not completed and the loop's number is at most
-- one above that of the last loop done.
pub can_run_loop-done :
    (s : AssessmentState) (l : LoopNumber)
    → can_run_loop s l ≡ (is_open s && leb (number l) (done s + 1))
unfolding can_run_loop number
can_run_loop-done created one = refl
can_run_loop-done created two = refl
can_run_loop-done created three = refl
can_run_loop-done loop1_done one = refl
can_run_loop-done loop1_done two = refl
can_run_loop-done loop1_done three = refl
can_run_loop-done loop2_done one = refl
can_run_loop-done loop2_done two = refl
can_run_loop-done loop2_done three = refl
can_run_loop-done loop3_done one = refl
can_run_loop-done loop3_done two = refl
can_run_loop-done loop3_done three = refl
can_run_loop-done completed l = refl

-- A loop that a successful run of another loop is chained to may run in the state which that run
-- leaves, whatever the state before it.
dispatch-can_run_loop :
    (s : AssessmentState) (l m : LoopNumber)
    → decide_next succeeded (number l) true ≡ dispatch (number m)
    → can_run_loop (next_state_after_loop s l) m ≡ true
unfolding can_run_loop next_state_after_loop number decide_next
dispatch-can_run_loop s one one h = ground arith
dispatch-can_run_loop s one two h = refl
dispatch-can_run_loop s one three h = ground arith
dispatch-can_run_loop s two m h = elim m [ one ↦ refl | two ↦ refl | three ↦ refl ]
dispatch-can_run_loop s three m h = elim m [ one ↦ refl | two ↦ refl | three ↦ refl ]
