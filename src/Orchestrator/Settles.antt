-- ===== src/Orchestrator/Settles.antt =====
-- worker/tasks/run_assessment_loop.py: a task never leaves its run running.
use fragchain_core.Prelude.{
  ℕ, String, Bool, true, false, not, ◌||◌, List, [], ◌∷◌, ◌≡◌, refl, arith, all, ◌==◌, Bool-cases,
  Option-cases, inl, inr, ◌⊎◌, some, none, sym, ap, ◌∙◌,
}
use fragchain_core.LoopState.{LoopNumber, number, running, failed}
use fragchain_core.PostLoop.{LoopExecution, is_done, run_pipeline}
use fragchain_core.PostLoop.Hooks.{post_finalize_hooks}
use fragchain_core.Orchestrator.{LoopRun, CoverageAssessment, Rows, same_status}
use fragchain_core.Orchestrator.Execute.{
  Environment, run_impl, lookup_run, update_run, written, finalize_run, execute_running,
  execute_run,
}
use fragchain_core.Orchestrator.Worker.{fail_row, finalize_failed, executed}
use fragchain_core.Counting.{all-map, all-true}
use fragchain_core.Orchestrator.Count.{lookup_run-all, lookup_run-some}
use fragchain_core.Orchestrator.Finish.{finished_row, is_inactive, finished_runs-map}
use fragchain_core.Orchestrator.Invariant.{IsSound, is_settled}
use fragchain_core.Orchestrator.Operations.{pipelined, finalized-failed, running-inactive}

-- The run is not running, if there is one with the id.
abbrev pub is_ended : ℕ → LoopRun → Bool
is_ended run_id r = not (r.id == run_id) || not (same_status r.status running)

module _ (e : Environment) (now : ℕ) (db : Rows) (run_id : ℕ) where
  -- What an execution and its recovery come to.
  executed-cases :
      ((executed e now db run_id).0 ≡ (finalize_failed now "raised" run_id db).0)
      ⊎ ((r : LoopRun) × (lookup_run run_id db.runs ≡ some r)
          × (same_status r.status running ≡ false)
          × ((executed e now db run_id).0 ≡ db))
      ⊎ ((r : LoopRun) × (asmt : CoverageAssessment) × (ex : LoopExecution) × (lookup_run run_id
              db.runs
            ≡ some r)
          × (same_status r.status running ≡ true)
          × (pipelined e now db r ≡ some ex)
          × ((executed e now db run_id).0 ≡ finalize_run now r asmt ex db))
  unfolding executed execute_run execute_running
  executed-cases = elim (Option-cases (lookup_run run_id db.runs)) [
    | inl p ↦ inl (ground (arith, p))
    | inr (r, p) ↦ elim (Bool-cases (same_status r.status running)) [
      | inr q ↦ inr (inl (r, p, q, ground (arith, p, q)))
      | inl q ↦ elim (Option-cases (db.assessments r.assessment_id)) [
        | inl t ↦ inl (ground (arith, p, q, t))
        | inr (asmt, t) ↦ elim (Option-cases (pipelined e now db r)) [
          | inl u ↦ inl (ground (arith, p, q, t, u))
          | inr (ex, u) ↦
              elim (Option-cases (run_pipeline (post_finalize_hooks e.collaborators) ex)) [
                | inl v ↦ inl (ground (arith, p, q, t, u, v))
                | inr (after, v) ↦ inr (inr (r, asmt, ex, p, q, u, ground (arith, p, q, t, u, v)))
              ]
        ]
      ]
    ]
  ]

absent-is_ended :
    (run_id : ℕ) (l : List LoopRun) → lookup_run run_id l ≡ none → all (is_ended run_id) l ≡ true
unfolding lookup_run
absent-is_ended run_id [] h = refl
absent-is_ended run_id (r ∷ l) h = ground (arith, absent-is_ended run_id l)

failed-is_ended :
    (now run_id : ℕ) (error : String) (l : List LoopRun)
    → all (is_ended run_id) (update_run run_id (fail_row now error) l) ≡ true
unfolding update_run fail_row
failed-is_ended now run_id error [] = refl
failed-is_ended now run_id error (r ∷ l) = ground (arith, failed-is_ended now run_id error l)

finalize_failed-is_ended :
    (now run_id : ℕ) (error : String) (db : Rows)
    → all (is_ended run_id) (finalize_failed now error run_id db).0.runs ≡ true
unfolding finalize_failed
finalize_failed-is_ended now run_id error db = elim (Option-cases (lookup_run run_id db.runs)) [
  | inl p ↦ rw (p, finalize_failed) (absent-is_ended run_id db.runs p)
  | inr (r, p) ↦ rw (p, finalize_failed) (failed-is_ended now run_id error db.runs)
]

written-is_ended :
    (now run_id : ℕ) (ex : LoopExecution) (l : List LoopRun)
    → ex.status ≡ failed
    → all (is_ended run_id) (update_run run_id (written now ex) l) ≡ true
unfolding update_run written
written-is_ended now run_id ex [] h = refl
written-is_ended now run_id ex (r ∷ l) h = ground (arith, h, written-is_ended now run_id ex l h)

finished_row-is_ended :
    (now run_id a : ℕ) (l : LoopNumber) (ex : LoopExecution) (r : LoopRun)
    → is_done ex.status ≡ true
    → is_ended run_id (finished_row now run_id a l ex r) ≡ true
unfolding finished_row written
finished_row-is_ended now run_id a l ex r d = ground arith

finalize_run-is_ended :
    (now : ℕ) (r : LoopRun) (asmt : CoverageAssessment) (ex : LoopExecution) (db : Rows)
    → IsSound db.runs
    → lookup_run r.id db.runs ≡ some r
    → r.is_active ≡ false
    → (is_done ex.status ≡ false → ex.status ≡ failed)
    → all (is_ended r.id) (finalize_run now r asmt ex db).runs ≡ true
unfolding finalize_run number
finalize_run-is_ended now r asmt ex db s at quiet ends = elim (Bool-cases (is_done ex.status)) [
  | inr d ↦ rw d (written-is_ended now r.id ex db.runs (ends d))
  | inl d ↦
      let here =
        lookup_run-all r.id (is_inactive now r.id r.assessment_id r.loop_number ex) db.runs r
          (s.unique r.id) at (ground arith) in
      rw d (
        ap (all (is_ended r.id))
          (finished_runs-map now r.id r.assessment_id r.loop_number ex db.runs here)
        ∙ all-map (λ x. true) (is_ended r.id)
            (finished_row now r.id r.assessment_id r.loop_number ex)
            (λ x w. finished_row-is_ended now r.id r.assessment_id r.loop_number ex x d) db.runs
            (all-true db.runs))
]

-- From sound rows, whatever the loop, the hooks and the collaborators do, once a task has executed
-- a run or recovered from its failure no row with the run's id is running.
pub executed-is_ended :
    (e : Environment) (now : ℕ) (db : Rows) (run_id : ℕ)
    → IsSound db.runs
    → all (is_ended run_id) (executed e now db run_id).0.runs ≡ true
executed-is_ended e now db run_id s = elim (executed-cases e now db run_id) [
  | inl p ↦
      ap (λ (d : Rows). all (is_ended run_id) d.runs) p
      ∙ finalize_failed-is_ended now run_id "raised" db
  | inr (inl (r, at, q, p)) ↦
      ap (λ (d : Rows). all (is_ended run_id) d.runs) p
      ∙ lookup_run-all run_id (λ x. not (same_status x.status running)) db.runs r (s.unique run_id)
          at (ground (arith, q))
  | inr (inr (r, asmt, ex, at, q, u, p)) ↦
      let id_ = (lookup_run-some run_id is_settled db.runs r s.settled at).1 in
      ap (λ (d : Rows). all (is_ended run_id) d.runs) p
      ∙ ap (λ i. all (is_ended i) (finalize_run now r asmt ex db).runs) (sym id_)
      ∙ finalize_run-is_ended now r asmt ex db s (ap (λ i. lookup_run i db.runs) id_ ∙ at)
          (running-inactive run_id db.runs r s at q)
          (finalized-failed e.gate_min e.collaborators r.loop_number (run_impl e db r) ex u)
]
