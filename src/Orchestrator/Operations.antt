-- ===== src/Orchestrator/Operations.antt =====
-- `begin_run` and `execute_run`: their cases, and that they keep what `IsSound` says.
use fragchain_core.Prelude.{
  ℕ, String, Bool, true, false, not, List, [], ◌∷◌, ◌++◌, ◌≡◌, refl, arith, ◌==◌, Bool-cases,
  Option-cases, inl, inr, Option, some, subst, sym, ap, ◌∙◌, ◌⊎◌, same_some,
}
use fragchain_core.LoopState.{LoopNumber, number, running, failed}
use fragchain_core.PostLoop.{LoopExecution, is_done, run_pipeline, Collaborators}
use fragchain_core.PostLoop.Hooks.{pre_finalize_hooks, post_finalize_hooks}
use fragchain_core.PostLoop.Laws.{pipeline-failed, pre_finalize-IsGated}
use fragchain_core.Orchestrator.{
  LoopRun, CoverageAssessment, Rows, Outcome, done, same_status, running_run, next_version, new_run,
  begin_run, check_begin,
}
use fragchain_core.Orchestrator.Execute.{
  Environment, LoopResult, returned, raised, execution_of, run_impl, lookup_run, finalize_run,
  execute_running, execute_run,
}
use fragchain_core.Counting.{count}
use fragchain_core.Orchestrator.Count.{lookup_run-all, lookup_run-some}
use fragchain_core.Orchestrator.Finish.{is_inactive}
use fragchain_core.Orchestrator.Invariant.{is_settled, IsSound, IsSound-add}
use fragchain_core.Orchestrator.Preserve.{IsSound-finished, IsSound-written}

abbrev pub is_returned : {A : Type 0} → Outcome A → Bool
is_returned (done _) = true
is_returned _ = false

module _ (id now : ℕ) (db : Rows) (a : ℕ) (l : LoopNumber) (rationale : Option String) where
  begin_run-refused :
      is_returned (check_begin db a l rationale) ≡ false
      → (begin_run id now db a l rationale).0 ≡ db
  unfolding begin_run
  begin_run-refused h = ground arith

  abbrev fresh_run : LoopRun
  fresh_run = new_run id now a l (next_version a l db.runs) rationale

  begin_run-added :
      is_returned (check_begin db a l rationale) ≡ true
      → (begin_run id now db a l rationale).0.runs ≡ db.runs ++ (fresh_run ∷ [])
  unfolding begin_run
  begin_run-added h = ground arith

  not_running : is_returned (check_begin db a l rationale) ≡ true → running_run a l db.runs ≡ false
  unfolding check_begin
  not_running h = ground arith

  pub begin_run-IsSound :
      count (λ r. r.id == id) db.runs ≡ 0
      → IsSound db.runs
      → IsSound (begin_run id now db a l rationale).0.runs
  begin_run-IsSound fresh s = elim (Bool-cases (is_returned (check_begin db a l rationale))) [
    | inl e ↦ subst IsSound (sym (begin_run-added e)) (
        IsSound-add db.runs fresh_run
          record { fresh = fresh; inactive = refl; not_running = not_running e; next = refl } s)
    | inr e ↦ subst (λ (d : Rows). IsSound d.runs) (sym (begin_run-refused e)) s
  ]

-- The status of a run when it is finalized.
pub finalized-failed :
    (gate_min : ℕ) (c : Collaborators) (l : LoopNumber) (result : LoopResult) (ex : LoopExecution)
    → run_pipeline (pre_finalize_hooks gate_min c) (execution_of l result) ≡ some ex
    → is_done ex.status ≡ false
    → ex.status ≡ failed
unfolding execution_of
finalized-failed gate_min c l (returned o) ex h d =
    let g = pre_finalize-IsGated gate_min c (execution_of l (returned o)) ex refl h in g.ends d
finalized-failed gate_min c l (raised text) ex h d =
    let kept = (pipeline-failed gate_min c (execution_of l (raised text)) refl).0 in
    ap (λ (x : LoopExecution). x.status) (sym (same_some (sym kept ∙ h)))

-- A run that is running is no active row.
pub running-inactive :
    (id : ℕ) (runs : List LoopRun) (r : LoopRun)
    → IsSound runs
    → lookup_run id runs ≡ some r
    → same_status r.status running ≡ true
    → r.is_active ≡ false
running-inactive id runs r s h e = ground (arith, lookup_run-some id is_settled runs r s.settled h)

module _ (e : Environment) (now : ℕ) (db : Rows) where
  -- The execution of a run when its row is finalized.
  abbrev pub pipelined : LoopRun → Option LoopExecution
  pipelined r =
      run_pipeline (pre_finalize_hooks e.gate_min e.collaborators)
        (execution_of r.loop_number (run_impl e db r))

  -- An execution leaves the rows as they are, or finalizes the run.
  pub execute_running-cases :
      (r : LoopRun) (asmt : CoverageAssessment)
      → ((execute_running e now db r asmt).0 ≡ db)
        ⊎ ((ex : LoopExecution) × (pipelined r ≡ some ex)
            × ((execute_running e now db r asmt).0 ≡ finalize_run now r asmt ex db))
  unfolding execute_running
  execute_running-cases r asmt = elim (Option-cases (pipelined r)) [
    | inl p ↦ inl (ground (arith, p))
    | inr (ex, p) ↦ elim (Option-cases (run_pipeline (post_finalize_hooks e.collaborators) ex)) [
      | inl q ↦ inl (ground (arith, p, q))
      | inr (after, q) ↦ inr (ex, p, ground (arith, p, q))
    ]
  ]

  pub execute_run-cases :
      (run_id : ℕ)
      → ((execute_run e now db run_id).0 ≡ db)
        ⊎ ((r : LoopRun) × (asmt : CoverageAssessment) × (ex : LoopExecution) × (lookup_run run_id
                db.runs
              ≡ some r)
            × (same_status r.status running ≡ true)
            × (db.assessments r.assessment_id ≡ some asmt)
            × (pipelined r ≡ some ex)
            × ((execute_run e now db run_id).0 ≡ finalize_run now r asmt ex db))
  unfolding execute_run
  execute_run-cases run_id = elim (Option-cases (lookup_run run_id db.runs)) [
    | inl p ↦ inl (ground (arith, p))
    | inr (r, p) ↦ elim (Bool-cases (same_status r.status running)) [
      | inr q ↦ inl (ground (arith, p, q))
      | inl q ↦ elim (Option-cases (db.assessments r.assessment_id)) [
        | inl t ↦ inl (ground (arith, p, q, t))
        | inr (asmt, t) ↦ elim (execute_running-cases r asmt) [
          | inl u ↦ inl (ground (arith, p, q, t, u))
          | inr (ex, v, u) ↦ inr (r, asmt, ex, p, q, t, v, ground (arith, p, q, t, u))
        ]
      ]
    ]
  ]

finalize_run-IsSound :
    (now : ℕ) (r : LoopRun) (asmt : CoverageAssessment) (ex : LoopExecution) (db : Rows)
    → IsSound db.runs
    → lookup_run r.id db.runs ≡ some r
    → r.is_active ≡ false
    → (is_done ex.status ≡ false → ex.status ≡ failed)
    → IsSound (finalize_run now r asmt ex db).runs
unfolding finalize_run number
finalize_run-IsSound now r asmt ex db s at quiet ends = elim (Bool-cases (is_done ex.status)) [
  | inl d ↦
      let here =
        lookup_run-all r.id (is_inactive now r.id r.assessment_id r.loop_number ex) db.runs r
          (s.unique r.id) at (ground arith) in
      rw d (IsSound-finished now r.id r.assessment_id r.loop_number ex db.runs s here d)
  | inr d ↦ rw d (
      IsSound-written now r.id ex db.runs (ends d)
        (lookup_run-all r.id (λ x. not x.is_active) db.runs r (s.unique r.id) at (ground arith)) s)
]

pub execute_run-IsSound :
    (e : Environment) (now : ℕ) (db : Rows) (run_id : ℕ)
    → IsSound db.runs
    → IsSound (execute_run e now db run_id).0.runs
execute_run-IsSound e now db run_id s = elim (execute_run-cases e now db run_id) [
  | inl p ↦ subst (λ (d : Rows). IsSound d.runs) (sym p) s
  | inr (r, asmt, ex, at, runs, t, p, q) ↦
      let id_ = (lookup_run-some run_id is_settled db.runs r s.settled at).1 in
      subst (λ (d : Rows). IsSound d.runs) (sym q)
        (finalize_run-IsSound now r asmt ex db s (ap (λ i. lookup_run i db.runs) id_ ∙ at)
          (running-inactive run_id db.runs r s at runs)
          (finalized-failed e.gate_min e.collaborators r.loop_number (run_impl e db r) ex p))
]
