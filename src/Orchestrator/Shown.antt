-- ===== src/Orchestrator/Shown.antt =====
-- assessments/orchestrator.py: which run each loop shows, before and after a run is finalized.
use fragchain_core.Prelude.{
  ℕ, Bool, true, false, not, ◌||◌, List, [], ◌∷◌, ◌≡◌, refl, arith, all, map, ltb, ◌==◌,
  if◌then◌else◌, Bool-cases, inl, inr, Option, some, none, ap, ◌∙◌,
}
use fragchain_core.LoopState.{LoopNumber, number}
use fragchain_core.PostLoop.{LoopExecution}
use fragchain_core.Orchestrator.{LoopRun, Rows, is_active_row}
use fragchain_core.Orchestrator.Execute.{lookup_run, update_run, written, finished_runs}
use fragchain_core.Orchestrator.Finish.{finished_row, is_inactive, finished_runs-map}

-- The id of the first row that passes.
abbrev pub first_id : (LoopRun → Bool) → List LoopRun → Option ℕ
first_id p [] = none
first_id p (r ∷ l) = if p r then some r.id else first_id p l

-- The run that a loop of an assessment shows.
abbrev pub shown : Rows → ℕ → LoopNumber → Option ℕ
shown db a l = first_id (is_active_row a l) db.runs

-- The specification: a run that is completed is shown at its loop, the later loops of its
-- assessment show nothing any more, and all else is as it was.
abbrev pub completed_run :
    ℕ → ℕ → LoopNumber → (ℕ → LoopNumber → Option ℕ) → ℕ → LoopNumber → Option ℕ
completed_run run_id assessment_id loop before a l =
    if not (a == assessment_id)
    then before a l
    else if number l == number loop
    then some run_id
    else if ltb (number loop) (number l)
    then none
    else before a l

first_id-map :
    (w p q : LoopRun → Bool) (f : LoopRun → LoopRun)
    → ((r : LoopRun) → (f r).id ≡ r.id)
    → ((r : LoopRun) → w r ≡ true → p (f r) ≡ q r)
    → (l : List LoopRun) → all w l ≡ true
    → first_id p (map f l) ≡ first_id q l
first_id-map w p q f same h [] k = refl
first_id-map w p q f same h (r ∷ l) k = ground (arith, same r, h r, first_id-map w p q f same h l)

first_id-none : (l : List LoopRun) → first_id (λ r. false) l ≡ none
first_id-none [] = refl
first_id-none (r ∷ l) = first_id-none l

first_id-lookup :
    (id : ℕ) (l : List LoopRun) (r : LoopRun)
    → lookup_run id l ≡ some r
    → first_id (λ x. x.id == id) l ≡ some id
unfolding lookup_run
first_id-lookup id [] r h = cc
first_id-lookup id (x ∷ l) r h = ground (arith, first_id-lookup id l r)

first_id-choice :
    (x y z : Bool) (p q : LoopRun → Bool) (l : List LoopRun) {o : Option ℕ}
    → first_id q l ≡ o
    → first_id (λ r. if not x then p r else if y then q r else if z then false else p r) l
      ≡ (if not x then first_id p l else if y then o else if z then none else first_id p l)
first_id-choice false y z p q l h = refl
first_id-choice true true z p q l h = h
first_id-choice true false true p q l h = first_id-none l
first_id-choice true false false p q l h = refl

module _ (now run_id assessment_id : ℕ) (loop : LoopNumber) (ex : LoopExecution) where
  abbrev row : LoopRun → LoopRun
  row = finished_row now run_id assessment_id loop ex

  abbrev here : LoopRun → Bool
  here r = not (r.id == run_id) || is_inactive now run_id assessment_id loop ex r

  row_id : (r : LoopRun) → (row r).id ≡ r.id
  unfolding finished_row written
  row_id r = ground arith

  -- The rows that are shown after the finalization.
  abbrev shown_after : ℕ → LoopNumber → LoopRun → Bool
  shown_after a l r =
      if not (a == assessment_id)
      then is_active_row a l r
      else if number l == number loop
      then r.id == run_id
      else if ltb (number loop) (number l)
      then false
      else is_active_row a l r

  row_shown :
      (a : ℕ) (l : LoopNumber) (r : LoopRun)
      → here r ≡ true
      → is_active_row a l (row r) ≡ shown_after a l r
  unfolding finished_row written number
  row_shown a l r h = elim (Bool-cases (r.id == run_id)) [
    | inl e ↦ ground arith
    | inr e ↦ ground arith
  ]

  first_id-shown_after :
      (a : ℕ) (l : LoopNumber) (runs : List LoopRun) (r : LoopRun)
      → lookup_run run_id runs ≡ some r
      → first_id (shown_after a l) runs
        ≡ completed_run run_id assessment_id loop (λ b k. first_id (is_active_row b k) runs) a l
  first_id-shown_after a l runs r h =
      first_id-choice (a == assessment_id) (number l == number loop) (ltb (number loop) (number l))
        (is_active_row a l) (λ x. x.id == run_id) runs (first_id-lookup run_id runs r h)

  pub shown-finished :
      (a : ℕ) (l : LoopNumber) (runs : List LoopRun) (r : LoopRun)
      → lookup_run run_id runs ≡ some r
      → all here runs ≡ true
      → first_id (is_active_row a l) (finished_runs now run_id assessment_id loop ex runs)
        ≡ completed_run run_id assessment_id loop (λ b k. first_id (is_active_row b k) runs) a l
  shown-finished a l runs r h k =
      ap (first_id (is_active_row a l)) (finished_runs-map now run_id assessment_id loop ex runs k)
      ∙ first_id-map here (is_active_row a l) (shown_after a l) row row_id (row_shown a l) runs k
      ∙ first_id-shown_after a l runs r h

  pub shown-written :
      (a : ℕ) (l : LoopNumber) (runs : List LoopRun)
      → first_id (is_active_row a l) (update_run run_id (written now ex) runs)
        ≡ first_id (is_active_row a l) runs
  unfolding update_run written
  shown-written a l [] = refl
  shown-written a l (r ∷ runs) = ground (arith, shown-written a l runs)
