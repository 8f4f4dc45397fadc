-- ===== src/Orchestrator/Finish.antt =====
-- assessments/orchestrator.py: the rows after the finalization of a run, in one pass.
use fragchain_core.Prelude.{
  ℕ, Bool, true, false, not, ◌&&◌, ◌||◌, List, [], ◌∷◌, ◌≡◌, refl, ◌∙◌, ap, arith, all, map, ltb,
  leb, ◌==◌, if◌then◌else◌, Bool-cases, inl, inr, ◌==◌,
}
use fragchain_core.LoopState.{LoopNumber, one, two, three, number, superseded}
use fragchain_core.PostLoop.{LoopExecution}
use fragchain_core.Orchestrator.{LoopRun, of_loop, supersede_row, invalidate_downstream}
use fragchain_core.Orchestrator.Execute.{written, activated, finished_runs}

module _ (assessment_id : ℕ) (loop : LoopNumber) where
  -- An active row of the same assessment at the loop or after it.
  abbrev pub is_outdated : LoopRun → Bool
  is_outdated r =
      r.assessment_id == assessment_id && leb (number loop) (number r.loop_number) && r.is_active

  abbrev is_later : LoopRun → Bool
  is_later r =
      r.assessment_id == assessment_id && ltb (number loop) (number r.loop_number) && r.is_active

abbrev pub retired : LoopRun → LoopRun
retired r = record r { is_active = false; status = superseded }

map_compose : {A : Type 0} (f g : A → A) (l : List A) → map f (map g l) ≡ map (λ a. f (g a)) l
map_compose f g [] = refl
map_compose f g (a ∷ l) = ground (arith, map_compose f g l)

map_same :
    {A : Type 0} (f g : A → A) (p : A → Bool)
    → ((a : A) → p a ≡ true → f a ≡ g a)
    → (l : List A) → all p l ≡ true
    → map f l ≡ map g l
map_same f g p h [] k = refl
map_same f g p h (a ∷ l) k = ground (arith, h a, map_same f g p h l)

unfoldable later_row : ℕ → LoopNumber → LoopRun → LoopRun
later_row assessment_id loop r = if is_later assessment_id loop r then retired r else r

later_row-three : (a : ℕ) (r : LoopRun) → r ≡ later_row a three r
unfolding later_row number
later_row-three a r = ground arith

later_row-two : (a : ℕ) (r : LoopRun) → supersede_row a three r ≡ later_row a two r
unfolding later_row number supersede_row
later_row-two a r = ground arith

later_row-one :
    (a : ℕ) (r : LoopRun) → supersede_row a three (supersede_row a two r) ≡ later_row a one r
unfolding later_row number supersede_row
later_row-one a r = ground arith

invalidate-later :
    (assessment_id : ℕ) (loop : LoopNumber) (l : List LoopRun)
    → invalidate_downstream assessment_id loop l ≡ map (later_row assessment_id loop) l
unfolding invalidate_downstream number
invalidate-later a three [] = refl
invalidate-later a three (r ∷ l) = ground (arith, later_row-three a r, invalidate-later a three l)
invalidate-later a two [] = refl
invalidate-later a two (r ∷ l) = ground (arith, later_row-two a r, invalidate-later a two l)
invalidate-later a one [] = refl
invalidate-later a one (r ∷ l) = ground (arith, later_row-one a r, invalidate-later a one l)

module _ (now run_id assessment_id : ℕ) (loop : LoopNumber) (ex : LoopExecution) where
  -- What finalization makes of one row.
  unfoldable pub finished_row : LoopRun → LoopRun
  finished_row r =
      if r.id == run_id
      then activated (written now ex r)
      else if is_outdated assessment_id loop r
      then retired r
      else r

  -- The run that is finalized is a row of its loop that is not active.
  abbrev pub is_inactive : LoopRun → Bool
  is_inactive r = of_loop assessment_id loop r && not r.is_active

  abbrev in_turn : LoopRun → LoopRun
  in_turn r =
      let one_ = if r.id == run_id then written now ex r else r in
      let two_ = supersede_row assessment_id loop one_ in
      let three_ = if two_.id == run_id then activated two_ else two_ in
      later_row assessment_id loop three_

  in_turn-finished_row :
      (r : LoopRun) → (not (r.id == run_id) || is_inactive r) ≡ true → in_turn r ≡ finished_row r
  unfolding later_row supersede_row finished_row number written
  in_turn-finished_row r h = elim (Bool-cases (r.id == run_id)) [
    | inl e ↦ ground arith
    | inr e ↦ ground arith
  ]

  pub finished_runs-map :
      (l : List LoopRun)
      → all (λ r. not (r.id == run_id) || is_inactive r) l ≡ true
      → finished_runs now run_id assessment_id loop ex l ≡ map finished_row l
  unfolding finished_runs
  finished_runs-map l h =
      let write = λ (r : LoopRun). if r.id == run_id then written now ex r else r in
      let activate = λ (r : LoopRun). if r.id == run_id then activated r else r in
      let supersede = supersede_row assessment_id loop in
      let later = later_row assessment_id loop in
      invalidate-later assessment_id loop (map activate (map supersede (map write l)))
      ∙ ap (map later) (map_compose activate supersede (map write l))
      ∙ map_compose later (λ r. activate (supersede r)) (map write l)
      ∙ map_compose (λ r. later (activate (supersede r))) write l
      ∙ map_same in_turn finished_row (λ r. not (r.id == run_id) || is_inactive r)
          in_turn-finished_row l h
