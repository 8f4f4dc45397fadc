-- ===== src/Orchestrator/Preserve.antt =====
-- Finalization and recovery keep what `IsSound` says of the runs.
use fragchain_core.Prelude.{
  ℕ, String, Bool, true, false, not, ◌&&◌, ◌||◌, List, ◌≤◌, ◌≡◌, arith, all, map, ◌==◌,
  if◌then◌else◌, Bool-cases, inl, inr, subst, sym,
}
use fragchain_core.LoopState.{LoopNumber, number, running, failed}
use fragchain_core.PostLoop.{LoopExecution, is_done}
use fragchain_core.Orchestrator.{
  LoopRun, of_loop, is_active_row, is_running_row, same_loop, same_status,
}
use fragchain_core.Orchestrator.Execute.{update_run, written, finished_runs}
use fragchain_core.Orchestrator.Worker.{fail_row, reap_row}
use fragchain_core.Counting.{count, count-map-le, count-map, all-map, all-true}
use fragchain_core.Orchestrator.Finish.{finished_row, is_inactive, finished_runs-map}
use fragchain_core.Orchestrator.Invariant.{is_version, is_settled, IsSound, IsQuiet, IsSound-map}

-- A recovery makes nothing active or running, and what it changes was running, so not active.
reap_row-IsQuiet : (max_age now : ℕ) → IsQuiet (λ r. true) (reap_row max_age now)
unfolding reap_row
reap_row-IsQuiet max_age now = record {
  same_id = λ r. ground arith;
  same_assessment = λ r. ground arith;
  same_number = λ r. ground arith;
  same_version = λ r. ground arith;
  active = λ r w h. ground arith;
  runs = λ r w h. ground arith;
  settles = λ r w h. ground arith;
}

module _ (now run_id assessment_id : ℕ) (loop : LoopNumber) (ex : LoopExecution) (l : List LoopRun)
    (s : IsSound l)
    (at : all (λ r. not (r.id == run_id) || is_inactive now run_id assessment_id loop ex r) l
      ≡ true) where
  abbrev row : LoopRun → LoopRun
  row = finished_row now run_id assessment_id loop ex

  abbrev here : LoopRun → Bool
  here r = not (r.id == run_id) || is_inactive now run_id assessment_id loop ex r

  row_id : (r : LoopRun) → (row r).id ≡ r.id
  unfolding finished_row written
  row_id r = ground arith

  row_of_loop : (a : ℕ) (k : LoopNumber) (r : LoopRun) → of_loop a k (row r) ≡ of_loop a k r
  unfolding finished_row written
  row_of_loop a k r = ground arith

  row_version : (r : LoopRun) → (row r).version ≡ r.version
  unfolding finished_row written
  row_version r = ground arith

  row_running :
      is_done ex.status ≡ true
      → (r : LoopRun) → same_status (row r).status running ≡ true
      → same_status r.status running ≡ true
  unfolding finished_row written
  row_running done r h = ground arith

  row_settled :
      is_done ex.status ≡ true → (r : LoopRun) → is_settled r ≡ true → is_settled (row r) ≡ true
  unfolding finished_row written
  row_settled done r h = ground arith

  -- At the loop itself the only active row is the run's; elsewhere no row becomes active.
  row_active_here :
      (r : LoopRun) → is_active_row assessment_id loop (row r) ≡ true → (r.id == run_id) ≡ true
  unfolding finished_row written number
  row_active_here r h = ground arith

  row_active_there :
      (a : ℕ) (k : LoopNumber) (r : LoopRun)
      → ((a == assessment_id) && same_loop k loop) ≡ false
      → here r ≡ true
      → is_active_row a k (row r) ≡ true
      → is_active_row a k r ≡ true
  unfolding finished_row written number
  row_active_there a k r other h p = ground arith

  exclusive-finished : (a : ℕ) (k : LoopNumber) → count (is_active_row a k) (map row l) ≤ 1
  exclusive-finished a k = elim (Bool-cases ((a == assessment_id) && same_loop k loop)) [
    | inl e ↦ omega (
      arith,
      count-map-le (λ r. true) (is_active_row a k) (λ r. r.id == run_id) row
          (λ r w p. row_active_here r (ground (arith, e, p))) l (all-true l),
      s.unique run_id,
    )
    | inr e ↦ omega (
      arith,
      count-map-le here (is_active_row a k) (is_active_row a k) row
          (λ r h p. row_active_there a k r e h p) l at,
      s.exclusive a k,
    )
  ]

  pub IsSound-finished :
      is_done ex.status ≡ true → IsSound (finished_runs now run_id assessment_id loop ex l)
  IsSound-finished done =
      subst IsSound (sym (finished_runs-map now run_id assessment_id loop ex l at)) record {
        unique = λ i.
            omega
              (arith, count-map (λ r. r.id == i) row (λ r. ground (arith, row_id r)) l, s.unique i);
        exclusive = exclusive-finished;
        single = λ a k. omega (
          arith,
          count-map-le (λ r. true) (is_running_row a k) (is_running_row a k) row
              (λ r w p. ground (arith, row_of_loop a k r, row_running done r)) l (all-true l),
          s.single a k,
        );
        versions = λ a k v. omega (
          arith,
          count-map (is_version a k v) row (λ r. ground (arith, row_of_loop a k r, row_version r))
              l,
          s.versions a k v,
        );
        settled = all-map is_settled is_settled row (row_settled done) l s.settled;
      }

-- A write to one row by its id.
abbrev at_id : ℕ → (LoopRun → LoopRun) → LoopRun → LoopRun
at_id i f r = if r.id == i then f r else r

written-IsQuiet :
    (now run_id : ℕ) (ex : LoopExecution)
    → ex.status ≡ failed
    → IsQuiet (λ r. not (r.id == run_id) || not r.is_active) (at_id run_id (written now ex))
unfolding written
written-IsQuiet now run_id ex e = record {
  same_id = λ r. ground arith;
  same_assessment = λ r. ground arith;
  same_number = λ r. ground arith;
  same_version = λ r. ground arith;
  active = λ r w h. ground arith;
  runs = λ r w h. ground (arith, e);
  settles = λ r w h. ground (arith, e);
}

fail_at-IsQuiet :
    (now run_id : ℕ) (error : String) → IsQuiet (λ r. true) (at_id run_id (fail_row now error))
unfolding fail_row
fail_at-IsQuiet now run_id error = record {
  same_id = λ r. ground arith;
  same_assessment = λ r. ground arith;
  same_number = λ r. ground arith;
  same_version = λ r. ground arith;
  active = λ r w h. ground arith;
  runs = λ r w h. ground arith;
  settles = λ r w h. ground arith;
}

pub IsSound-written :
    (now run_id : ℕ) (ex : LoopExecution) (l : List LoopRun)
    → ex.status ≡ failed
    → all (λ r. not (r.id == run_id) || not r.is_active) l ≡ true
    → IsSound l
    → IsSound (update_run run_id (written now ex) l)
unfolding update_run
IsSound-written now run_id ex l e k s =
    IsSound-map (λ r. not (r.id == run_id) || not r.is_active) (at_id run_id (written now ex))
      (written-IsQuiet now run_id ex e) l k s

pub IsSound-failed :
    (now run_id : ℕ) (error : String) (l : List LoopRun)
    → IsSound l
    → IsSound (update_run run_id (fail_row now error) l)
unfolding update_run
IsSound-failed now run_id error l s =
    IsSound-map (λ r. true) (at_id run_id (fail_row now error)) (fail_at-IsQuiet now run_id error) l
      (all-true l) s

pub IsSound-reaped :
    (max_age now : ℕ) (l : List LoopRun) → IsSound l → IsSound (map (reap_row max_age now) l)
IsSound-reaped max_age now l s =
    IsSound-map (λ r. true) (reap_row max_age now) (reap_row-IsQuiet max_age now) l (all-true l) s
