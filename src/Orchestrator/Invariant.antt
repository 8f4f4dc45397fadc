-- ===== src/Orchestrator/Invariant.antt =====
-- What every operation on the runs of the assessments keeps.
use fragchain_core.Prelude.{
  ◌<◌, ◌∙◌, &&-eq-true, ==_iff, ℕ, Bool, true, false, not, ◌&&◌, ◌||◌, List, [], ◌∷◌, ◌++◌, ◌≤◌,
  ◌≡◌, refl, arith, all, map, ◌==◌, Bool-cases, inl, inr, subst, sym,
}
use fragchain_core.LoopState.{LoopNumber, number, running}
use fragchain_core.PostLoop.{is_done}
use fragchain_core.Orchestrator.{
  LoopRun, of_loop, is_active_row, is_running_row, same_loop, same_status, max_version,
  next_version, running_run,
}
use fragchain_core.Counting.{
  count, count-append, count-any, count-map-le, count-map, all-append, all-map, all-both,
}

abbrev pub is_version : ℕ → LoopNumber → ℕ → LoopRun → Bool
is_version a l v r = of_loop a l r && r.version == v

-- An active run has output.
abbrev pub is_settled : LoopRun → Bool
is_settled r = not r.is_active || is_done r.status

-- Ids are unique; each loop of each assessment has at most one active run, at most one that is
-- running, and each version at most once; and an active run succeeded or failed the gate.
pub record IsSound (runs : List LoopRun) : Type 0 where
  pub unique : (i : ℕ) → count (λ r. r.id == i) runs ≤ 1
  pub exclusive : (a : ℕ) (l : LoopNumber) → count (is_active_row a l) runs ≤ 1
  pub single : (a : ℕ) (l : LoopNumber) → count (is_running_row a l) runs ≤ 1
  pub versions : (a : ℕ) (l : LoopNumber) (v : ℕ) → count (is_version a l v) runs ≤ 1
  pub settled : all is_settled runs ≡ true

pub IsSound-nil : IsSound []
IsSound-nil = record {
  unique = λ i. omega arith;
  exclusive = λ a l. omega arith;
  single = λ a l. omega arith;
  versions = λ a l v. omega arith;
  settled = refl;
}

-- A write to a row that keeps what names it, makes it neither active nor running, and leaves it
-- settled.
pub record IsQuiet (w : LoopRun → Bool) (f : LoopRun → LoopRun) : Type 0 where
  pub same_id : (r : LoopRun) → (f r).id ≡ r.id
  pub same_assessment : (r : LoopRun) → (f r).assessment_id ≡ r.assessment_id
  pub same_number : (r : LoopRun) → (f r).loop_number ≡ r.loop_number
  pub same_version : (r : LoopRun) → (f r).version ≡ r.version
  pub active : (r : LoopRun) → w r ≡ true → (f r).is_active ≡ true → r.is_active ≡ true
  pub runs :
      (r : LoopRun)
      → w r ≡ true
      → same_status (f r).status running ≡ true
      → same_status r.status running ≡ true
  pub settles : (r : LoopRun) → w r ≡ true → is_settled r ≡ true → is_settled (f r) ≡ true

module _ (w : LoopRun → Bool) (f : LoopRun → LoopRun) (q : IsQuiet w f) (l : List LoopRun)
    (k : all w l ≡ true) (s : IsSound l) where
  pub IsSound-map : IsSound (map f l)
  unfolding number
  IsSound-map = record {
    unique = λ i.
        omega
          (arith, count-map (λ r. r.id == i) f (λ r. ground (arith, q.same_id r)) l, s.unique i);
    exclusive = λ a n. omega (
      arith,
      count-map-le w (is_active_row a n) (is_active_row a n) f
          (λ r h p. ground (arith, q.same_assessment r, q.same_number r, q.active r h)) l k,
      s.exclusive a n,
    );
    single = λ a n. omega (
      arith,
      count-map-le w (is_running_row a n) (is_running_row a n) f
          (λ r h p. ground (arith, q.same_assessment r, q.same_number r, q.runs r h)) l k,
      s.single a n,
    );
    versions = λ a n v. omega (
      arith,
      count-map (is_version a n v) f
          (λ r. ground (arith, q.same_assessment r, q.same_number r, q.same_version r)) l,
      s.versions a n v,
    );
    settled =
        all-map (λ r. w r && is_settled r) is_settled f (λ r h. ground (arith, q.settles r)) l
          (all-both w is_settled l k s.settled);
  }

module _ (a : ℕ) (l : LoopNumber) where
  -- No version in use is above the greatest.
  versions-max :
      (v : ℕ) (runs : List LoopRun) → max_version a l runs < v → count (is_version a l v) runs ≡ 0
  unfolding max_version
  versions-max v [] h = refl
  versions-max v (r ∷ runs) h = ground (arith, versions-max v runs)

  fresh-next_version :
      (runs : List LoopRun) → count (is_version a l (next_version a l runs)) runs ≡ 0
  unfolding next_version
  fresh-next_version runs = versions-max _ runs (omega arith)

-- A new row as `begin_run` makes it.
pub record IsNew (runs : List LoopRun) (r : LoopRun) : Type 0 where
  pub fresh : count (λ x. x.id == r.id) runs ≡ 0
  pub inactive : r.is_active ≡ false
  pub not_running : running_run r.assessment_id r.loop_number runs ≡ false
  pub next : r.version ≡ next_version r.assessment_id r.loop_number runs

same_loop-eq : (k l : LoopNumber) → same_loop k l ≡ true → k ≡ l
unfolding number
same_loop-eq k l h = ground arith

-- What holds at the loop of a row holds at any loop that the row is of.
at_loop :
    (P : ℕ → LoopNumber → Type 0) (r : LoopRun) (a : ℕ) (l : LoopNumber)
    → P r.assessment_id r.loop_number
    → of_loop a l r ≡ true
    → P a l
at_loop P r a l h e =
    let (p, q) = &&-eq-true (r.assessment_id == a) (same_loop r.loop_number l) e in
    subst (P a) (same_loop-eq r.loop_number l q)
      (subst (λ b. P b r.loop_number) ((==_iff r.assessment_id a).0 p) h)

count-add :
    (p : LoopRun → Bool) (runs : List LoopRun) (r : LoopRun)
    → count p runs ≤ 1
    → (p r ≡ true → count p runs ≡ 0)
    → count p (runs ++ (r ∷ [])) ≤ 1
count-add p runs r h k = elim (Bool-cases (p r)) [
  | inl e ↦ ground (arith, count-append p runs (r ∷ []), k e)
  | inr e ↦ ground (arith, count-append p runs (r ∷ []))
]

module _ (runs : List LoopRun) (r : LoopRun) (n : IsNew runs r) (s : IsSound runs) where
  unique-add : (i : ℕ) → count (λ x. x.id == i) (runs ++ (r ∷ [])) ≤ 1
  unique-add i =
      count-add (λ x. x.id == i) runs r (s.unique i)
        (λ e.
          subst (λ j. count (λ (x : LoopRun). x.id == j) runs ≡ 0) ((==_iff r.id i).0 e) n.fresh)

  exclusive-add : (a : ℕ) (l : LoopNumber) → count (is_active_row a l) (runs ++ (r ∷ [])) ≤ 1
  exclusive-add a l =
      count-add (is_active_row a l) runs r (s.exclusive a l) (λ e. ground (arith, n.inactive))

  single-add : (a : ℕ) (l : LoopNumber) → count (is_running_row a l) (runs ++ (r ∷ [])) ≤ 1
  unfolding running_run
  single-add a l = count-add (is_running_row a l) runs r (s.single a l) (λ e.
      at_loop (λ b k. count (is_running_row b k) runs ≡ 0) r a l
        (count-any (is_running_row r.assessment_id r.loop_number) runs n.not_running)
        (&&-eq-true (of_loop a l r) (same_status r.status running) e).0)

  versions-add : (a : ℕ) (l : LoopNumber) (v : ℕ) → count (is_version a l v) (runs ++ (r ∷ [])) ≤ 1
  versions-add a l v = count-add (is_version a l v) runs r (s.versions a l v) (λ e.
      let (p, q) = &&-eq-true (of_loop a l r) (r.version == v) e in
      at_loop (λ b k. count (is_version b k v) runs ≡ 0) r a l
        (subst (λ w. count (is_version r.assessment_id r.loop_number w) runs ≡ 0)
          (sym n.next ∙ (==_iff r.version v).0 q)
          (fresh-next_version r.assessment_id r.loop_number runs))
        p)

  pub IsSound-add : IsSound (runs ++ (r ∷ []))
  IsSound-add = record {
    unique = unique-add;
    exclusive = exclusive-add;
    single = single-add;
    versions = versions-add;
    settled = ground (arith, all-append is_settled runs (r ∷ []), s.settled, n.inactive);
  }
