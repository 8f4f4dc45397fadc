-- ===== src/Orchestrator/Count.antt =====
-- The run that is looked up by its id, and what the rows with that id satisfy.
use fragchain_core.Prelude.{
  ℕ, Bool, true, not, ◌||◌, List, [], ◌∷◌, ◌≤◌, ◌≡◌, refl, arith, all, some, ◌==◌, Bool-cases, inl,
  inr, same_some, ap, sym, ◌∙◌, &&-eq-true, ==_iff,
}
use fragchain_core.Counting.{count}
use fragchain_core.Orchestrator.{LoopRun}
use fragchain_core.Orchestrator.Execute.{lookup_run}

-- What the one row with an id satisfies, all rows with that id satisfy.
absent-all :
    (id : ℕ) (p : LoopRun → Bool) (l : List LoopRun)
    → count (λ r. r.id == id) l ≡ 0
    → all (λ r. not (r.id == id) || p r) l ≡ true
absent-all id p [] h = refl
absent-all id p (r ∷ l) h = ground (arith, absent-all id p l)

pub lookup_run-all :
    (id : ℕ) (p : LoopRun → Bool) (l : List LoopRun) (r : LoopRun)
    → count (λ r. r.id == id) l ≤ 1
    → lookup_run id l ≡ some r
    → p r ≡ true
    → all (λ r. not (r.id == id) || p r) l ≡ true
unfolding lookup_run
lookup_run-all id p [] r u h k = cc
lookup_run-all id p (x ∷ l) r u h k = elim (Bool-cases (x.id == id)) [
  | inl e ↦
      let same = same_some (rw (e, lookup_run) at h) in
      rw (e, ap p same, k) (absent-all id p l (ground arith))
  | inr e ↦ rw e (lookup_run-all id p l r (ground arith) (ground arith) k)
]

-- What all rows satisfy, the row that is looked up satisfies, and it has the id.
pub lookup_run-some :
    (id : ℕ) (p : LoopRun → Bool) (l : List LoopRun) (r : LoopRun)
    → all p l ≡ true
    → lookup_run id l ≡ some r
    → (p r ≡ true) × (r.id ≡ id)
unfolding lookup_run
lookup_run-some id p [] r h k = cc
lookup_run-some id p (x ∷ l) r h k = elim (Bool-cases (x.id == id)) [
  | inl e ↦
      let same = same_some (rw (e, lookup_run) at k) in
      (
        sym (ap p same) ∙ (&&-eq-true (p x) (all p l) h).0,
        ap (λ (y : LoopRun). y.id) (sym same) ∙ (==_iff x.id id).0 e,
      )
  | inr e ↦ lookup_run-some id p l r (&&-eq-true (p x) (all p l) h).1 (ground arith)
]
