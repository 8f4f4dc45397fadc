-- ===== src/Structured/Repair.antt =====
-- The repair loop ends, within its budgets.
use fragchain_core.Prelude.{
  ℕ, zero, suc, Bool, true, false, not, ◌||◌, Option, none, some, ◌+◌, ◌*◌, ◌≤◌, ◌<◌, leb,
  if◌then◌else◌, ◌≡◌, refl, arith, Option-cases, inl, inr,
}
use fragchain_core.Structured.{
  Text, Reply, response, timeout, failure, response_cost, Outcome, done, structured_output_error,
  value_error, raised, no_fuel, single, strip_fences, repair_loop, single_with_repair,
}

-- A value comes from the valid text of the last call; an error is that of a budget that is used up, an
-- exception that of a call that failed; and the calls are at most twice the number of repairs and one.
abbrev pub IsWithin : {A : Type 0} → (Text → Option A) → (ℕ → Reply) → ℕ → Outcome A → Type 0
IsWithin validate complete max_repair (done result) =
    (result.attempts ≤ 2 * max_repair + 1)
    × ((text : Text) × (paid : Option ℕ) × (complete result.attempts ≡ response text paid)
        × (validate (strip_fences text) ≡ some result.value))
IsWithin validate complete max_repair (structured_output_error attempts) =
    (max_repair < attempts) × (attempts ≤ 2 * max_repair + 1)
IsWithin validate complete max_repair value_error = ⊥
IsWithin validate complete max_repair raised =
    (n : ℕ) × (n ≤ 2 * max_repair + 1) × (complete n ≡ failure)
IsWithin validate complete max_repair no_fuel = ⊥

module _ {A : Type 0} (validate : Text → Option A) (complete : ℕ → Reply) (max_repair : ℕ) where
  -- One round, from what holds of each of its ends.
  round-IsWithin :
      (attempt cost : ℕ) (stop : Bool) (reply : Reply) (stopped late : Outcome A)
      (again : ℕ → Outcome A)
      → complete attempt ≡ reply
      → (stop ≡ true → IsWithin validate complete max_repair stopped)
      → (stop ≡ false → attempt ≤ 2 * max_repair + 1)
      → (stop ≡ false → IsWithin validate complete max_repair late)
      → (stop ≡ false → (paid : ℕ) → IsWithin validate complete max_repair (again paid))
      → IsWithin validate complete max_repair (
          if stop then stopped else elim reply [
            | failure ↦ raised
            | timeout ↦ late
            | response text paid ↦ elim (validate (strip_fences text)) [
              | some value ↦ single validate value attempt (cost + response_cost paid)
              | none ↦ again (response_cost paid)
            ]
          ])
  round-IsWithin attempt cost true reply stopped late again e s a l g = s refl
  round-IsWithin attempt cost false failure stopped late again e s a l g = (attempt, a refl, e)
  round-IsWithin attempt cost false timeout stopped late again e s a l g = l refl
  round-IsWithin attempt cost false (response text paid) stopped late again e s a l g =
      elim (Option-cases (validate (strip_fences text))) [
        | inl invalid ↦ rw invalid (g refl (response_cost paid))
        | inr (value, valid) ↦ rw valid (a refl, (text, paid, e, valid))
      ]

  in_budget :
      (validations timeouts : ℕ)
      → (not (leb validations max_repair) || leb (max_repair + 1) timeouts) ≡ false
      → (validations ≤ max_repair) × (timeouts ≤ max_repair)
  in_budget validations timeouts h = ground arith

  used_up :
      (validations timeouts : ℕ)
      → (not (leb validations max_repair) || leb (max_repair + 1) timeouts) ≡ true
      → max_repair < validations + timeouts
  used_up validations timeouts h = ground arith

  repair_loop-IsWithin :
      (fuel validations timeouts cost : ℕ)
      → validations ≤ max_repair + 1
      → timeouts ≤ max_repair + 1
      → validations + timeouts ≤ 2 * max_repair + 1
      → 2 * max_repair + 2 < fuel + validations + timeouts
      → IsWithin validate complete max_repair
          (repair_loop validate complete max_repair fuel validations timeouts cost)
  unfolding repair_loop
  repair_loop-IsWithin zero validations timeouts cost v t b f = absurd (omega arith)
  repair_loop-IsWithin (suc fuel) validations timeouts cost v t b f =
      round-IsWithin (validations + timeouts + 1) cost
        (not (leb validations max_repair) || leb (max_repair + 1) timeouts)
        (complete (validations + timeouts + 1)) (structured_output_error (validations + timeouts))
        (repair_loop validate complete max_repair fuel validations (timeouts + 1) cost)
        (λ paid.
          repair_loop validate complete max_repair fuel (validations + 1) timeouts (cost + paid))
        refl (λ stop. (used_up validations timeouts stop, b))
        (λ on. omega (arith, in_budget validations timeouts on))
        (λ on.
          let bound = in_budget validations timeouts on in
          repair_loop-IsWithin fuel validations (timeouts + 1) cost v (omega (arith, bound))
            (omega (arith, bound)) (omega (arith, f)))
        (λ on paid.
          let bound = in_budget validations timeouts on in
          repair_loop-IsWithin fuel (validations + 1) timeouts (cost + paid) (omega (arith, bound))
            t (omega (arith, bound)) (omega (arith, f)))

  -- Whatever the provider answers, the loop ends after at most twice the number of repairs and one more
  -- call: with the valid reading of the text of its last call, with an error after more calls than the
  -- number of repairs, or with the exception of a call that failed.
  pub single_with_repair-IsWithin :
      IsWithin validate complete max_repair (single_with_repair validate complete max_repair)
  unfolding single_with_repair
  single_with_repair-IsWithin =
      repair_loop-IsWithin (2 * max_repair + 3) 0 0 0 (omega arith) (omega arith) (omega arith)
        (omega arith)
