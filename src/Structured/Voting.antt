-- ===== src/Structured/Voting.antt =====
-- The value that a vote returns.
use mathlib.Core.List.{Memᴰ}
use native.Mathlib.Nat.{le_trans}
use fragchain_core.Prelude.{
  ℕ, Option, some, List, [], ◌∷◌, ◌≤◌, ltb, length, if◌then◌else◌, skip_second, ◌≡◌, refl, subst,
  arith, All, Bool-cases, inl, inr,
}
use fragchain_core.Structured.{
  Text, Reply, StructuredResult, done, parsed_samples, cost_of, votes_for, most_common, consensus,
  voted,
}

better :
    {A : Type 0} (f : A → ℕ) (b s : A)
    → (f b ≤ f (if ltb (f b) (f s) then s else b)) × (f s ≤ f (if ltb (f b) (f s) then s else b))
better f b s = elim (Bool-cases (ltb (f b) (f s))) [
  | inl lt ↦ rw lt (ground arith, omega arith)
  | inr ge ↦ rw ge (omega arith, ground arith)
]

same_done : {A : Type 0} {r s : StructuredResult A} → done r ≡ done s → r ≡ s
same_done h = cc

module _ {A : Type 0} (validate : Text → Option A) (dump : A → Text) where
  -- The best so far is kept until a value has more votes.
  most_common-most :
      (samples rest : List A) (best : A)
      → (votes_for validate dump best samples
          ≤ votes_for validate dump (most_common validate dump samples best rest) samples)
        × All
            (λ s.
              votes_for validate dump s samples
              ≤ votes_for validate dump (most_common validate dump samples best rest) samples)
            rest
  unfolding most_common
  most_common-most samples [] best = (omega arith, tt)
  most_common-most samples (s ∷ rest) best =
      let f = λ (v : A). votes_for validate dump v samples in
      let step = better f best s in
      let (le, all) = most_common-most samples rest (if ltb (f best) (f s) then s else best) in
      (le_trans step.0 le, (le_trans step.1 le, all))

  most_common-mem :
      (samples rest : List A) (best : A)
      → Memᴰ (most_common validate dump samples best rest) (best ∷ rest)
  unfolding most_common
  most_common-mem samples [] best = Memᴰ.head refl
  most_common-mem samples (s ∷ rest) best =
      elim (Bool-cases
        (ltb (votes_for validate dump best samples) (votes_for validate dump s samples))) [
          | inl lt ↦ rw (lt, most_common) (Memᴰ.tail (most_common-mem samples rest s))
          | inr ge ↦ rw (ge, most_common) (skip_second (most_common-mem samples rest best))
        ]

  -- A result of a vote over samples.
  unfoldable pub IsTop : List A → StructuredResult A → Type 0
  IsTop samples result =
      (result.samples ≡ samples)
      × Memᴰ result.value samples
      × (result.votes ≡ votes_for validate dump result.value samples)
      × All (λ s. votes_for validate dump s samples ≤ result.votes) samples

  consensus-IsTop :
      ((a : A) → validate (dump a) ≡ some a)
      → (n_samples cost : ℕ) (samples : List A) (result : StructuredResult A)
      → consensus validate dump n_samples cost samples ≡ done result
      → IsTop samples result
  unfolding consensus IsTop
  consensus-IsTop round_trip n_samples cost [] result h = cc
  consensus-IsTop round_trip n_samples cost (s ∷ rest) result h =
      let top = most_common validate dump (s ∷ rest) s rest in
      let h' = rw (round_trip top, consensus) at h in
      let most = most_common-most (s ∷ rest) rest s in
      subst (IsTop (s ∷ rest)) (same_done h')
        (refl, most_common-mem (s ∷ rest) rest s, refl, (most.0, most.1))

  -- When a value that is dumped validates to itself, a vote that returns a result returns the valid
  -- samples, in order, and one of them with its number of votes, and no valid sample has more.
  pub voted-IsTop :
      ((a : A) → validate (dump a) ≡ some a)
      → (replies : List Reply) (result : StructuredResult A)
      → voted validate dump replies ≡ done result
      → IsTop (parsed_samples validate replies) result
  unfolding voted
  voted-IsTop round_trip replies result h =
      consensus-IsTop round_trip (length replies) (cost_of validate replies)
        (parsed_samples validate replies) result h
