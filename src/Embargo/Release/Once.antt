-- ===== src/Embargo/Release/Once.antt =====
-- The early release of one entity by a maintainer.
use fragchain_core.Prelude.{
  ℕ, String, ◌≡◌, refl, inl, inr, Bool, false, Option, List, [], ◌∷◌, arith, any, Bool-cases,
  Option-cases,
}
use text.Mathlib.TextPositions.{eq_refl}
use fragchain_core.Embargo.Release.{
  Registry, registered, Row, Store, one_of, clear_embargo, update_table, is_row, release_one,
}

any-clear :
    (entity_id : ℕ) (rows : List Row)
    → any (is_row entity_id) (clear_embargo (entity_id ∷ []) rows) ≡ false
unfolding clear_embargo one_of
any-clear entity_id [] = refl
any-clear entity_id (r ∷ rows) = ground (arith, any-clear entity_id rows)

module _ (now : ℕ) (registry : Registry) (s : Store) (entity_type : String) (entity_id actor : ℕ)
    (reason : Option String) where
  abbrev outcome : Store × Bool
  outcome = release_one now registry s entity_type entity_id actor reason

  -- A refused release, of an entity that is not registered or not embargoed, changes nothing.
  pub release_one-false : outcome.1 ≡ false → outcome.0 ≡ s
  unfolding release_one
  release_one-false h = ground arith

  -- An early release takes effect once: after it, or after its refusal, the same request is refused.
  release_one-release_one :
      (later : ℕ)
      → (release_one later registry outcome.0 entity_type entity_id actor reason).1 ≡ false
  unfolding release_one update_table
  release_one-release_one later = elim (Option-cases (registered registry entity_type)) [
    | inl e ↦ rw (e, release_one)
    | inr (spec, e) ↦ elim (Bool-cases (any (is_row entity_id) (s.tables spec.table))) [
      | inl p ↦ ground (arith, eq_refl spec.table, any-clear entity_id (s.tables spec.table))
      | inr p ↦ ground arith
    ]
  ]
