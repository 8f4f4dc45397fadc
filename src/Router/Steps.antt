-- ===== src/Router/Steps.antt =====
-- What each step of the builder does to the two dictionaries.
use fragchain_core.Prelude.{ℕ, String, ◌≡◌, true, not, ◌&&◌, ◌||◌, Option, none, some, arith}
use fragchain_core.Detectability.{ArtifactType, same_type, SkippedArtifact, nonempty, priority_ok}
use fragchain_core.Router.{
  PlannedArtifact, has, PlanBuilder, demote, ensure_recommended, add_prerequisite,
}

pub same_type-eq : (a b : ArtifactType) → same_type a b ≡ true → a ≡ b
same_type-eq a b h = ground arith

pub same_type_refl : (a : ArtifactType) → same_type a a ≡ true
same_type_refl a = ground arith

module _ (a k : ArtifactType) (b : PlanBuilder) where
  pub has_recommended-demote :
      (reason : String)
      → has (demote a reason b).recommended k ≡ (has b.recommended k && not (same_type a k))
  unfolding demote
  has_recommended-demote reason = ground (arith, same_type-eq a k)

  pub has_skipped-demote :
      (reason : String) → has (demote a reason b).skipped k ≡ (has b.skipped k || same_type a k)
  unfolding demote
  has_skipped-demote reason = ground (arith, same_type-eq a k)

  pub has_recommended-ensure :
      (reason : String) (p : ℕ)
      → has (ensure_recommended a reason p b).recommended k
        ≡ (has b.recommended k || (same_type a k && not (has b.skipped k)))
  unfolding ensure_recommended
  has_recommended-ensure reason p = ground (arith, same_type-eq a k)

  pub skipped-ensure :
      (reason : String) (p : ℕ) → (ensure_recommended a reason p b).skipped ≡ b.skipped
  unfolding ensure_recommended
  skipped-ensure reason p = ground arith

  pub has_recommended-add_prerequisite :
      (text : String) → has (add_prerequisite a text b).recommended k ≡ has b.recommended k
  unfolding add_prerequisite
  has_recommended-add_prerequisite text = ground (arith, same_type-eq a k)

  pub skipped-add_prerequisite : (text : String) → (add_prerequisite a text b).skipped ≡ b.skipped
  unfolding add_prerequisite
  skipped-add_prerequisite text = ground arith

-- An entry has the type that it is filed under, fits the fields' constraints, and no type is in both.
abbrev pub Good : ArtifactType → Option PlannedArtifact → Option SkippedArtifact → Type 0
Good k none none = Unit
Good k (some a) none = (a.type ≡ k) × ((nonempty a.reason && priority_ok a.priority) ≡ true)
Good k none (some x) = (x.type ≡ k) × (nonempty x.reason ≡ true)
Good k (some a) (some x) = ⊥

abbrev pub IsGood : PlanBuilder → Type 0
IsGood b = (k : ArtifactType) → Good k (b.recommended k) (b.skipped k)

module _ (a : ArtifactType) (b : PlanBuilder) (g : IsGood b) where
  pub demote-IsGood : (reason : String) → nonempty reason ≡ true → IsGood (demote a reason b)
  unfolding demote
  demote-IsGood reason h k = ground (arith, same_type-eq a k, g k, g a)

  pub ensure-IsGood :
      (reason : String) (p : ℕ)
      → (nonempty reason && priority_ok p) ≡ true
      → IsGood (ensure_recommended a reason p b)
  unfolding ensure_recommended
  ensure-IsGood reason p h k = ground (arith, same_type-eq a k, g k, g a)

  pub add_prerequisite-IsGood : (text : String) → IsGood (add_prerequisite a text b)
  unfolding add_prerequisite
  add_prerequisite-IsGood text k = ground (arith, same_type-eq a k, g k, g a)
