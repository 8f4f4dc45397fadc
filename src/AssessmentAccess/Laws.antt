-- ===== src/AssessmentAccess/Laws.antt =====
-- Who opens an assessment, and what the others can tell.
use mathlib.Core.List.{Memᴰ}
use fragchain_core.Prelude.{
  ℕ, String, ◌≡◌, refl, ◌↔◌, ◌⊎◌, true, false, not, ◌&&◌, Option, none, some, List, [], ◌∷◌, arith,
  select, mem-select_or_raise, ◌==◌,
}
use fragchain_core.Tlp.{Level, level, parse}
use fragchain_core.Access.{Session, User, has_explicit_grant}
use fragchain_core.Access.Policy.{IsGranted, has_explicit_grant-eq-true}
use fragchain_core.Embargo.{Datetime, effective_tlp, is_red}
use fragchain_core.AssessmentAccess.{
  Assessment, is_elevated, check_shared, check_access, Loaded, found, load_row,
  load_assessment_for_read, filter_assessments_for_user,
}

module _ (fromisoformat : String → Option Datetime) (s : Session) where
  abbrev read : List Assessment → ℕ → Option User → Loaded
  read = load_assessment_for_read fromisoformat s

  load_row_gone :
      (rows : List Assessment) (i : ℕ) → load_row (select (λ a. not (a.id == i)) rows) i ≡ none
  unfolding load_row
  load_row_gone [] i = refl
  load_row_gone (a ∷ rows) i = ground (arith, load_row_gone rows i)

  -- A denied read is the same answer as a read of an assessment that is not there: the caller
  -- cannot tell that the id exists.
  pub denied-eq-missing :
      (rows : List Assessment) (i : ℕ) (user : Option User) (a : Assessment)
      → load_row rows i ≡ some a
      → check_access fromisoformat s a user ≡ some false
      → read rows i user ≡ read (select (λ r. not (r.id == i)) rows) i user
  unfolding load_assessment_for_read
  denied-eq-missing rows i user a there denied = ground (arith, load_row_gone rows i)

  -- The list endpoint and the single read agree: a stored assessment is listed for a user exactly
  -- when reading it by its id returns it.
  pub listed-eq-read :
      (rows : List Assessment) (user : Option User) {visible : List Assessment} (a : Assessment)
      → filter_assessments_for_user fromisoformat s rows user ≡ some visible
      → load_row rows a.id ≡ some a
      → Memᴰ a rows
      → Memᴰ a visible ↔ (read rows a.id user ≡ found a)
  unfolding filter_assessments_for_user load_assessment_for_read
  listed-eq-read rows user a h there stored =
      let both = mem-select_or_raise (λ r. check_access fromisoformat s r user) a rows h in
      (λ m. ground (arith, (both.0 m).1), λ r. both.1 (stored, ground arith))

  both_red : (t : Level) → (is_red t && not (is_red t)) ≡ false
  both_red t = ground arith

  check_shared-quiet :
      (a : Assessment) (user : User) {declared : Level}
      → parse a.tlp ≡ some declared
      → effective_tlp fromisoformat s.now (level declared) a.embargo_until ≡ some declared
      → check_shared fromisoformat s a user ≡ some (has_explicit_grant s user.id (some a.id))
  unfolding check_shared
  check_shared-quiet a user {declared} named quiet = rw (named, quiet, both_red declared)

  -- Without an embargo that has yet to pass, an assessment opens to its creator, to an elevated
  -- tier and to the holder of a live grant, and to nobody else, whatever its level.
  pub check_access-eq-true :
      (a : Assessment) (user : User) (declared : Level)
      → parse a.tlp ≡ some declared
      → effective_tlp fromisoformat s.now (level declared) a.embargo_until ≡ some declared
      → (check_access fromisoformat s a (some user) ≡ some true)
        ↔ ((a.creator_id ≡ user.id) ⊎ (is_elevated user ≡ true) ⊎ IsGranted s user.id a.id)
  unfolding check_access
  check_access-eq-true a user declared named quiet =
      let grant = has_explicit_grant-eq-true s user.id a.id in
      let shared = check_shared-quiet a user named quiet in ground (arith, shared, grant)
