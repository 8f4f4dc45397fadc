-- ===== src/AssessmentAccess.antt =====
-- assessments/access.py: who may read or write an assessment. The user of a request is known by
-- the time that this module is asked, or has no id.
pub mod Laws
use fragchain_core.Prelude.{
  ℕ, String, Bool, true, false, not, ◌&&◌, ◌||◌, Option, none, some, List, [], ◌∷◌, ◌==◌, codes,
  strip, lower, map, same_codes, ◌>>=◌, select_or_raise, if◌then◌else◌,
}
use fragchain_core.Tlp.{Level, Value, level, parse}
use fragchain_core.Access.{Session, User, can_user_access, has_explicit_grant}
use fragchain_core.Embargo.{Datetime, Timestamp, effective_tlp, is_red}

-- The columns of `coverage_assessment` that access control reads.
pub record Assessment : Type 0 where
  pub id : ℕ
  pub creator_id : ℕ
  pub tlp : Value
  pub embargo_until : Timestamp

unfoldable pub is_elevated : User → Bool
unfolding strip lower
is_elevated user =
    let tier = map lower (strip (codes user.tier)) in
    same_codes tier (codes "maintainer") || same_codes tier (codes "admin")

-- `AssessmentNotFoundError`, with the id that was asked for, or a `ValueError` of `TLP.parse`.
pub data Loaded : Type 0 where
  found : Assessment → Loaded
  not_found : ℕ → Loaded
  value_error : Loaded

unfoldable pub load_row : List Assessment → ℕ → Option Assessment
load_row [] assessment_id = none
load_row (a ∷ rows) assessment_id =
    if a.id == assessment_id then some a else load_row rows assessment_id

module _ (fromisoformat : String → Option Datetime) (s : Session) where
  -- the paths 3 and 4, for a user who is neither the creator nor elevated
  unfoldable pub check_shared : Assessment → User → Option Bool
  unfolding effective_tlp
  check_shared asmt user = parse asmt.tlp >>= λ declared.
      effective_tlp fromisoformat s.now (level declared) asmt.embargo_until >>= λ effective.
      if is_red effective && not (is_red declared)
      then can_user_access s (some user) (level effective) (some asmt.id) true
      else some (has_explicit_grant s user.id (some asmt.id))

  unfoldable pub check_access : Assessment → Option User → Option Bool
  unfolding is_elevated check_shared
  check_access asmt none = some false
  check_access asmt (some user) =
      if asmt.creator_id == user.id
      then some true
      else if is_elevated user
      then some true
      else check_shared asmt user

  unfoldable pub load_assessment_for_read : List Assessment → ℕ → Option User → Loaded
  unfolding load_row check_access
  load_assessment_for_read rows assessment_id user = elim (load_row rows assessment_id) [
    | none ↦ not_found assessment_id
    | some asmt ↦ elim (check_access asmt user) [
      | none ↦ value_error
      | some true ↦ found asmt
      | some false ↦ not_found assessment_id
    ]
  ]

  unfoldable pub load_assessment_for_write : List Assessment → ℕ → Option User → Loaded
  unfolding load_row check_access
  load_assessment_for_write rows assessment_id user = elim (load_row rows assessment_id) [
    | none ↦ not_found assessment_id
    | some asmt ↦ elim (check_access asmt user) [
      | none ↦ value_error
      | some true ↦ found asmt
      | some false ↦ not_found assessment_id
    ]
  ]

  unfoldable pub filter_assessments_for_user :
      List Assessment → Option User → Option (List Assessment)
  unfolding select_or_raise check_access
  filter_assessments_for_user rows user = select_or_raise (λ a. check_access a user) rows
