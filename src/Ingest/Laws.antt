-- ===== src/Ingest/Laws.antt =====
-- What the import of CVEs keeps.
use fragchain_core.Prelude.{
  ℕ, String, Bool, true, false, not, ◌&&◌, Option, none, some, List, [], ◌∷◌, ◌++◌, str_eq, eq_iff,
  same_some, if◌then◌else◌, ◌≡◌, refl, arith, subst, fstring,
}
use fragchain_core.Gate.{one_of_texts}
use fragchain_core.Ingest.{Cve, StatusChange}
use fragchain_core.Ingest.Stages.{
  processing_stages, Trail, note_of, audit_state_change, moved, is_stage, reason_or_skipped,
  set_processing_stage, set_processing_failed, mark_approved, mark_skipped,
}

-- The statuses that the audit rows lead to from a status, if each begins where the last ended.
unfoldable pub replay : String → List StatusChange → Option String
replay status [] = some status
replay status (row ∷ log) =
    let rest = replay row.after log in if str_eq row.before status then rest else none

replay-append :
    (s t : String) (log : List StatusChange) (row : StatusChange)
    → replay s log ≡ some t
    → row.before ≡ t
    → replay s (log ++ (row ∷ [])) ≡ some row.after
unfolding replay
replay-append s t [] row h e = ground (arith, eq_iff row.before s, eq_iff row.before t)
replay-append s t (x ∷ log) row h e = ground (arith, replay-append x.after t log row)

-- The audit rows lead from a first status to the status of the row.
abbrev pub IsTrail : String → Trail → Type 0
IsTrail first (cve, log) = replay first log ≡ some cve.processing_status

audited :
    (first old new : String) (remark : Option String) (log : List StatusChange)
    → replay first log ≡ some old
    → replay first (audit_state_change old new remark log) ≡ some new
unfolding audit_state_change
audited first old new remark log h =
    replay-append first old log record { before = old; after = new; note = note_of remark } h refl

-- What holds of both arms holds of the answer.
chosen :
    {A : Type 0} (P : A → Type 0) (known same : Bool) {a b after : A}
    → P a
    → P b
    → (if not known then none else if same then some a else some b) ≡ some after
    → P after
chosen P false same p q h = cc
chosen P true true p q h = subst P (same_some h) p
chosen P true false p q h = subst P (same_some h) q

module _ (first : String) (cve : Cve) (log : List StatusChange)
    (trail : IsTrail first (cve, log)) where
  set_processing_stage-IsTrail :
      (new_status : String) (stage remark : Option String) {after : Trail}
      → set_processing_stage new_status stage remark (cve, log) ≡ some after
      → IsTrail first after
  unfolding set_processing_stage moved
  set_processing_stage-IsTrail new_status stage remark h =
      chosen (IsTrail first) (one_of_texts processing_stages new_status)
        (str_eq cve.processing_status new_status && is_stage stage cve) trail
        (audited first cve.processing_status new_status remark log trail) h

  set_processing_failed-IsTrail :
      (stage error shortened : String)
      → IsTrail first (set_processing_failed stage error shortened (cve, log))
  unfolding set_processing_failed
  set_processing_failed-IsTrail stage error shortened =
      audited first cve.processing_status "failed"
        (some (fstring ("stage=" ∷ stage ∷ " error=" ∷ shortened ∷ []))) log trail

-- If the audit rows of a CVE lead from a first status to its status, then they still do after it is
-- marked as failed, and after a change of stage, an approval or a skip that is not refused.
pub transitions-IsTrail :
    (first : String) (cve : Cve) (log : List StatusChange)
    → IsTrail first (cve, log)
    → ((stage error shortened : String)
        → IsTrail first (set_processing_failed stage error shortened (cve, log)))
      × ((new_status : String) (stage remark : Option String) (after : Trail)
          → set_processing_stage new_status stage remark (cve, log) ≡ some after
          → IsTrail first after)
      × ((now : ℕ) (actor : String) (after : Trail)
          → mark_approved now actor (cve, log) ≡ some after
          → IsTrail first after)
      × ((reason : Option String) (after : Trail)
          → mark_skipped reason (cve, log) ≡ some after
          → IsTrail first after)
unfolding mark_approved mark_skipped
transitions-IsTrail first cve log trail = (
  λ stage error shortened. set_processing_failed-IsTrail first cve log trail stage error shortened,
  λ new_status stage remark after h.
      set_processing_stage-IsTrail first cve log trail new_status stage remark h,
  λ now actor after h.
      set_processing_stage-IsTrail first
        record cve { approved_by = some actor; approved_at = some now } log trail "pending" none
        (some "approved") h,
  λ reason after h.
      set_processing_stage-IsTrail first cve log trail "skipped" none
        (some (reason_or_skipped reason)) h,
)
