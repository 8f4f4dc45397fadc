-- ===== src/Ingest/Stages.antt =====
-- ingest/state.py: the transitions of a CVE. `none` is the `ValueError` of an unknown status; the
-- audit rows are in the order in which they are written.
use fragchain_core.Prelude.{
  ℕ, String, Bool, true, false, not, ◌&&◌, Option, none, some, List, [], ◌∷◌, ◌++◌, str_eq,
  if◌then◌else◌, fstring,
}
use fragchain_core.Gate.{one_of_texts}
use fragchain_core.Ingest.{Cve, StatusChange}

abbrev pub processing_stages : List String
processing_stages =
    "pending" ∷ "enriching" ∷ "synthesizing" ∷ "mapping" ∷ "generating" ∷ "complete" ∷ "staged"
    ∷ "skipped" ∷ "failed" ∷ []

abbrev pub Trail : Type 0
Trail = Cve × List StatusChange

-- after["note"] = note, if the note is not empty
abbrev pub note_of : Option String → Option String
note_of none = none
note_of (some text) = if str_eq text "" then none else some text

unfoldable pub audit_state_change :
    String → String → Option String → List StatusChange → List StatusChange
audit_state_change old_status new_status remark log =
    log ++ (record { before = old_status; after = new_status; note = note_of remark } ∷ [])

abbrev pub same_stage : Option String → Option String → Bool
same_stage none stage = true
same_stage (some s) none = false
same_stage (some s) (some t) = str_eq s t

-- stage is None or stage == cve.processing_stage
abbrev pub is_stage : Option String → Cve → Bool
is_stage stage cve = same_stage stage cve.processing_stage

unfoldable pub moved : String → Option String → Cve → Cve
moved new_status stage cve = record cve {
  processing_status = new_status;
  processing_stage = stage;
  processing_error =
      if str_eq cve.processing_status "failed" && not (str_eq new_status "failed")
      then none
      else cve.processing_error;
}

unfoldable pub set_processing_stage : String → Option String → Option String → Trail → Option Trail
unfolding audit_state_change moved
set_processing_stage new_status stage remark (cve, log) =
    if not (one_of_texts processing_stages new_status)
    then none
    else if str_eq cve.processing_status new_status && is_stage stage cve
    then some (cve, log)
    else some
        (moved new_status stage cve, audit_state_change cve.processing_status new_status remark log)

-- `error` is what the note has of it, `error[:200]`, with the whole text beside it
unfoldable pub set_processing_failed : String → String → String → Trail → Trail
unfolding audit_state_change
set_processing_failed stage error shortened (cve, log) = (
  record cve {
    processing_status = "failed";
    processing_stage = some stage;
    processing_error = some error;
  },
  audit_state_change cve.processing_status "failed"
      (some (fstring ("stage=" ∷ stage ∷ " error=" ∷ shortened ∷ []))) log,
)

unfoldable pub mark_approved : ℕ → String → Trail → Option Trail
unfolding set_processing_stage
mark_approved now actor_username (cve, log) =
    set_processing_stage "pending" none (some "approved")
      (record cve { approved_by = some actor_username; approved_at = some now }, log)

-- reason or "skipped"
abbrev pub reason_or_skipped : Option String → String
reason_or_skipped none = "skipped"
reason_or_skipped (some reason) = if str_eq reason "" then "skipped" else reason

unfoldable pub mark_skipped : Option String → Trail → Option Trail
unfolding set_processing_stage
mark_skipped reason trail =
    set_processing_stage "skipped" none (some (reason_or_skipped reason)) trail
