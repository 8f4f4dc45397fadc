-- ===== src/Examples/Sharing.antt =====
-- security/git_url.py, ingest/service.py, notifications/, commons/ and evaluations/: a path filter, an
-- enrichment, an event, a contribution and an evaluation.
use mathlib.Core.List.{Memᴰ}
use fragchain_core.Prelude.{
  ℕ, true, false, Option, none, some, List, [], ◌∷◌, ◌≡◌, refl, codes, All,
}
use fragchain_core.Tlp.{parse, Level, amber, absent, level}
use fragchain_core.Tlp.Order.{IsBelow}
use fragchain_core.Access.{Session, User}
use fragchain_core.GitUrl.{validate_git_path_filter, split_at}
use fragchain_core.GitUrl.Laws.{
  begins_alnum, resolve, IsBelow as IsInside, validate_git_path_filter-IsBelow,
}
use fragchain_core.Ingest.Merge.{
  null, EnrichmentResult, SourceRecord, EnrichedCve, enrich, enrich_if_any,
}
use fragchain_core.Ingest.Classified.{Outlasts, Respects, enrich-never_lower}
use fragchain_core.Events.{Event, pump}
use fragchain_core.Events.Bus.{
  EventBus, empty_bus, subscribe, emit, Reach, here, next, subscribes, emits, IsBounded,
  Reach-IsBounded,
}
use fragchain_core.Events.Laws.{MayHear, pump-MayHear}

directory_path : validate_git_path_filter (codes "rules/windows") ≡ some (codes "rules/windows")
unfolding validate_git_path_filter
directory_path = refl

dotted_path : validate_git_path_filter (codes "rules/../etc") ≡ none
unfolding validate_git_path_filter
dotted_path = refl

validate_git_path_filter-IsBelow_example :
    (codes "rules/windows" ≡ codes "rules/windows")
    × (begins_alnum (codes "rules/windows") ≡ true)
    × ((dir : List (List ℕ)) → IsInside dir (resolve dir (split_at b'/' (codes "rules/windows"))))
validate_git_path_filter-IsBelow_example =
    validate_git_path_filter-IsBelow (codes "rules/windows") (codes "rules/windows") directory_path

abbrev no_date : List ℕ → Option ℕ
no_date t = none

abbrev local_record : SourceRecord
local_record = record { cisa_kev = false; tlp = absent; embargo_until = none }

abbrev advisory : EnrichmentResult
advisory = record {
  structured = [];
  documents = [];
  attack_patterns = [];
  tlp = level amber;
  embargo_until = some 500;
}

abbrev stored_cve : EnrichedCve
stored_cve = record {
  epss_score = null;
  epss_fetched_at = none;
  epss_percentile = null;
  attackerkb_score = null;
  attackerkb_data = none;
  ctid_techniques = [];
  cisa_kev = false;
  cisa_kev_date = none;
  tlp = absent;
  embargo_until = some 900;
  enrichment_sources = λ name. none;
}

abbrev enriched : Option EnrichedCve
enriched = enrich no_date no_date 100 local_record (("cisa_kev", some advisory) ∷ []) stored_cve

abbrev after_cve : EnrichedCve
after_cve = elim enriched [ none ↦ stored_cve | some cve ↦ cve ]

enriched_cve : enriched ≡ some after_cve
unfolding enrich
enriched_cve = refl

nothing_to_merge : enrich_if_any no_date no_date 100 local_record [] stored_cve ≡ some stored_cve
unfolding enrich_if_any
nothing_to_merge = refl

-- The embargo of the CVE has become shorter.
shortened : after_cve.embargo_until ≡ some 500
unfolding enrich
shortened = refl

enrich-never_lower_example :
    (b : Level) × (after_cve.tlp ≡ level b)
    × IsBelow b stored_cve.tlp
    × IsBelow b local_record.tlp
    × Outlasts after_cve.embargo_until local_record.embargo_until
    × All (Respects b after_cve.embargo_until) (("cisa_kev", some advisory) ∷ [])
enrich-never_lower_example =
    enrich-never_lower no_date no_date 100 local_record (("cisa_kev", some advisory) ∷ [])
      stored_cve after_cve enriched_cve

abbrev hidden : Event
hidden = record {
  type = "cve.updated";
  payload = 1;
  emitted_at = 5;
  tlp = some "tlp:amber";
  entity_id = some 3;
  embargoed = false;
}

abbrev one_subscriber : EventBus
one_subscriber = subscribe 1 empty_bus

one_event : Reach (emit hidden one_subscriber)
one_event = next (next here (subscribes 1 empty_bus)) (emits hidden one_subscriber)

Reach-IsBounded_example : IsBounded (emit hidden one_subscriber)
Reach-IsBounded_example = Reach-IsBounded one_event

abbrev guest : User
guest = record { id = 7; username = "ann"; tier = "member"; clearance_level = "tlp:green" }

abbrev granted : Session
granted = record {
  grants = record { granted_to_user_id = 7; entity_id = 3; expires_at = none } ∷ [];
  participants = [];
  now = 100;
}

abbrev revoked : Session
revoked = record { grants = []; participants = []; now = 100 }

abbrev handed_out : List (Session × Event)
handed_out = (granted, hidden) ∷ (revoked, hidden) ∷ []

heard_once : pump guest handed_out ≡ hidden ∷ []
unfolding pump parse
heard_once = refl

pump-MayHear_example :
    (Memᴰ hidden (pump guest handed_out)
      → (s : Session) × Memᴰ (s, hidden) handed_out × MayHear s guest hidden)
    × ((s : Session)
        → Memᴰ (s, hidden) handed_out
        → MayHear s guest hidden
        → Memᴰ hidden (pump guest handed_out))
pump-MayHear_example = pump-MayHear guest handed_out hidden
