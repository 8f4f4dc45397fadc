-- ===== src/Examples/Disclosure.antt =====
-- security/tlp.py, api/middleware/tlp_filter.py and assessments/access.py: a green entity, an
-- embargoed one and an assessment of somebody else.
use fragchain_core.Prelude.{
  ℕ, String, true, false, not, Option, none, some, List, [], ◌∷◌, ◌≡◌, refl, arith, ◌≤◌, All,
  select, ◌==◌, ◌⊎◌, ◌↔◌,
}
use mathlib.Core.List.{Memᴰ}
use fragchain_core.Tlp.{
  Level, green, amber, red, restriction_level, Value, absent, level, parse, max_tlp,
}
use fragchain_core.Tlp.Order.{max_tlp-lub, IsBelow}
use fragchain_core.Access.{Session, User, Participant, can_user_access, has_explicit_grant}
use fragchain_core.Access.Policy.{CanRead, IsGranted, can_user_access-CanRead}
use fragchain_core.Embargo.{Datetime, never, at, effective_tlp, coerce_dt}
use fragchain_core.TlpFilter.{
  uuid, Item, Outside, read_entity_id, item_allowed, visible_to_user_sync, apply_tlp_filter,
}
use fragchain_core.TlpFilter.Laws.{IsInvited, IsGrantee, embargo-IsInvited, red_embargo_by_grant}
use fragchain_core.AssessmentAccess.{
  Assessment, is_elevated, check_access, found, load_row, load_assessment_for_read,
  filter_assessments_for_user,
}
use fragchain_core.AssessmentAccess.Laws.{denied-eq-missing, listed-eq-read, check_access-eq-true}

abbrev member : User
member = record { id = 7; username = "ann"; tier = "member"; clearance_level = "tlp:green" }

abbrev no_dates : String → Option Datetime
no_dates s = none

abbrev no_uuids : String → Option ℕ
no_uuids s = none

abbrev session : Session
session = record {
  grants = record { granted_to_user_id = 7; entity_id = 3; expires_at = none } ∷ [];
  participants = record { user_id = 7; entity_type = "cve"; entity_id = 5 } ∷ [];
  now = 100;
}

abbrev outside : Outside
outside = record { fromisoformat = no_dates; uuid_of = no_uuids; session = session }

abbrev amber_values : List Value
amber_values = level amber ∷ absent ∷ []

max_amber : max_tlp amber_values ≡ some amber
unfolding max_tlp parse
max_amber = refl

max_tlp-lub_example :
    (restriction_level amber ≤ restriction_level red) ↔ All (IsBelow red) amber_values
max_tlp-lub_example = max_tlp-lub amber_values amber red max_amber

can_user_access-CanRead_example :
    (can_user_access session (some member) (level amber) (some 3) false ≡ some true)
    ↔ CanRead session (some member) amber (some 3) false
can_user_access-CanRead_example =
    can_user_access-CanRead session (some member) (level amber) amber (some 3) false
      (unfold parse in refl)

abbrev tomorrow : Datetime
tomorrow = record { instant = 200; aware = true }

abbrev embargoed_item : Level → Item
embargoed_item l = record { tlp = level l; embargo_until = at tomorrow; id = uuid 5 }

dated : coerce_dt no_dates (at tomorrow) ≡ some tomorrow
unfolding coerce_dt
dated = refl

red_level : parse (level red) ≡ some red
unfolding parse
red_level = refl

green_level : parse (level green) ≡ some green
unfolding parse
green_level = refl

embargo-IsInvited_example :
    (item_allowed outside (some member) (embargoed_item green) ≡ some true)
    ↔ IsInvited session (some member) (read_entity_id no_uuids (uuid 5))
embargo-IsInvited_example =
    embargo-IsInvited outside (some member) (embargoed_item green) dated (ground arith) green
      green_level (λ p. cc)

red_embargo_by_grant_example :
    ((item_allowed outside (some member) (embargoed_item red) ≡ some true)
      ↔ IsGrantee session (some member) (read_entity_id no_uuids (uuid 5)))
    × ((ps : List Participant)
        → item_allowed
            (record outside { session = record session { participants = ps } })
            (some member)
            (embargoed_item red)
          ≡ item_allowed outside (some member) (embargoed_item red))
red_embargo_by_grant_example =
    red_embargo_by_grant outside (some member) (embargoed_item red) dated (ground arith) red_level

abbrev green_item : Item
green_item = record { tlp = level green; embargo_until = never; id = uuid 4 }

sync_green : visible_to_user_sync outside (green_item ∷ []) (some member) ≡ some (green_item ∷ [])
unfolding visible_to_user_sync parse
sync_green = refl

apply_green : apply_tlp_filter outside (green_item ∷ []) (some member) ≡ some (green_item ∷ [])
unfolding apply_tlp_filter can_user_access parse
apply_green = refl

abbrev theirs : Assessment
theirs = record { id = 9; creator_id = 8; tlp = level green; embargo_until = never }

abbrev mine : Assessment
mine = record { id = 4; creator_id = 7; tlp = level green; embargo_until = never }

load_theirs : load_row (theirs ∷ []) 9 ≡ some theirs
unfolding load_row
load_theirs = refl

denied_theirs : check_access no_dates session theirs (some member) ≡ some false
unfolding check_access parse has_explicit_grant
denied_theirs = refl

denied-eq-missing_example :
    load_assessment_for_read no_dates session (theirs ∷ []) 9 (some member)
    ≡ load_assessment_for_read no_dates session
        (select (λ r. not (r.id == 9)) (theirs ∷ []))
        9
        (some member)
denied-eq-missing_example =
    denied-eq-missing no_dates session (theirs ∷ []) 9 (some member) theirs load_theirs
      denied_theirs

list_mine :
    filter_assessments_for_user no_dates session (mine ∷ []) (some member) ≡ some (mine ∷ [])
unfolding filter_assessments_for_user
list_mine = refl

load_mine : load_row (mine ∷ []) 4 ≡ some mine
unfolding load_row
load_mine = refl

listed-eq-read_example :
    Memᴰ mine (mine ∷ [])
    ↔ (load_assessment_for_read no_dates session (mine ∷ []) 4 (some member) ≡ found mine)
listed-eq-read_example =
    listed-eq-read no_dates session (mine ∷ []) (some member) mine list_mine load_mine
      (Memᴰ.head refl)

check_access-eq-true_example :
    (check_access no_dates session theirs (some member) ≡ some true)
    ↔ ((theirs.creator_id ≡ member.id) ⊎ (is_elevated member ≡ true) ⊎ IsGranted session 7 9)
unfolding parse
check_access-eq-true_example =
    check_access-eq-true no_dates session theirs member green (unfold parse in refl)
      (unfold effective_tlp in refl)
