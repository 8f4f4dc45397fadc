-- ===== src/TlpFilter.antt =====
-- api/middleware/tlp_filter.py: the filters that every endpoint applies to its rows, and the tier
-- guards. Decoding the bearer token is not modelled: a request has the user that it yields.
pub mod Laws
use fragchain_core.Prelude.{
  ℕ, String, Bool, true, false, not, ◌&&◌, Option, none, some, List, [], ◌∷◌, leb, str_eq, ◌>>=◌,
  select_or_raise, if◌then◌else◌,
}
use fragchain_core.Tlp.{Level, clear, green, red, restriction_level, Value, text, level, parse}
use fragchain_core.Access.{Session, User, is_anonymous, can_user_access, is_clear}
use fragchain_core.Embargo.{Datetime, Timestamp, effective_tlp, is_red}

-- The `id` of an item: missing, a UUID, or something else, which is read as text.
pub data RawId : Type 0 where
  no_id : RawId
  uuid : ℕ → RawId
  other : String → RawId

-- An item with its `tlp` (`absent` if it has none), `embargo_until` and `id`.
pub record Item : Type 0 where
  pub tlp : Value
  pub embargo_until : Timestamp
  pub id : RawId

-- What the filters read of the outside: `datetime.fromisoformat`, `uuid.UUID` and the clock.
pub record Outside : Type 0 where
  pub fromisoformat : String → Option Datetime
  pub uuid_of : String → Option ℕ
  pub session : Session

unfoldable pub read_entity_id : (String → Option ℕ) → RawId → Option ℕ
read_entity_id uuid_of no_id = none
read_entity_id uuid_of (uuid u) = some u
read_entity_id uuid_of (other s) = uuid_of s

unfoldable pub effective_of : Outside → Item → Option Level
unfolding effective_tlp
effective_of o item = parse item.tlp >>= λ declared.
    effective_tlp o.fromisoformat o.session.now (level declared) item.embargo_until

-- one round of the loop of `visible_to_user_sync`
unfoldable pub sync_visible : Outside → Option User → Item → Option Bool
unfolding effective_of is_anonymous
sync_visible o user item = effective_of o item >>= λ effective. elim effective [
  | clear ↦ some true
  | green ↦ if is_anonymous user then some false else elim user [
    | none ↦ some false
    | some u ↦ parse (text u.clearance_level) >>= λ c.
        some (leb (restriction_level green) (restriction_level c))
  ]
  | _ ↦ some false
]

-- the test of one item that `apply_tlp_filter` and `enforce_tlp_access` share
unfoldable pub item_allowed : Outside → Option User → Item → Option Bool
unfolding effective_tlp read_entity_id
item_allowed o user item = parse item.tlp >>= λ declared.
    effective_tlp o.fromisoformat o.session.now (level declared) item.embargo_until >>= λ effective.
    can_user_access o.session user (level effective) (read_entity_id o.uuid_of item.id)
      (is_red effective && not (is_red declared))

unfoldable pub visible_to_user_sync : Outside → List Item → Option User → Option (List Item)
unfolding select_or_raise sync_visible
visible_to_user_sync o items user = select_or_raise (sync_visible o user) items

unfoldable pub apply_tlp_filter : Outside → List Item → Option User → Option (List Item)
unfolding select_or_raise item_allowed
apply_tlp_filter o items user = select_or_raise (item_allowed o user) items

-- What a guard does: it lets the request go on, or ends it with an HTTP status, or a `ValueError`
-- escapes from it.
pub data Guarded (A : Type 0) : Type 0 where
  pass : A → Guarded A
  status : ℕ → Guarded A
  value_error : Guarded A

unfoldable pub enforce_tlp_access : Outside → Item → Option User → Guarded (Unit {0})
unfolding item_allowed
enforce_tlp_access o item user = elim (item_allowed o user item) [
  | none ↦ value_error
  | some true ↦ pass tt
  | some false ↦ status 403
]

unfoldable pub require_authenticated : Option User → Guarded User
require_authenticated none = status 401
require_authenticated (some u) = if str_eq u.tier "anonymous" then status 401 else pass u

unfoldable pub require_maintainer : Option User → Guarded User
unfolding require_authenticated
require_maintainer user = elim (require_authenticated user) [
  | pass u ↦ if str_eq u.tier "maintainer" then pass u else elim (parse (text u.clearance_level)) [
    | none ↦ value_error
    | some c ↦ if is_red c then pass u else if str_eq u.username "admin" then pass u else status 403
  ]
  | status n ↦ status n
  | value_error ↦ value_error
]
