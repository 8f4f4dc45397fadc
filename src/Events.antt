-- ===== src/Events.antt =====
-- notifications/events.py, notifications/bridge.py, api/routers/websocket.py: the bus of events, who
-- may hear one, and the pump that sends a subscriber's queue. A payload is the number of its content.
pub mod Bus
pub mod Laws
use fragchain_core.Prelude.{
  ℕ, String, Bool, true, false, not, ◌&&◌, ◌||◌, Option, none, some, is_some, List, [], ◌∷◌, ◌>>=◌,
  map, codes, strip, lower, same_codes, str_eq, if◌then◌else◌,
}
use fragchain_core.Tlp.{Value, text}
use fragchain_core.Access.{Session, User, can_user_access}

pub record Event : Type 0 where
  pub type : String
  pub payload : ℕ
  pub emitted_at : ℕ
  pub tlp : Option String
  pub entity_id : Option ℕ
  pub embargoed : Bool

-- tier.strip().lower() in _ELEVATED_TIERS
unfoldable pub is_elevated_tier : String → Bool
unfolding strip lower
is_elevated_tier tier =
    let t = map lower (strip (codes tier)) in
    same_codes t (codes "maintainer") || same_codes t (codes "admin")

abbrev pub is_elevated_user : Option User → Bool
is_elevated_user none = false
is_elevated_user (some u) = is_elevated_tier u.tier

-- `Event.visible_to`; `none` is an exception of the predicate.
unfoldable pub visible_to : Session → Option User → Event → Option Bool
unfolding is_elevated_tier can_user_access
visible_to s user e = elim e.tlp [
  | none ↦ some true
  | some tlp ↦
      if is_elevated_user user
      then some true
      else if not (is_some user)
      then some false
      else can_user_access s user (text tlp) e.entity_id e.embargoed
]

abbrev pub is_true : Option Bool → Bool
is_true none = false
is_true (some b) = b

-- Whether the pump sends an event: what raises is dropped.
unfoldable pub is_sent : Session → User → Event → Bool
unfolding visible_to
is_sent s u e = is_true (visible_to s (some u) e)

-- `_pump` over the events that a queue hands out, each with what the database holds at that moment:
-- the events that are sent.
unfoldable pub pump : User → List (Session × Event) → List Event
unfolding is_sent
pump u [] = []
pump u ((s, e) ∷ rest) = let later = pump u rest in if is_sent s u e then e ∷ later else later

-- A message of the wire, after the JSON is read: `entity_id` is the text and `uuid` reads it.
pub record Message : Type 0 where
  pub origin : Option String
  pub type : Option String
  pub payload : ℕ
  pub emitted_at : String
  pub tlp : Option String
  pub entity_id : String
  pub embargoed : Bool

-- `Event(…)` of a message that is foreign; `none` if it is malformed.
unfoldable pub foreign_event :
    (String → Option ℕ) → (String → Option ℕ) → ℕ → Message → Option Event
foreign_event uuid fromisoformat now m = m.type >>= λ type.
    (if str_eq m.emitted_at "" then some now else fromisoformat m.emitted_at) >>= λ emitted_at.
    (if str_eq m.entity_id "" then some none else uuid m.entity_id >>= λ i. some (some i))
    >>= λ entity_id. some record {
      type = type;
      payload = m.payload;
      emitted_at = emitted_at;
      tlp = m.tlp;
      entity_id = entity_id;
      embargoed = m.embargoed;
    }

abbrev pub is_own : String → Option String → Bool
is_own origin none = false
is_own origin (some o) = str_eq o origin

-- `handle_raw`, of a message that is an object: the event that is emitted to the local bus.
unfoldable pub handle_raw :
    (String → Option ℕ) → (String → Option ℕ) → ℕ → String → Message → Option Event
unfolding foreign_event
handle_raw uuid fromisoformat now own_origin m =
    if is_own own_origin m.origin then none else foreign_event uuid fromisoformat now m
