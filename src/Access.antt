-- ===== src/Access.antt =====
-- security/tlp.py: who may read an entity. The two tables that the predicate consults are lists,
-- the clock is an argument, and a `ValueError` of `TLP.parse` is `none`.
pub mod Policy
use fragchain_core.Prelude.{
  ℕ, String, Bool, true, false, not, ◌&&◌, ◌||◌, Option, none, some, List, [], ◌∷◌, ◌++◌, any, ltb,
  leb, ◌==◌, str_eq, ◌>>=◌, if◌then◌else◌,
}
use fragchain_core.Tlp.{
  Level, clear, green, amber, amber_strict, red, restriction_level, Value, text, parse,
}

-- A row of `tlp_access_grants`; `none` is a permanent grant.
pub record Grant : Type 0 where
  pub granted_to_user_id : ℕ
  pub entity_id : ℕ
  pub expires_at : Option ℕ

-- A row of `embargo_participants`.
pub record Participant : Type 0 where
  pub user_id : ℕ
  pub entity_type : String
  pub entity_id : ℕ

pub record Session : Type 0 where
  pub grants : List Grant
  pub participants : List Participant
  pub now : ℕ

-- class _UserLike, with the username that the middleware adds
pub record User : Type 0 where
  pub id : ℕ
  pub username : String
  pub tier : String
  pub clearance_level : String

unfoldable pub is_anonymous : Option User → Bool
is_anonymous none = true
is_anonymous (some u) = str_eq u.tier "anonymous"

-- expires_at IS NULL OR expires_at > now
abbrev pub unexpired : ℕ → Option ℕ → Bool
unexpired now none = true
unexpired now (some t) = ltb now t

-- the filter on the entity, left out for `None`
abbrev pub entity_matches : Option ℕ → ℕ → Bool
entity_matches none e = true
entity_matches (some wanted) e = e == wanted

unfoldable pub has_explicit_grant : Session → ℕ → Option ℕ → Bool
has_explicit_grant s user_id entity_id =
    any
      (λ g.
        g.granted_to_user_id == user_id
        && entity_matches entity_id g.entity_id
        && unexpired s.now g.expires_at)
      s.grants

unfoldable pub is_embargo_participant : Session → ℕ → ℕ → Bool
is_embargo_participant s user_id entity_id =
    any (λ p. p.user_id == user_id && p.entity_id == entity_id) s.participants

abbrev pub is_clear : Level → Bool
is_clear clear = true
is_clear _ = false

-- what a known user may read: rules 3 to 5
unfoldable pub can_known_user_access : Session → User → Level → Option ℕ → Bool → Option Bool
unfolding has_explicit_grant is_embargo_participant
can_known_user_access s user tlp none true = some false
can_known_user_access s user tlp (some entity) true = some (is_embargo_participant s user.id entity)
can_known_user_access s user tlp entity_id false =
    parse (text user.clearance_level) >>= λ user_clearance. elim tlp [
      | green ↦ some (leb (restriction_level green) (restriction_level user_clearance))
      | clear ↦ some false
      | _ ↦ elim entity_id [
        | none ↦ some false
        | some entity ↦ some (has_explicit_grant s user.id (some entity))
      ]
    ]

unfoldable pub can_user_access : Session → Option User → Value → Option ℕ → Bool → Option Bool
unfolding is_anonymous can_known_user_access
can_user_access s user entity_tlp entity_id embargoed = parse entity_tlp >>= λ tlp.
    if is_clear tlp && not embargoed
    then some true
    else if is_anonymous user
    then some false
    else elim user [
      | none ↦ some false
      | some u ↦ can_known_user_access s u tlp entity_id embargoed
    ]

-- one round of the loop of `filter_tlp_visible`
unfoldable pub tlp_visible : Option User → Value → Option Bool
unfolding is_anonymous
tlp_visible user tlp_value = parse tlp_value >>= λ tlp. elim tlp [
  | clear ↦ some true
  | green ↦ if is_anonymous user then some false else elim user [
    | none ↦ some false
    | some u ↦ parse (text u.clearance_level) >>= λ clearance.
        some (leb (restriction_level green) (restriction_level clearance))
  ]
  | _ ↦ some false
]

unfoldable pub filter_tlp_visible : List (Option ℕ × Value) → Option User → Option (List (Option ℕ))
filter_tlp_visible [] user = some []
filter_tlp_visible ((entity_id, tlp_value) ∷ items) user = do
  seen ← tlp_visible user tlp_value
  visible ← filter_tlp_visible items user
  some (if seen then entity_id ∷ visible else visible)
