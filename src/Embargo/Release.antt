-- ===== src/Embargo/Release.antt =====
-- security/embargo.py: the registry of tables and the release of embargoes. A table is the list of
-- its rows, of which the code reads the key and the embargo; which columns hold these is not
-- modelled. One transaction is one call.
pub mod Laws
pub mod Once
use fragchain_core.Prelude.{
  ℕ, String, Bool, true, false, not, ◌&&◌, Option, none, some, List, [], ◌∷◌, ◌++◌, map, any,
  select, length, is_some, ltb, leb, ◌==◌, str_eq, if◌then◌else◌,
}
use fragchain_core.Access.{Participant}

pub record EmbargoedTable : Type 0 where
  pub table : String
  pub entity_type : String

-- `_REGISTRY`, a dictionary by entity type in insertion order.
abbrev pub Registry : Type 0
Registry = List EmbargoedTable

unfoldable pub register_embargoed_table : Registry → EmbargoedTable → Registry
register_embargoed_table [] spec = spec ∷ []
register_embargoed_table (old ∷ registry) spec =
    if str_eq old.entity_type spec.entity_type
    then spec ∷ registry
    else old ∷ register_embargoed_table registry spec

unfoldable pub registered : Registry → String → Option EmbargoedTable
registered [] entity_type = none
registered (spec ∷ registry) entity_type =
    if str_eq spec.entity_type entity_type then some spec else registered registry entity_type

pub record Row : Type 0 where
  pub id : ℕ
  pub embargo_until : Option ℕ

pub record AuditLog : Type 0 where
  pub entity_type : String
  pub entity_id : ℕ
  pub actor : Option ℕ
  pub released_at : ℕ
  pub auto : Bool
  pub reason : Option String

pub record Store : Type 0 where
  pub tables : String → List Row
  pub participants : List Participant
  pub audit_log : List AuditLog

-- embargo_until IS NOT NULL AND embargo_until <= now
unfoldable pub is_expired : ℕ → Row → Bool
is_expired now r = elim r.embargo_until [ none ↦ false | some t ↦ leb t now ]

-- id = ANY(ids)
unfoldable pub one_of : List ℕ → ℕ → Bool
one_of ids i = any (λ j. i == j) ids

-- UPDATE … SET embargo_until = NULL WHERE id = ANY(ids)
unfoldable pub clear_embargo : List ℕ → List Row → List Row
clear_embargo ids rows =
    map (λ r. if one_of ids r.id then record r { embargo_until = none } else r) rows

unfoldable pub update_table : (String → List Row) → String → List Row → String → List Row
update_table tables name rows t = if str_eq name t then rows else tables t

-- DELETE FROM embargo_participants WHERE entity_type = … AND entity_id IN (ids)
unfoldable pub drop_participants : String → List ℕ → List Participant → List Participant
drop_participants entity_type ids =
    select (λ p. not (str_eq p.entity_type entity_type && one_of ids p.entity_id))

pub record Released : Type 0 where
  pub entity_type : String
  pub entity_id : ℕ
  pub released_at : ℕ

unfoldable pub audit_release : ℕ → Option ℕ → Released → AuditLog
audit_release now actor r = record {
  entity_type = r.entity_type;
  entity_id = r.entity_id;
  actor = actor;
  released_at = now;
  auto = not (is_some actor);
  reason = none;
}

abbrev pub expired_ids : ℕ → List Row → List ℕ
expired_ids now rows = map (λ r. r.id) (select (is_expired now) rows)

-- what the loop adds to `result.released` for one table
abbrev pub releases : ℕ → String → List ℕ → List Released
releases now entity_type ids =
    map (λ i. record { entity_type = entity_type; entity_id = i; released_at = now }) ids

-- the three writes for the expired rows of one table; `continue` if there are none
unfoldable pub release_ids :
    ℕ → Option ℕ → EmbargoedTable → List ℕ → Store × List Released → Store × List Released
unfolding one_of clear_embargo update_table drop_participants audit_release
release_ids now actor spec [] acc = acc
release_ids now actor spec (i ∷ ids) (s, released) =
    let new = releases now spec.entity_type (i ∷ ids) in
    (
      record {
        tables = update_table s.tables spec.table (clear_embargo (i ∷ ids) (s.tables spec.table));
        participants = drop_participants spec.entity_type (i ∷ ids) s.participants;
        audit_log = s.audit_log ++ map (audit_release now actor) new;
      },
      released ++ new,
    )

-- the body of the loop of `release_expired`
unfoldable pub release_table :
    ℕ → Option ℕ → EmbargoedTable → Store × List Released → Store × List Released
unfolding is_expired release_ids
release_table now actor spec (s, released) =
    release_ids now actor spec (expired_ids now (s.tables spec.table)) (s, released)

unfoldable pub release_from :
    ℕ → Option ℕ → Registry → Store × List Released → Store × List Released
unfolding release_table
release_from now actor [] acc = acc
release_from now actor (spec ∷ registry) acc =
    release_from now actor registry (release_table now actor spec acc)

-- The store, the list of released entities, and whether the session was committed.
unfoldable pub release_expired : ℕ → Option ℕ → Registry → Store → Store × List Released × Bool
unfolding release_from
release_expired now actor registry s =
    let (s', released) = release_from now actor registry (s, []) in
    (s', released, ltb 0 (length released))

abbrev pub is_row : ℕ → Row → Bool
is_row entity_id r = r.id == entity_id && is_some r.embargo_until

unfoldable pub release_one : ℕ → Registry → Store → String → ℕ → ℕ → Option String → Store × Bool
unfolding registered clear_embargo one_of update_table drop_participants
release_one now registry s entity_type entity_id actor reason =
    elim (registered registry entity_type) [
      | none ↦ (s, false)
      | some spec ↦
          if any (is_row entity_id) (s.tables spec.table)
          then (
            record {
              tables =
                  update_table s.tables spec.table
                    (clear_embargo (entity_id ∷ []) (s.tables spec.table));
              participants = drop_participants entity_type (entity_id ∷ []) s.participants;
              audit_log =
                  s.audit_log
                  ++ record {
                    entity_type = entity_type;
                    entity_id = entity_id;
                    actor = some actor;
                    released_at = now;
                    auto = false;
                    reason = reason;
                  }
                    ∷ [];
            },
            true,
          )
          else (s, false)
    ]

pub record Active : Type 0 where
  pub entity_type : String
  pub entity_id : ℕ
  pub embargo_until : ℕ
  pub participants : ℕ

abbrev pub active_row : Store → ℕ → String → Row → List Active → List Active
active_row s now entity_type r rest = elim r.embargo_until [
  | none ↦ rest
  | some t ↦
      if ltb now t
      then record {
        entity_type = entity_type;
        entity_id = r.id;
        embargo_until = t;
        participants =
            length (
              select (λ p. str_eq p.entity_type entity_type && p.entity_id == r.id) s.participants);
      }
        ∷ rest
      else rest
]

unfoldable pub active_rows : Store → ℕ → String → List Row → List Active
active_rows s now entity_type [] = []
active_rows s now entity_type (r ∷ rows) =
    active_row s now entity_type r (active_rows s now entity_type rows)

unfoldable pub list_active : ℕ → Registry → Store → List Active
unfolding active_rows
list_active now [] s = []
list_active now (spec ∷ registry) s =
    active_rows s now spec.entity_type (s.tables spec.table) ++ list_active now registry s
