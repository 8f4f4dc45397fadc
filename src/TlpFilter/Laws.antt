-- ===== src/TlpFilter/Laws.antt =====
-- What the two filters let through.
use mathlib.Core.List.{Memᴰ}
use fragchain_core.Prelude.{
  ℕ, ◌<◌, ◌≡◌, ◌≢◌, refl, sym, ◌∙◌, ◌↔◌, true, false, Option, none, some, List, arith,
  mem-select_or_raise, ltb,
}
use fragchain_core.Tlp.{Level, red, text, level, parse}
use fragchain_core.Access.{
  Session, User, Participant, can_user_access, can_known_user_access, has_explicit_grant,
}
use fragchain_core.Access.Policy.{
  CanRead, public, participant, cleared, granted, can_user_access-CanRead, IsParticipant, IsGranted,
}
use fragchain_core.Embargo.{Datetime, coerce_dt, effective_tlp}
use fragchain_core.TlpFilter.{
  Item, Outside, read_entity_id, sync_visible, item_allowed, visible_to_user_sync, apply_tlp_filter,
}

sync_allowed :
    (o : Outside) (user : Option User) (item : Item)
    → sync_visible o user item ≡ some true
    → item_allowed o user item ≡ some true
unfolding sync_visible item_allowed can_user_access parse
sync_allowed o none item h = ground arith
sync_allowed o (some u) item h = ground arith

-- The synchronous filter never shows more than the one that consults the database: what it
-- returns, `apply_tlp_filter` returns too.
sync-subset-apply :
    (o : Outside) (items : List Item) (user : Option User) {fast full : List Item}
    → visible_to_user_sync o items user ≡ some fast
    → apply_tlp_filter o items user ≡ some full
    → {item : Item} → Memᴰ item fast
    → Memᴰ item full
unfolding visible_to_user_sync apply_tlp_filter
sync-subset-apply o items user h k {item} m =
    let (given, passed) = (mem-select_or_raise (sync_visible o user) item items h).0 m in
    (mem-select_or_raise (item_allowed o user) item items k).1
      (given, sync_allowed o user item passed)

-- `apply_tlp_filter` returns exactly the items whose effective level and embargo let the user in.
pub mem-apply_tlp_filter :
    (o : Outside) (items : List Item) (user : Option User) {visible : List Item} (item : Item)
    → apply_tlp_filter o items user ≡ some visible
    → Memᴰ item visible ↔ (Memᴰ item items × (item_allowed o user item ≡ some true))
unfolding apply_tlp_filter
mem-apply_tlp_filter o items user item h = mem-select_or_raise (item_allowed o user) item items h

-- The user is known, and the list of participants names the user and the entity.
pub record IsInvited (s : Session) (user : Option User) (entity : Option ℕ) : Type 0 where
  pub person : User
  pub at_entity : ℕ
  pub is_user : user ≡ some person
  pub known : person.tier ≢ "anonymous"
  pub is_entity : entity ≡ some at_entity
  pub listed : IsParticipant s person.id at_entity

invited :
    {s : Session} {user : Option User} {entity : Option ℕ}
    → CanRead s user red entity true
    → IsInvited s user entity
invited (public p q) = cc
invited (participant u e p k q r row) = record {
  person = u;
  at_entity = e;
  is_user = p;
  known = k;
  is_entity = r;
  listed = row;
}
invited (cleared u c p k q r named high) = cc
invited (granted u e c p k q high r named g) = cc

invitation :
    {s : Session} {user : Option User} {entity : Option ℕ}
    → IsInvited s user entity
    → CanRead s user red entity true
invitation i = participant i.person i.at_entity i.is_user i.known refl i.is_entity i.listed

-- The user is known, with a clearance that is a level, and has a live grant for the entity.
pub record IsGrantee (s : Session) (user : Option User) (entity : Option ℕ) : Type 0 where
  pub person : User
  pub at_entity : ℕ
  pub clearance : Level
  pub is_user : user ≡ some person
  pub known : person.tier ≢ "anonymous"
  pub is_entity : entity ≡ some at_entity
  pub named : parse (text person.clearance_level) ≡ some clearance
  pub grant : IsGranted s person.id at_entity

grantee :
    {s : Session} {user : Option User} {entity : Option ℕ}
    → CanRead s user red entity false
    → IsGrantee s user entity
grantee (public p q) = cc
grantee (participant u e p k q r row) = cc
grantee (cleared u c p k q r named high) = cc
grantee (granted u e c p k q high r named g) = record {
  person = u;
  at_entity = e;
  clearance = c;
  is_user = p;
  known = k;
  is_entity = r;
  named = named;
  grant = g;
}

by_its_grant :
    {s : Session} {user : Option User} {entity : Option ℕ}
    → IsGrantee s user entity
    → CanRead s user red entity false
by_its_grant g =
    granted g.person g.at_entity g.clearance g.is_user g.known refl (omega arith) g.is_entity
      g.named g.grant

-- Without an embargo, the list of participants is not read.
participants_unread :
    (s : Session) (ps : List Participant) (user : Option User) (entity : Option ℕ)
    → can_user_access (record s { participants = ps }) user (level red) entity false
      ≡ can_user_access s user (level red) entity false
unfolding can_user_access can_known_user_access has_explicit_grant
participants_unread s ps none entity = refl
participants_unread s ps (some u) none = refl
participants_unread s ps (some u) (some e) = refl

red_named : parse (level red) ≡ some red
unfolding parse
red_named = refl

ltb→true : {a b : ℕ} → a < b → ltb a b ≡ true
ltb→true h = ground arith

module _ (o : Outside) (user : Option User) (item : Item) {dt : Datetime}
    (dated : coerce_dt o.fromisoformat item.embargo_until ≡ some dt)
    (future : o.session.now < dt.instant) where
  as_embargoed :
      (declared : Level)
      → parse item.tlp ≡ some declared
      → declared ≢ red
      → item_allowed o user item
        ≡ can_user_access o.session user (level red) (read_entity_id o.uuid_of item.id) true
  unfolding item_allowed effective_tlp parse
  as_embargoed declared named below = ground (arith, ltb→true future)

  -- While an entity below red is embargoed, the filter lets in exactly the authenticated users on
  -- its list of participants, whatever grants there are.
  pub embargo-IsInvited :
      (declared : Level)
      → parse item.tlp ≡ some declared
      → declared ≢ red
      → (item_allowed o user item ≡ some true)
        ↔ IsInvited o.session user (read_entity_id o.uuid_of item.id)
  embargo-IsInvited declared named below =
      let rules =
        can_user_access-CanRead o.session user (level red) red (read_entity_id o.uuid_of item.id)
          true red_named in
      (
        λ h. invited (rules.0 (sym (as_embargoed declared named below) ∙ h)),
        λ i. as_embargoed declared named below ∙ rules.1 (invitation i),
      )

  as_granted :
      (ps : List Participant)
      → parse item.tlp ≡ some red
      → item_allowed (record o { session = record o.session { participants = ps } }) user item
        ≡ can_user_access
            (record o.session { participants = ps })
            user
            (level red)
            (read_entity_id o.uuid_of item.id)
            false
  unfolding item_allowed effective_tlp parse
  as_granted ps named = ground (arith, ltb→true future)

  -- While its embargo lasts, an entity that is declared red lets in exactly the authenticated users
  -- with a live grant for it and a clearance that is a level; the list of participants is not read:
  -- with any other list the answer is the same.
  pub red_embargo_by_grant :
      parse item.tlp ≡ some red
      → ((item_allowed o user item ≡ some true)
          ↔ IsGrantee o.session user (read_entity_id o.uuid_of item.id))
        × ((ps : List Participant)
            → item_allowed (record o { session = record o.session { participants = ps } }) user item
              ≡ item_allowed o user item)
  red_embargo_by_grant named =
      let entity = read_entity_id o.uuid_of item.id in
      let rules = can_user_access-CanRead o.session user (level red) red entity false red_named in
      let same = as_granted o.session.participants named in
      (
        (λ h. grantee (rules.0 (sym same ∙ h)), λ g. same ∙ rules.1 (by_its_grant g)),
        λ ps. as_granted ps named ∙ participants_unread o.session ps user entity ∙ sym same,
      )
