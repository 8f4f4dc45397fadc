-- ===== src/Access/Policy.antt =====
-- `can_user_access` against its rules as an inductive relation, and the fast path.
use mathlib.Core.List.{Memᴰ}
use fragchain_core.Prelude.{
  ℕ, ◌≤◌, ◌≡◌, ◌≢◌, refl, sym, subst, leb, ◌&&◌, if◌then◌else◌, ◌↔◌, ◌⊎◌, inl, inr, Bool, true,
  false, not, Option, none, some, arith, any-witness, any-mem, eq_iff, Bool-cases, >>=-eq-some,
}
use fragchain_core.Tlp.{
  Level, clear, green, amber, amber_strict, red, restriction_level, Value, text, parse,
}
use fragchain_core.Access.{
  is_clear, Grant, Participant, Session, User, is_anonymous, unexpired, has_explicit_grant,
  is_embargo_participant, can_known_user_access, can_user_access,
}

-- A row of the table grants the user this entity and has not expired.
pub record IsGranted (s : Session) (user_id entity : ℕ) : Type 0 where
  pub grant : Grant
  pub stored : Memᴰ grant s.grants
  pub to_user : grant.granted_to_user_id ≡ user_id
  pub of_entity : grant.entity_id ≡ entity
  pub alive : unexpired s.now grant.expires_at ≡ true

pub record IsParticipant (s : Session) (user_id entity : ℕ) : Type 0 where
  pub row : Participant
  pub stored : Memᴰ row s.participants
  pub is_user : row.user_id ≡ user_id
  pub of_entity : row.entity_id ≡ entity

module _ (s : Session) (user_id entity : ℕ) where
  pub has_explicit_grant-eq-true :
      (has_explicit_grant s user_id (some entity) ≡ true) ↔ IsGranted s user_id entity
  unfolding has_explicit_grant
  has_explicit_grant-eq-true = (found, λ g. any-mem _ g.stored (ground arith))
    where
      found : has_explicit_grant s user_id (some entity) ≡ true → IsGranted s user_id entity
      found h =
          let (g, stored, fits) = any-witness _ s.grants h in
          record {
            grant = g;
            stored = stored;
            to_user = ground arith;
            of_entity = ground arith;
            alive = ground arith;
          }

  pub is_embargo_participant-eq-true :
      (is_embargo_participant s user_id entity ≡ true) ↔ IsParticipant s user_id entity
  unfolding is_embargo_participant
  is_embargo_participant-eq-true = (found, λ p. any-mem _ p.stored (ground arith))
    where
      found : is_embargo_participant s user_id entity ≡ true → IsParticipant s user_id entity
      found h =
          let (p, stored, fits) = any-witness _ s.participants h in
          record { row = p; stored = stored; is_user = ground arith; of_entity = ground arith }

-- Who may read, by rule. `tlp` is the entity's level, `entity` its id if it is known.
pub data CanRead (s : Session) (user : Option User) (tlp : Level) (entity : Option ℕ)
    (embargoed : Bool) : Type 0 where
  public : tlp ≡ clear → embargoed ≡ false → CanRead s user tlp entity embargoed
  participant :
      (u : User) (e : ℕ)
      → user ≡ some u
      → u.tier ≢ "anonymous"
      → embargoed ≡ true
      → entity ≡ some e
      → IsParticipant s u.id e
      → CanRead s user tlp entity embargoed
  cleared :
      (u : User) (c : Level)
      → user ≡ some u
      → u.tier ≢ "anonymous"
      → embargoed ≡ false
      → tlp ≡ green
      → parse (text u.clearance_level) ≡ some c
      → c ≢ clear
      → CanRead s user tlp entity embargoed
  granted :
      (u : User) (e : ℕ) (c : Level)
      → user ≡ some u
      → u.tier ≢ "anonymous"
      → embargoed ≡ false
      → restriction_level amber ≤ restriction_level tlp
      → entity ≡ some e
      → parse (text u.clearance_level) ≡ some c
      → IsGranted s u.id e
      → CanRead s user tlp entity embargoed

same_user : {u v : User} → some u ≡ some v → u ≡ v
same_user h = cc

positive :
    (c : Level) → c ≢ clear → some (leb (restriction_level green) (restriction_level c)) ≡ some true
positive c h = ground arith

module _ (s : Session) (u : User) (known : u.tier ≢ "anonymous") where
  by_grant :
      (tlp : Level) (entity : Option ℕ)
      → restriction_level amber ≤ restriction_level tlp
      → (elim entity [ none ↦ some false | some e ↦ some (has_explicit_grant s u.id (some e)) ])
        ≡ some true
      → {c : Level} → parse (text u.clearance_level) ≡ some c
      → CanRead s (some u) tlp entity false
  by_grant tlp none high h named = cc
  by_grant tlp (some e) high h named =
      granted u e _ refl known refl high refl named ((has_explicit_grant-eq-true s u.id e).0 (cc))

  known_user_sound :
      (tlp : Level) (entity : Option ℕ) (embargoed : Bool)
      → can_known_user_access s u tlp entity embargoed ≡ some true
      → CanRead s (some u) tlp entity embargoed
  unfolding can_known_user_access
  known_user_sound tlp none true h = cc
  known_user_sound tlp (some e) true h =
      participant u e refl known refl refl ((is_embargo_participant-eq-true s u.id e).0 (cc))
  known_user_sound clear entity false h =
      let (c, named, rest) = >>=-eq-some (parse (text u.clearance_level)) _ h in cc
  known_user_sound green entity false h =
      let (c, named, rest) = >>=-eq-some (parse (text u.clearance_level)) _ h in
      cleared u c refl known refl refl named (ground arith)
  known_user_sound amber entity false h =
      let (c, named, rest) = >>=-eq-some (parse (text u.clearance_level)) _ h in
      by_grant amber entity (omega arith) rest named
  known_user_sound amber_strict entity false h =
      let (c, named, rest) = >>=-eq-some (parse (text u.clearance_level)) _ h in
      by_grant amber_strict entity (omega arith) rest named
  known_user_sound red entity false h =
      let (c, named, rest) = >>=-eq-some (parse (text u.clearance_level)) _ h in
      by_grant red entity (omega arith) rest named

  grant_opens :
      (tlp : Level) (e : ℕ) (c : Level)
      → restriction_level amber ≤ restriction_level tlp
      → parse (text u.clearance_level) ≡ some c
      → has_explicit_grant s u.id (some e) ≡ true
      → can_known_user_access s u tlp (some e) false ≡ some true
  unfolding can_known_user_access
  grant_opens clear e c high named h = absurd (omega arith)
  grant_opens green e c high named h = absurd (omega arith)
  grant_opens amber e c high named h = rw (named, h)
  grant_opens amber_strict e c high named h = rw (named, h)
  grant_opens red e c high named h = rw (named, h)

  clearance_opens :
      (entity : Option ℕ) (c : Level)
      → parse (text u.clearance_level) ≡ some c
      → c ≢ clear
      → can_known_user_access s u green entity false ≡ some true
  unfolding can_known_user_access
  clearance_opens entity c named h = rw named (positive c h)

  listing_opens :
      (tlp : Level) (e : ℕ)
      → is_embargo_participant s u.id e ≡ true
      → can_known_user_access s u tlp (some e) true ≡ some true
  unfolding can_known_user_access
  listing_opens tlp e h = rw h

  known_user_complete :
      (tlp : Level) (entity : Option ℕ) (embargoed : Bool)
      → CanRead s (some u) tlp entity embargoed
      → (tlp ≡ clear) × (embargoed ≡ false)
        ⊎ (can_known_user_access s u tlp entity embargoed ≡ some true)
  known_user_complete tlp entity embargoed (public p q) = inl (p, q)
  known_user_complete tlp entity embargoed (participant u' e p k q r row) =
      let listed = subst (λ (v : User). IsParticipant s v.id e) (sym (same_user p)) row in
      inr (rw (q, r) (listing_opens tlp e ((is_embargo_participant-eq-true s u.id e).1 listed)))
  known_user_complete tlp entity embargoed (cleared u' c p k q r named high) =
      let here =
        subst (λ (v : User). parse (text v.clearance_level) ≡ some c) (sym (same_user p)) named in
      inr (rw (q, r) (clearance_opens entity c here high))
  known_user_complete tlp entity embargoed (granted u' e c p k q high r named g) =
      let here =
        subst (λ (v : User). parse (text v.clearance_level) ≡ some c) (sym (same_user p)) named in
      let grant = subst (λ (v : User). IsGranted s v.id e) (sym (same_user p)) g in
      inr
        (rw (q, r) (grant_opens tlp e c high here ((has_explicit_grant-eq-true s u.id e).1 grant)))

not_anonymous : (u : User) → is_anonymous (some u) ≡ false → u.tier ≢ "anonymous"
unfolding is_anonymous
not_anonymous u h e = ground (arith, eq_iff u.tier "anonymous")

anonymous : (u : User) → is_anonymous (some u) ≡ true → u.tier ≡ "anonymous"
unfolding is_anonymous
anonymous u h = (eq_iff u.tier "anonymous").0 h

someone :
    {s : Session} {user : Option User} {tlp : Level} {entity : Option ℕ} {embargoed : Bool}
    → CanRead s user tlp entity embargoed
    → (tlp ≡ clear) × (embargoed ≡ false) ⊎ (is_anonymous user ≡ false)
unfolding is_anonymous
someone (public p q) = inl (p, q)
someone (participant u e p k q r row) = ground (arith, eq_iff u.tier "anonymous")
someone (cleared u c p k q r named high) = ground (arith, eq_iff u.tier "anonymous")
someone (granted u e c p k q high r named g) = ground (arith, eq_iff u.tier "anonymous")

module _ (s : Session) (v : Value) (tlp : Level) (named : parse v ≡ some tlp) where
  access_sound :
      (user : Option User) (entity : Option ℕ) (embargoed : Bool)
      → can_user_access s user v entity embargoed ≡ some true
      → CanRead s user tlp entity embargoed
  unfolding can_user_access
  access_sound user entity embargoed h = elim (Bool-cases (is_clear tlp && not embargoed)) [
    | inl p ↦ public (ground arith) (ground arith)
    | inr p ↦ closed user (rw (named, p) at h)
  ]
    where
      closed :
          (user : Option User)
          → (if is_anonymous user then some false else elim user [
            | none ↦ some false
            | some u ↦ can_known_user_access s u tlp entity embargoed
          ])
            ≡ some true
          → CanRead s user tlp entity embargoed
      closed none k = ground arith
      closed (some u) k = elim (Bool-cases (is_anonymous (some u))) [
        | inl q ↦ ground (arith, rw q at k)
        | inr q ↦ known_user_sound s u (not_anonymous u q) tlp entity embargoed (rw q at k)
      ]

  access_complete :
      (user : Option User) (entity : Option ℕ) (embargoed : Bool)
      → CanRead s user tlp entity embargoed
      → can_user_access s user v entity embargoed ≡ some true
  unfolding can_user_access
  access_complete none entity embargoed h = ground (arith, named, someone h)
  access_complete (some u) entity embargoed h = elim (someone h) [
    | inl p ↦ ground (arith, named)
    | inr q ↦
        ground (arith, named, known_user_complete s u (not_anonymous u q) tlp entity embargoed h)
  ]

-- The predicate is exactly the rules: for an entity whose level is known, `can_user_access`
-- returns true exactly when one of them lets the user in.
pub can_user_access-CanRead :
    (s : Session) (user : Option User) (v : Value) (tlp : Level) (entity : Option ℕ)
    (embargoed : Bool)
    → parse v ≡ some tlp
    → (can_user_access s user v entity embargoed ≡ some true) ↔ CanRead s user tlp entity embargoed
can_user_access-CanRead s user v tlp entity embargoed named = (
  access_sound s v tlp named user entity embargoed,
  access_complete s v tlp named user entity embargoed,
)
