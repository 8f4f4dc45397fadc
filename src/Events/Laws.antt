-- ===== src/Events/Laws.antt =====
-- What the pump sends to a subscriber, against the rules of access.
use mathlib.Core.List.{Memᴰ}
use mathlib.Core.List.Memᴰ
use fragchain_core.Prelude.{
  ℕ, String, Bool, true, false, not, Option, none, some, List, [], ◌∷◌, ◌≡◌, refl, sym, ap, ◌∙◌,
  inl, inr, subst, arith, >>=-eq-some, Bool-cases, Option-cases, if◌then◌else◌,
}
use fragchain_core.Tlp.{Level, text, parse}
use fragchain_core.Access.{Session, User, can_user_access}
use fragchain_core.Access.Policy.{CanRead, can_user_access-CanRead}
use fragchain_core.Events.{Event, is_elevated_tier, visible_to, is_true, is_sent, pump}

-- Who may hear an event, by rule.
pub data MayHear (s : Session) (u : User) (e : Event) : Type 0 where
  untyped : e.tlp ≡ none → MayHear s u e
  elevated : is_elevated_tier u.tier ≡ true → MayHear s u e
  reads :
      (tlp : String) (level : Level)
      → e.tlp ≡ some tlp
      → parse (text tlp) ≡ some level
      → CanRead s (some u) level e.entity_id e.embargoed
      → MayHear s u e

-- What a predicate that returned true read of the level.
access-parsed :
    (s : Session) (user : Option User) (tlp : String) (entity : Option ℕ) (embargoed : Bool)
    → can_user_access s user (text tlp) entity embargoed ≡ some true
    → (level : Level) × (parse (text tlp) ≡ some level)
unfolding can_user_access
access-parsed s user tlp entity embargoed h =
    let (level, parsed, rest) = >>=-eq-some (parse (text tlp)) _ h in (level, parsed)

is_true-some : (o : Option Bool) → is_true o ≡ true → o ≡ some true
is_true-some none h = cc
is_true-some (some b) h = ap some h

choice :
    (up : Bool) (o : Option Bool)
    → is_true (if up then some true else if not true then some false else o)
      ≡ (if up then true else is_true o)
choice true o = refl
choice false o = refl

module _ (s : Session) (u : User) (e : Event) where
  sent-untyped : e.tlp ≡ none → is_sent s u e ≡ true
  unfolding is_sent visible_to
  sent-untyped h = rw (h, is_sent, visible_to)

  sent-typed :
      (tlp : String)
      → e.tlp ≡ some tlp
      → is_sent s u e ≡ (
          if is_elevated_tier u.tier
          then true
          else is_true (can_user_access s (some u) (text tlp) e.entity_id e.embargoed))
  unfolding is_sent visible_to
  sent-typed tlp h =
      rw (h, is_sent, visible_to)
        (choice (is_elevated_tier u.tier)
          (can_user_access s (some u) (text tlp) e.entity_id e.embargoed))

  sent-MayHear : is_sent s u e ≡ true → MayHear s u e
  sent-MayHear h = elim (Option-cases e.tlp) [
    | inl none_given ↦ untyped none_given
    | inr (tlp, given) ↦ elim (Bool-cases (is_elevated_tier u.tier)) [
      | inl up ↦ elevated up
      | inr low ↦
          let access =
            is_true-some (can_user_access s (some u) (text tlp) e.entity_id e.embargoed)
              (rw low at (sym (sent-typed tlp given) ∙ h)) in
          let (level, parsed) = access-parsed s (some u) tlp e.entity_id e.embargoed access in
          reads tlp level given parsed (
            (can_user_access-CanRead s (some u) (text tlp) level e.entity_id e.embargoed parsed).0
              access)
    ]
  ]

  MayHear-sent : MayHear s u e → is_sent s u e ≡ true
  MayHear-sent (untyped h) = sent-untyped h
  MayHear-sent (elevated up) = elim (Option-cases e.tlp) [
    | inl none_given ↦ sent-untyped none_given
    | inr (tlp, given) ↦ sent-typed tlp given ∙ rw up
  ]
  MayHear-sent (reads tlp level given parsed r) =
      let access =
        (can_user_access-CanRead s (some u) (text tlp) level e.entity_id e.embargoed parsed).1 r in
      sent-typed tlp given ∙ (rw access (ground arith))

sound :
    (u : User) (q : List (Session × Event)) (e : Event)
    → Memᴰ e (pump u q)
    → (s : Session) × Memᴰ (s, e) q × MayHear s u e
unfolding pump
sound u [] e m = elim m [ ]
sound u ((s, x) ∷ q) e m = elim (Bool-cases (is_sent s u x)) [
  | inl yes_sent ↦ elim (Memᴰ.cases_cons (rw (yes_sent, pump) at m)) [
    | inl same ↦ (
      s,
      Memᴰ.head (ap (λ (y : Event). (s, y)) same),
      subst (MayHear s u) (sym same) (sent-MayHear s u x yes_sent),
    )
    | inr later ↦ let (t, k, h) = sound u q e later in (t, Memᴰ.tail k, h)
  ]
  | inr not_sent ↦ let (t, k, h) = sound u q e (rw (not_sent, pump) at m) in (t, Memᴰ.tail k, h)
]

complete :
    (u : User) (q : List (Session × Event)) (e : Event) (s : Session)
    → Memᴰ (s, e) q
    → MayHear s u e
    → Memᴰ e (pump u q)
unfolding pump
complete u [] e s m h = elim m [ ]
complete u ((t, x) ∷ q) e s m h = elim (Memᴰ.cases_cons m) [
  | inl same ↦
      let of_session : s ≡ t = ap (λ (p : Session × Event). p.0) same in
      let of_event : e ≡ x = ap (λ (p : Session × Event). p.1) same in
      let passed : is_sent t u x ≡ true =
        subst (λ y. is_sent y u x ≡ true) of_session
          (subst (λ y. is_sent s u y ≡ true) of_event (MayHear-sent s u e h)) in
      rw (passed, pump) (Memᴰ.head of_event)
  | inr later ↦ elim (Bool-cases (is_sent t u x)) [
    | inl passed ↦ rw (passed, pump) (Memᴰ.tail (complete u q e s later h))
    | inr dropped ↦ rw (dropped, pump) (complete u q e s later h)
  ]
]

-- The pump sends an event exactly when its queue hands it out at a moment when the subscriber may
-- hear it: it has no level, the subscriber is elevated, or the rules of access let the subscriber
-- read; what the predicate cannot decide is not sent.
pub pump-MayHear :
    (u : User) (q : List (Session × Event)) (e : Event)
    → (Memᴰ e (pump u q) → (s : Session) × Memᴰ (s, e) q × MayHear s u e)
      × ((s : Session) → Memᴰ (s, e) q → MayHear s u e → Memᴰ e (pump u q))
pump-MayHear u q e = (sound u q e, λ s m h. complete u q e s m h)
