-- ===== src/RuleSupersession/Laws.antt =====
-- What a supersession changes: exactly the prior rows of the triple, by rule.
use fragchain_core.Prelude.{
  String, ℕ, zero, suc, Bool, true, false, ◌&&◌, Option, none, some, is_some, List, [], ◌∷◌, ◌==◌,
  ==_iff, eq_iff, any-witness, any-mem, Bool-cases, inl, inr, map, select, length, if◌then◌else◌,
  ◌≡◌, ◌≢◌, ◌↔◌, refl, ap, arith,
}
use mathlib.Core.List.{Memᴰ}
use fragchain_core.Queue.{Status, pending, in_review, approved, rejected, superseded}
use fragchain_core.RuleSupersession.{
  QueueRow, SigmaRule, Tables, Triple, is_pending, is_only, of_triple, row_of_triple, is_replaced,
  is_deprecated, replace_row, deprecate_rule, supersede_prior_for_triple,
}

-- An update changes exactly the rows with a property, each by a function, and counts them.
pub data Updated {A : Type 0} (P : A → Type 0) (f : A → A) : ℕ → List A → List A → Type 0 where
  ends : Updated P f zero [] []
  changed :
      {n : ℕ} {a : A} {l m : List A}
      → P a
      → Updated P f n l m
      → Updated P f (suc n) (a ∷ l) (f a ∷ m)
  kept :
      {n : ℕ} {a : A} {l m : List A} → (P a → ⊥) → Updated P f n l m → Updated P f n (a ∷ l) (a ∷ m)

update-Updated :
    {A : Type 0} (p : A → Bool) (P : A → Type 0) (f : A → A)
    → ((a : A) → (p a ≡ true) ↔ P a)
    → (l : List A) → Updated P f (length (select p l)) l (map (λ a. if p a then f a else a) l)
update-Updated p P f same [] = ends
update-Updated p P f same (a ∷ l) = elim (Bool-cases (p a)) [
  | inl e ↦ rw e (changed ((same a).0 e) (update-Updated p P f same l))
  | inr e ↦ rw e (kept (λ x. ground (arith, e, (same a).1 x)) (update-Updated p P f same l))
]

is_fresh_lem : {A : Type 0} (o : Option A) → is_some o ≡ false → o ≡ none
is_fresh_lem none h = refl
is_fresh_lem (some a) h = cc

is_pending_lem : (s : Status) → is_pending s ≡ true → s ≡ pending
is_pending_lem pending h = refl
is_pending_lem in_review h = cc
is_pending_lem approved h = cc
is_pending_lem rejected h = cc
is_pending_lem superseded h = cc

-- A rule of the CVE, of that technique alone, and of the profile.
pub record IsOfTriple (key : Triple) (r : SigmaRule) : Type 0 where
  pub of_cve : r.cve_id ≡ key.cve_id
  pub of_technique : r.technique_ids ≡ key.technique_id ∷ []
  pub of_profile : r.logsource_profile ≡ key.profile_name

-- A queue row that waits for review, of a stored rule of the triple that is not the new one, and that no
-- assessment has superseded.
pub record IsPriorRow (key : Triple) (rules : List SigmaRule) (new_rule_id : ℕ) (q : QueueRow)
    : Type 0 where
  pub rule : SigmaRule
  pub stored : Memᴰ rule rules
  pub joined : rule.id ≡ q.sigma_rule_id
  pub is_of_triple : IsOfTriple key rule
  pub waits : q.status ≡ pending
  pub is_other : q.sigma_rule_id ≢ new_rule_id
  pub is_fresh : q.superseded_by_assessment_id ≡ none

-- An approved rule of the triple that is not the new one and is not deprecated.
pub record IsPriorRule (key : Triple) (new_rule_id : ℕ) (r : SigmaRule) : Type 0 where
  pub is_of_triple : IsOfTriple key r
  pub is_approved : r.status ≡ "approved"
  pub is_fresh : r.deprecated_at ≡ none
  pub is_other : r.id ≢ new_rule_id

is_only_iff : (t : String) (l : List String) → (is_only t l ≡ true) ↔ (l ≡ t ∷ [])
is_only_iff t [] = (λ h. cc, λ h. cc)
is_only_iff t (x ∷ []) = (λ h. ap (λ y. y ∷ []) ((eq_iff x t).0 h), λ h. (eq_iff x t).1 (cc))
is_only_iff t (x ∷ y ∷ l) = (λ h. cc, λ h. cc)

of_triple_iff : (key : Triple) (r : SigmaRule) → (of_triple key r ≡ true) ↔ IsOfTriple key r
unfolding of_triple
of_triple_iff key r = (read, built)
  where
    read : of_triple key r ≡ true → IsOfTriple key r
    read h = record {
      of_cve = ground arith;
      of_technique = (is_only_iff key.technique_id r.technique_ids).0 (ground arith);
      of_profile = (eq_iff r.logsource_profile key.profile_name).0 (ground arith);
    }

    built : IsOfTriple key r → of_triple key r ≡ true
    built i = ground (
      arith,
      (==_iff r.cve_id key.cve_id).1 i.of_cve,
      (is_only_iff key.technique_id r.technique_ids).1 i.of_technique,
      (eq_iff r.logsource_profile key.profile_name).1 i.of_profile,
    )

is_replaced_iff :
    (key : Triple) (rules : List SigmaRule) (n : ℕ) (q : QueueRow)
    → (is_replaced key rules n q ≡ true) ↔ IsPriorRow key rules n q
unfolding is_replaced row_of_triple
is_replaced_iff key rules n q = (read, built)
  where
    read : is_replaced key rules n q ≡ true → IsPriorRow key rules n q
    read h =
        let (r, stored, fits) =
          any-witness (λ r. r.id == q.sigma_rule_id && of_triple key r) rules (ground arith) in
        record {
          rule = r;
          stored = stored;
          joined = ground arith;
          is_of_triple = (of_triple_iff key r).0 (ground arith);
          waits = is_pending_lem q.status (ground arith);
          is_other = λ e. ground arith;
          is_fresh = is_fresh_lem q.superseded_by_assessment_id (ground arith);
        }

    built : IsPriorRow key rules n q → is_replaced key rules n q ≡ true
    built i =
        let joined = (==_iff i.rule.id q.sigma_rule_id).1 i.joined in
        let of_key = (of_triple_iff key i.rule).1 i.is_of_triple in
        let row =
          any-mem (λ r. r.id == q.sigma_rule_id && of_triple key r) i.stored
            (ground (arith, joined, of_key)) in
        ground (arith, row, i.waits, i.is_other, i.is_fresh)

is_deprecated_iff :
    (key : Triple) (n : ℕ) (r : SigmaRule) → (is_deprecated key n r ≡ true) ↔ IsPriorRule key n r
unfolding is_deprecated
is_deprecated_iff key n r = (read, built)
  where
    read : is_deprecated key n r ≡ true → IsPriorRule key n r
    read h = record {
      is_of_triple = (of_triple_iff key r).0 (ground arith);
      is_approved = (eq_iff r.status "approved").0 (ground arith);
      is_fresh = is_fresh_lem r.deprecated_at (ground arith);
      is_other = λ e. ground arith;
    }

    built : IsPriorRule key n r → is_deprecated key n r ≡ true
    built i = ground (
      arith,
      (of_triple_iff key r).1 i.is_of_triple,
      (eq_iff r.status "approved").1 i.is_approved,
      i.is_fresh,
      i.is_other,
    )

module _ (now : ℕ) (key : Triple) (n a : ℕ) where
  -- A supersession changes exactly these rows, each once, and counts them: a queue row that waits
  -- for review, of a stored rule of the CVE, of that technique alone and of the profile, that is not
  -- the new rule's and was not superseded before, becomes superseded by the assessment; and an
  -- approved rule of these three that is not the new one and not deprecated before is deprecated
  -- now, by the new rule and the assessment. Every other row and rule stays as it is.
  pub supersede-Updated :
      (db : Tables)
      → let (after, pending_superseded, approved_deprecated) =
          supersede_prior_for_triple now key n a db in
        Updated
          (IsPriorRow key db.rules n)
          (λ q. record q { status = superseded; superseded_by_assessment_id = some a })
          pending_superseded
          db.queue
          after.queue
        × Updated
            (IsPriorRule key n)
            (λ r. record r {
              deprecated_at = some now;
              deprecated_by_rule_id = some n;
              deprecated_by_assessment_id = some a;
            })
            approved_deprecated
            db.rules
            after.rules
  unfolding supersede_prior_for_triple replace_row deprecate_rule
  supersede-Updated db = (
    update-Updated (is_replaced key db.rules n) (IsPriorRow key db.rules n)
        (λ q. record q { status = superseded; superseded_by_assessment_id = some a })
        (is_replaced_iff key db.rules n) db.queue,
    update-Updated (is_deprecated key n) (IsPriorRule key n)
        (λ r. record r {
          deprecated_at = some now;
          deprecated_by_rule_id = some n;
          deprecated_by_assessment_id = some a;
        })
        (is_deprecated_iff key n) db.rules,
  )
