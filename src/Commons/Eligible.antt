-- ===== src/Commons/Eligible.antt =====
-- Which sources a contribution goes to, and which payloads are clear.
use mathlib.Core.List.{Memᴰ}
use fragchain_core.Prelude.{
  ℕ, Bool, true, false, not, Option, none, some, List, [], ◌∷◌, select, map, lower, codes, ◌≡◌, ◌↔◌,
  ap, ◌∙◌, Bool-cases, inl, inr,
}
use fragchain_core.Router.Plan.{insert, sorted}
use fragchain_core.Commons.{
  Text, CommonsSource, is_clear, is_wanted, source_lt, rank_sources, list_contribute_sources,
}
use fragchain_core.Commons.Rank.{same_codes_iff}

-- A level that is absent or empty, or tlp:clear in any case.
pub data IsUnrestricted : Option Text → Type 0 where
  absent : IsUnrestricted none
  blank : IsUnrestricted (some [])
  clear : (tlp : Text) → map lower tlp ≡ codes "tlp:clear" → IsUnrestricted (some tlp)

pub is_clear-IsUnrestricted : (tlp : Option Text) → is_clear tlp ≡ true → IsUnrestricted tlp
unfolding is_clear
is_clear-IsUnrestricted none h = absent
is_clear-IsUnrestricted (some []) h = blank
is_clear-IsUnrestricted (some (c ∷ tlp)) h =
    clear (c ∷ tlp) ((same_codes_iff (map lower (c ∷ tlp)) (codes "tlp:clear")).0 h)

module _ {A : Type 0} (le : A → A → Bool) (x : A) where
  mem-insert : (a : A) (l : List A) → Memᴰ x (insert le a l) ↔ Memᴰ x (a ∷ l)
  unfolding insert
  mem-insert a [] = (λ m. m, λ m. m)
  mem-insert a (b ∷ l) = elim (Bool-cases (le a b)) [
    | inl e ↦ rw (e, insert) (λ m. m, λ m. m)
    | inr e ↦ rw (e, insert) (λ m. out (mem-insert a l) m, λ m. into (mem-insert a l) m)
  ]
    where
      out : {k : List A} → Memᴰ x k ↔ Memᴰ x (a ∷ l) → Memᴰ x (b ∷ k) → Memᴰ x (a ∷ b ∷ l)
      out h (Memᴰ.head e) = Memᴰ.tail (Memᴰ.head e)
      out h (Memᴰ.tail m) = past (h.0 m)
        where
          past : Memᴰ x (a ∷ l) → Memᴰ x (a ∷ b ∷ l)
          past (Memᴰ.head e) = Memᴰ.head e
          past (Memᴰ.tail m) = Memᴰ.tail (Memᴰ.tail m)

      into : {k : List A} → Memᴰ x k ↔ Memᴰ x (a ∷ l) → Memᴰ x (a ∷ b ∷ l) → Memᴰ x (b ∷ k)
      into h (Memᴰ.head e) = Memᴰ.tail (h.1 (Memᴰ.head e))
      into h (Memᴰ.tail (Memᴰ.head e)) = Memᴰ.head e
      into h (Memᴰ.tail (Memᴰ.tail m)) = Memᴰ.tail (h.1 (Memᴰ.tail m))

  mem-sorted : (l : List A) → Memᴰ x (sorted le l) ↔ Memᴰ x l
  unfolding sorted
  mem-sorted [] = (λ m. m, λ m. m)
  mem-sorted (a ∷ l) =
      let rest = mem-sorted l in
      let step = mem-insert a (sorted le l) in
      (λ m. under rest.0 (step.0 m), λ m. step.1 (under rest.1 m))
    where
      under : {j k : List A} → (Memᴰ x j → Memᴰ x k) → Memᴰ x (a ∷ j) → Memᴰ x (a ∷ k)
      under f (Memᴰ.head e) = Memᴰ.head e
      under f (Memᴰ.tail m) = Memᴰ.tail (f m)

module _ {A : Type 0} (p : A → Bool) (x : A) where
  InSelect : List A → Type 0
  InSelect l = Memᴰ x (select p l) ↔ (Memᴰ x l × (p x ≡ true))

  select_kept :
      (a : A) (l : List A)
      → p a ≡ true
      → InSelect l
      → Memᴰ x (a ∷ select p l) ↔ (Memᴰ x (a ∷ l) × (p x ≡ true))
  unfolding InSelect
  select_kept a l e ih = (out, λ h. into h.0 h.1)
    where
      out : Memᴰ x (a ∷ select p l) → Memᴰ x (a ∷ l) × (p x ≡ true)
      out (Memᴰ.head h) = (Memᴰ.head h, ap p h ∙ e)
      out (Memᴰ.tail m) = let both = ih.0 m in (Memᴰ.tail both.0, both.1)

      into : Memᴰ x (a ∷ l) → p x ≡ true → Memᴰ x (a ∷ select p l)
      into (Memᴰ.head h) q = Memᴰ.head h
      into (Memᴰ.tail m) q = Memᴰ.tail (ih.1 (m, q))

  select_dropped :
      (a : A) (l : List A)
      → p a ≡ false
      → InSelect l
      → Memᴰ x (select p l) ↔ (Memᴰ x (a ∷ l) × (p x ≡ true))
  unfolding InSelect
  select_dropped a l e ih = ((λ m. (Memᴰ.tail (ih.0 m).0, (ih.0 m).1)), λ h. into h.0 h.1)
    where
      into : Memᴰ x (a ∷ l) → p x ≡ true → Memᴰ x (select p l)
      into (Memᴰ.head h) q = let both = ap p h in cc
      into (Memᴰ.tail m) q = ih.1 (m, q)

  mem-select : (l : List A) → InSelect l
  unfolding InSelect
  mem-select [] = (λ m. elim m [ ], λ h. elim h.0 [ ])
  mem-select (a ∷ l) = elim (Bool-cases (p a)) [
    | inl e ↦ rw e (select_kept a l e (mem-select l))
    | inr e ↦ rw e (select_dropped a l e (mem-select l))
  ]

-- The eligible sources are those of the table that take contributions and are wanted.
pub mem-eligible :
    (table : List CommonsSource) (source_ids : Option (List ℕ)) (s : CommonsSource)
    → Memᴰ s (select (is_wanted source_ids) (list_contribute_sources table))
      ↔ (Memᴰ s table × (s.contribute_enabled ≡ true) × (is_wanted source_ids s ≡ true))
unfolding list_contribute_sources rank_sources InSelect
mem-eligible table source_ids s =
    let enabled = select (λ (t : CommonsSource). t.contribute_enabled) table in
    let wanted = mem-select (is_wanted source_ids) s (list_contribute_sources table) in
    let ranked = mem-sorted (λ a b. not (source_lt a b)) s enabled in
    let open_sources = mem-select (λ (t : CommonsSource). t.contribute_enabled) s table in
    (
      λ m.
          let (in_list, w) = wanted.0 m in
          let (in_table, enabled) = open_sources.0 (ranked.0 in_list) in (in_table, enabled, w),
      λ h. wanted.1 (ranked.1 (open_sources.1 (h.0, h.1)), h.2),
    )
