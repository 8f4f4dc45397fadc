-- ===== src/Counting.antt =====
-- How many rows pass a test, how an update changes it, and the first row that passes one.
use fragchain_core.Prelude.{
  ℕ, Bool, true, false, not, ◌&&◌, ◌||◌, List, [], ◌∷◌, ◌++◌, ◌+◌, ◌≤◌, ◌≡◌, refl, arith, any, all,
  map, select, length, if◌then◌else◌, Option, some, none, Bool-cases, inl, inr, same_some, ap,
}

pub length-map : {A B : Type 0} (f : A → B) (l : List A) → length (map f l) ≡ length l
length-map f [] = refl
length-map f (a ∷ l) = omega (arith, length-map f l)

module _ {A : Type 0} where
  abbrev pub count : (A → Bool) → List A → ℕ
  count p [] = 0
  count p (a ∷ l) = (if p a then 1 else 0) + count p l

  pub count-append : (p : A → Bool) (k l : List A) → count p (k ++ l) ≡ count p k + count p l
  count-append p [] l = omega arith
  count-append p (a ∷ k) l = omega (arith, count-append p k l)

  pub count-any : (p : A → Bool) (l : List A) → any p l ≡ false → count p l ≡ 0
  count-any p [] h = refl
  count-any p (a ∷ l) h = ground (arith, count-any p l)

  -- What passes after a write passed before it, by a test that may be another, for rows that have
  -- some property.
  pub count-map-le :
      (w p q : A → Bool) (f : A → A)
      → ((a : A) → w a ≡ true → p (f a) ≡ true → q a ≡ true)
      → (l : List A) → all w l ≡ true
      → count p (map f l) ≤ count q l
  count-map-le w p q f h [] k = omega arith
  count-map-le w p q f h (a ∷ l) k = ground (arith, h a, count-map-le w p q f h l)

  pub all-true : (l : List A) → all (λ a. true) l ≡ true
  all-true [] = refl
  all-true (a ∷ l) = all-true l

  pub all-both :
      (p q : A → Bool) (l : List A)
      → all p l ≡ true
      → all q l ≡ true
      → all (λ a. p a && q a) l ≡ true
  all-both p q [] h k = refl
  all-both p q (a ∷ l) h k = ground (arith, all-both p q l)

  pub count-map :
      (p : A → Bool) (f : A → A)
      → ((a : A) → p (f a) ≡ p a)
      → (l : List A) → count p (map f l) ≡ count p l
  count-map p f h [] = refl
  count-map p f h (a ∷ l) = ground (arith, h a, count-map p f h l)

  pub length-select : (p : A → Bool) (l : List A) → length (select p l) ≡ count p l
  length-select p [] = refl
  length-select p (a ∷ l) = ground (arith, length-select p l)

  pub all-append : (p : A → Bool) (k l : List A) → all p (k ++ l) ≡ (all p k && all p l)
  all-append p [] l = refl
  all-append p (a ∷ k) l = ground (arith, all-append p k l)

  pub all-map :
      (w p : A → Bool) (f : A → A)
      → ((a : A) → w a ≡ true → p (f a) ≡ true)
      → (l : List A) → all w l ≡ true
      → all p (map f l) ≡ true
  all-map w p f h [] k = refl
  all-map w p f h (a ∷ l) k = ground (arith, h a, all-map w p f h l)

  -- The first row that passes a test.
  unfoldable pub first : (A → Bool) → List A → Option A
  first p [] = none
  first p (a ∷ l) = let rest = first p l in if p a then some a else rest

  -- What the one row that passes a test satisfies, all rows that pass it satisfy.
  all-absent : (p q : A → Bool) (l : List A) → count p l ≡ 0 → all (λ a. not (p a) || q a) l ≡ true
  all-absent p q [] h = refl
  all-absent p q (a ∷ l) h = ground (arith, all-absent p q l)

  pub all-first :
      (p q : A → Bool) (l : List A) (a : A)
      → count p l ≤ 1
      → first p l ≡ some a
      → q a ≡ true
      → all (λ b. not (p b) || q b) l ≡ true
  unfolding first
  all-first p q [] a u h k = cc
  all-first p q (b ∷ l) a u h k = elim (Bool-cases (p b)) [
    | inl e ↦
        let same = same_some (rw (e, first) at h) in
        rw (e, ap q same, k) (all-absent p q l (ground arith))
    | inr e ↦ rw e (all-first p q l a (ground arith) (ground arith) k)
  ]

  pub first-append :
      (p : A → Bool) (l : List A) (a : A)
      → count p l ≡ 0
      → p a ≡ true
      → first p (l ++ (a ∷ [])) ≡ some a
  unfolding first
  first-append p [] a h k = rw k
  first-append p (b ∷ l) a h k = ground (arith, first-append p l a)

  -- The first row that passes a test passes it.
  pub first-some : (p : A → Bool) (l : List A) (a : A) → first p l ≡ some a → p a ≡ true
  unfolding first
  first-some p [] a h = cc
  first-some p (b ∷ l) a h = ground (arith, first-some p l a)
