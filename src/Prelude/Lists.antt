-- ===== src/Prelude/Lists.antt =====
-- Lists measured by native numbers, and the loops of the source over them: `any`, `all`, the
-- comprehension with a test, and predicates by recursion.
use Prim.Native.Nat.{ℕ, suc, ◌+◌}
use mathlib.Core.Path.{◌≡◌, refl, ap, subst}
use mathlib.Core.Logic.{◌↔◌, inl, inr}
use mathlib.Core.Bool.{Bool, true, false, ◌&&◌, ◌||◌}
use mathlib.Core.List.{List, [], ◌∷◌, ◌++◌, Memᴰ}
use native.Mathlib.Omega.{arith}
use mathlib.Core.Option.{Option, some}
use fragchain_core.Prelude.Options.{same_some, >>=-eq-some, ◌>>=◌}
use fragchain_core.Prelude.Tests.{if◌then◌else◌, Bool-cases}

module _ {ℓ} {A : Type ℓ} where
  abbrev pub length : List A → ℕ
  length [] = 0
  length (x ∷ xs) = suc (length xs)

  abbrev pub any : (A → Bool) → List A → Bool
  any p [] = false
  any p (x ∷ xs) = p x || any p xs

  abbrev pub all : (A → Bool) → List A → Bool
  all p [] = true
  all p (x ∷ xs) = p x && all p xs

  -- `[x for x in xs if p(x)]`
  abbrev pub select : (A → Bool) → List A → List A
  select p [] = []
  select p (x ∷ xs) = let rest = select p xs in if p x then x ∷ rest else rest

  pub length-append : (xs ys : List A) → length (xs ++ ys) ≡ length xs + length ys
  length-append [] ys = omega arith
  length-append (x ∷ xs) ys = omega (arith, length-append xs ys)

abbrev pub All {ℓ κ} : {A : Type ℓ} → (A → Type κ) → List A → Type κ
All P [] = Unit
All P (x ∷ xs) = P x × All P xs

pub any-witness {ℓ} :
    {A : Type ℓ} (p : A → Bool) (xs : List A) → any p xs ≡ true → (x : A) × Memᴰ x xs × (p x ≡ true)
any-witness p [] h = cc
any-witness p (x ∷ xs) h = elim (Bool-cases (p x)) [
  | inl e ↦ (x, Memᴰ.head refl, e)
  | inr e ↦ let (y, m, q) = any-witness p xs (rw e at h) in (y, Memᴰ.tail m, q)
]

pub any-mem {ℓ} :
    {A : Type ℓ} (p : A → Bool) {x : A} {xs : List A} → Memᴰ x xs → p x ≡ true → any p xs ≡ true
any-mem p (Memᴰ.head e) h = ground (arith, ap p e)
any-mem p (Memᴰ.tail m) h = ground (arith, any-mem p m h)

pub skip_second {ℓ} : {A : Type ℓ} {a b c : A} {l : List A} → Memᴰ a (b ∷ l) → Memᴰ a (b ∷ c ∷ l)
skip_second (Memᴰ.head e) = Memᴰ.head e
skip_second (Memᴰ.tail m) = Memᴰ.tail (Memᴰ.tail m)

-- The loop `for x in xs: if test(x): out.append(x)`, for a test that may raise.
unfoldable pub select_or_raise {ℓ} : {A : Type ℓ} → (A → Option Bool) → List A → Option (List A)
select_or_raise test [] = some []
select_or_raise test (x ∷ xs) = do
  passed ← test x
  rest ← select_or_raise test xs
  some (if passed then x ∷ rest else rest)

module _ {ℓ} {A : Type ℓ} (test : A → Option Bool) (a : A) where
  abbrev IsKept : List A → List A → Type ℓ
  IsKept out xs = Memᴰ a out ↔ (Memᴰ a xs × (test a ≡ some true))

  IsKept-cons :
      (passed : Bool) (x : A) {out xs : List A}
      → test x ≡ some passed
      → IsKept out xs
      → IsKept (if passed then x ∷ out else out) (x ∷ xs)
  IsKept-cons true x {out} {xs} e ih = (old, new)
    where
      old : Memᴰ a (x ∷ out) → Memᴰ a (x ∷ xs) × (test a ≡ some true)
      old (Memᴰ.head p) = (Memᴰ.head p, rw p e)
      old (Memᴰ.tail m) = (Memᴰ.tail (ih.0 m).0, (ih.0 m).1)

      new : Memᴰ a (x ∷ xs) × (test a ≡ some true) → Memᴰ a (x ∷ out)
      new (Memᴰ.head p, q) = Memᴰ.head p
      new (Memᴰ.tail m, q) = Memᴰ.tail (ih.1 (m, q))
  IsKept-cons false x {out} {xs} e ih = (old, new)
    where
      old : Memᴰ a out → Memᴰ a (x ∷ xs) × (test a ≡ some true)
      old m = (Memᴰ.tail (ih.0 m).0, (ih.0 m).1)

      new : Memᴰ a (x ∷ xs) × (test a ≡ some true) → Memᴰ a out
      new (Memᴰ.head p, q) = cc (ap test p)
      new (Memᴰ.tail m, q) = ih.1 (m, q)

  -- The result has exactly the items that pass.
  pub mem-select_or_raise :
      (xs : List A) {out : List A} → select_or_raise test xs ≡ some out → IsKept out xs
  unfolding select_or_raise
  mem-select_or_raise [] h = subst (λ l. IsKept l []) (same_some h) (λ m. elim m [ ], λ (m, _). m)
  mem-select_or_raise (x ∷ xs) h =
      let (passed, tested, more) = >>=-eq-some (test x) _ h in
      let (rest, kept, last) = >>=-eq-some (select_or_raise test xs) _ more in
      subst (λ l. IsKept l (x ∷ xs)) (same_some last)
        (IsKept-cons passed x tested (mem-select_or_raise xs kept))
