-- ===== src/Chunking/Windows.antt =====
-- The loop over the windows: it ends, its windows are within bounds, and they hold the sequence.
use fragchain_core.Prelude.{
  ℕ, zero, suc, true, Option, some, List, [], ◌∷◌, ◌++◌, ◌+◌, ◌-◌, ◌<◌, ◌≤◌, length, ltb, leb, ◌≡◌,
  refl, arith, ap, All, Bool-cases, inl, inr, is_some, >>=-eq-some, same_some, subst,
}
use fragchain_core.Chunking.{take, drop, windows}

module _ {A : Type 0} where
  pub length-take : (n : ℕ) (l : List A) → n ≤ length l → length (take n l) ≡ n
  length-take zero l h = refl
  length-take (suc n) [] h = absurd (omega arith)
  length-take (suc n) (a ∷ l) h = omega (arith, length-take n l)

  pub length-take-le : (n : ℕ) (l : List A) → length (take n l) ≤ n
  length-take-le zero l = omega arith
  length-take-le (suc n) [] = omega arith
  length-take-le (suc n) (a ∷ l) = omega (arith, length-take-le n l)

  pub length-drop : (n : ℕ) (l : List A) → length (drop n l) ≡ length l - n
  length-drop zero l = omega arith
  length-drop (suc n) [] = omega arith
  length-drop (suc n) (a ∷ l) = omega (arith, length-drop n l)

  pub take_all : (n : ℕ) (l : List A) → length l ≤ n → take n l ≡ l
  take_all zero [] h = refl
  take_all zero (a ∷ l) h = absurd (omega arith)
  take_all (suc n) [] h = refl
  take_all (suc n) (a ∷ l) h = ap (λ t. a ∷ t) (take_all n l (omega arith))

  drop-nil : (n : ℕ) → drop {A = A} n [] ≡ []
  drop-nil zero = refl
  drop-nil (suc n) = refl

  pub drop-drop : (m n : ℕ) (l : List A) → drop m (drop n l) ≡ drop (n + m) l
  drop-drop m zero l = ap (λ k. drop k l) (omega arith)
  drop-drop m (suc n) [] = let e : suc n + m ≡ suc (n + m) = omega arith in rw e (drop-nil m)
  drop-drop m (suc n) (a ∷ l) =
      let e : suc n + m ≡ suc (n + m) = omega arith in rw e (drop-drop m n l)

  pub take-drop : (n : ℕ) (l : List A) → take n l ++ drop n l ≡ l
  take-drop zero l = refl
  take-drop (suc n) [] = refl
  take-drop (suc n) (a ∷ l) = ap (λ t. a ∷ t) (take-drop n l)

  pub drop-append : (n : ℕ) (k l : List A) → n ≤ length k → drop n (k ++ l) ≡ drop n k ++ l
  drop-append zero k l h = refl
  drop-append (suc n) [] l h = absurd (omega arith)
  drop-append (suc n) (a ∷ k) l h = drop-append n k l (omega arith)

  -- One round for each position is enough.
  pub windows-is_some :
      (fuel size step min_size : ℕ) (tokens : List A) (i : ℕ)
      → 0 < step
      → 0 < fuel
      → length tokens < i + fuel
      → is_some (windows fuel size step min_size tokens i) ≡ true
  unfolding windows
  windows-is_some zero size step min_size tokens i p q h = absurd (omega arith)
  windows-is_some (suc fuel) size step min_size tokens i p q h =
      ground (arith, windows-is_some fuel size step min_size tokens (i + step))

  abbrev pub IsWindow : ℕ → ℕ → List A → Type 0
  IsWindow size min_size slice = (min_size ≤ length slice) × (length slice ≤ size)

  pub windows-IsWindow :
      (fuel size step min_size : ℕ) (tokens : List A) (i : ℕ) (out : List (List A))
      → windows fuel size step min_size tokens i ≡ some out
      → All (IsWindow size min_size) out
  unfolding windows
  windows-IsWindow zero size step min_size tokens i out h = cc
  windows-IsWindow (suc fuel) size step min_size tokens i out h =
      elim (Bool-cases (leb (length tokens) i)) [
        | inl e ↦
            let q : ◌≡◌ {A = Option (List (List A))} (some []) (some out) = ground (arith, h, e) in
            subst (All (IsWindow size min_size)) (same_some q) tt
        | inr e ↦ elim (Bool-cases (ltb (length (take size (drop i tokens))) min_size)) [
          | inl f ↦
              let q : ◌≡◌ {A = Option (List (List A))} (some []) (some out) =
                ground (arith, h, e, f) in
              subst (All (IsWindow size min_size)) (same_some q) tt
          | inr f ↦
              let fits : IsWindow size min_size (take size (drop i tokens)) =
                (ground arith, length-take-le size (drop i tokens)) in
              elim (Bool-cases (leb (length tokens) (i + size))) [
                | inl g ↦
                    let q : ◌≡◌ {A = Option (List (List A))} (some (take size (drop i tokens) ∷ []))
                        (some out) =
                      ground (arith, h, e, f, g) in
                    subst (All (IsWindow size min_size)) (same_some q) (fits, tt)
                | inr g ↦
                    let (more, p, q) =
                      >>=-eq-some (windows fuel size step min_size tokens (i + step))
                        (λ more. some (take size (drop i tokens) ∷ more))
                        (ground (arith, h, e, f, g)) in
                    subst (All (IsWindow size min_size)) (same_some q)
                      (fits, windows-IsWindow fuel size step min_size tokens (i + step) more p)
              ]
        ]
      ]
