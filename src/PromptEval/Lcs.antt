-- ===== src/PromptEval/Lcs.antt =====
-- The table of `_lcs_ratio` gives the length of a longest common subsequence.
use fragchain_core.Prelude.{
  ℕ, String, true, false, List, [], ◌∷◌, ◌+◌, ◌≤◌, max, length, str_eq, eq_iff, leb, if◌then◌else◌,
  ◌⊎◌, ◌≡◌, refl, sym, ap, ◌∙◌, subst, arith, Bool-cases, inl, inr,
}
use fragchain_core.PromptEval.{lcs_cells, zeros, lcs_rows, last_cell, lcs_len}

-- The recursive definition.
unfoldable pub lcs : List String → List String → ℕ
lcs [] ys = 0
lcs (x ∷ xs) [] = 0
lcs (x ∷ xs) (y ∷ ys) =
    let both = lcs xs ys + 1 in
    let one = max (lcs xs (y ∷ ys)) (lcs (x ∷ xs) ys) in if str_eq x y then both else one

lcs-nil : (xs : List String) → lcs xs [] ≡ 0
unfolding lcs
lcs-nil [] = refl
lcs-nil (x ∷ xs) = refl

-- The row of the table for a prefix: the prefixes are read backwards.
row : List String → List String → List String → List ℕ
row xs seen [] = lcs xs seen ∷ []
row xs seen (y ∷ ys) = lcs xs seen ∷ row xs (y ∷ seen) ys

-- All but the first cell.
later_cells : List String → List String → List String → List ℕ
unfolding row
later_cells xs seen [] = []
later_cells xs seen (y ∷ ys) = row xs (y ∷ seen) ys

cells-eq-row :
    (x : String) (xs seen ys : List String)
    → lcs_cells x ys (row xs seen ys) (lcs (x ∷ xs) seen) ≡ later_cells (x ∷ xs) seen ys
unfolding lcs_cells row later_cells lcs
cells-eq-row x xs seen [] = refl
cells-eq-row x xs seen (y ∷ []) = refl
cells-eq-row x xs seen (y ∷ z ∷ ys) =
    ap (λ r. lcs (x ∷ xs) (y ∷ seen) ∷ r) (cells-eq-row x xs (y ∷ seen) (z ∷ ys))

-- A list, reversed onto another.
onto : List String → List String → List String
onto [] ys = ys
onto (x ∷ xs) ys = onto xs (x ∷ ys)

zeros-eq-row : (seen ys : List String) → zeros ys ≡ row [] seen ys
unfolding zeros row lcs
zeros-eq-row seen [] = refl
zeros-eq-row seen (y ∷ ys) = ap (λ r. 0 ∷ r) (zeros-eq-row (y ∷ seen) ys)

next_row :
    (x : String) (xs ys : List String) → 0 ∷ lcs_cells x ys (row xs [] ys) 0 ≡ row (x ∷ xs) [] ys
unfolding row later_cells lcs lcs_cells
next_row x xs [] = refl
next_row x xs (y ∷ ys) = ap (λ r. 0 ∷ r) (cells-eq-row x xs [] (y ∷ ys))

rows-eq-row :
    (truth predicted xs : List String)
    → lcs_rows truth predicted (row xs [] predicted) ≡ row (onto truth xs) [] predicted
unfolding lcs_rows onto
rows-eq-row [] predicted xs = refl
rows-eq-row (x ∷ truth) predicted xs =
    ap (lcs_rows truth predicted) (next_row x xs predicted) ∙ rows-eq-row truth predicted (x ∷ xs)

last_cell-row : (xs seen ys : List String) → last_cell (row xs seen ys) ≡ lcs xs (onto ys seen)
unfolding last_cell row onto
last_cell-row xs seen [] = refl
last_cell-row xs seen (y ∷ []) = refl
last_cell-row xs seen (y ∷ z ∷ ys) = last_cell-row xs (y ∷ seen) (z ∷ ys)

lcs_len-eq-lcs :
    (truth predicted : List String)
    → lcs_len truth predicted ≡ lcs (onto truth []) (onto predicted [])
unfolding lcs_len
lcs_len-eq-lcs truth predicted =
    ap (λ r. last_cell (lcs_rows truth predicted r)) (zeros-eq-row [] predicted)
    ∙ ap last_cell (rows-eq-row truth predicted [])
    ∙ last_cell-row (onto truth []) [] predicted

-- `xs` is a subsequence of `ys`.
pub data Subsequence : List String → List String → Type 0 where
  done : Subsequence [] []
  skip : (y : String) {xs ys : List String} → Subsequence xs ys → Subsequence xs (y ∷ ys)
  keep : (y : String) {xs ys : List String} → Subsequence xs ys → Subsequence (y ∷ xs) (y ∷ ys)

nil-Subsequence : (ys : List String) → Subsequence [] ys
nil-Subsequence [] = done
nil-Subsequence (y ∷ ys) = skip y (nil-Subsequence ys)

tail-Subsequence : {a : String} {c ys : List String} → Subsequence (a ∷ c) ys → Subsequence c ys
tail-Subsequence (skip y s) = skip y (tail-Subsequence s)
tail-Subsequence (keep y s) = skip y s

onto-Subsequence :
    {c xs d ys : List String}
    → Subsequence c xs
    → Subsequence d ys
    → Subsequence (onto c d) (onto xs ys)
unfolding onto
onto-Subsequence done t = t
onto-Subsequence (skip y s) t = onto-Subsequence s (skip y t)
onto-Subsequence (keep y s) t = onto-Subsequence s (keep y t)

-- How a nonempty subsequence begins.
begins :
    {a y : String} {c ys : List String}
    → Subsequence (a ∷ c) (y ∷ ys)
    → Subsequence (a ∷ c) ys ⊎ ((a ≡ y) × Subsequence c ys)
begins (skip y s) = inl s
begins (keep y s) = inr (refl, s)

rest-Subsequence :
    {a y : String} {c ys : List String} → Subsequence (a ∷ c) (y ∷ ys) → Subsequence c ys
rest-Subsequence (skip y s) = tail-Subsequence s
rest-Subsequence (keep y s) = s

length-onto : (xs ys : List String) → length (onto xs ys) ≡ length xs + length ys
unfolding onto
length-onto [] ys = omega arith
length-onto (x ∷ xs) ys = omega (arith, length-onto xs (x ∷ ys))

onto-onto : (xs ys : List String) → onto (onto xs ys) [] ≡ onto ys xs
unfolding onto
onto-onto [] ys = refl
onto-onto (x ∷ xs) ys = onto-onto xs (x ∷ ys)

-- The cell when the two techniques differ.
lcs-differ :
    (x : String) (xs : List String) (y : String) (ys : List String)
    → str_eq x y ≡ false
    → lcs (x ∷ xs) (y ∷ ys) ≡ max (lcs xs (y ∷ ys)) (lcs (x ∷ xs) ys)
unfolding lcs
lcs-differ x xs y ys h = rw h

lcs-same :
    (x : String) (xs : List String) (y : String) (ys : List String)
    → str_eq x y ≡ true
    → lcs (x ∷ xs) (y ∷ ys) ≡ lcs xs ys + 1
unfolding lcs
lcs-same x xs y ys h = rw h

-- No common subsequence is longer.
length-le-lcs : (xs ys c : List String) → Subsequence c xs → Subsequence c ys → length c ≤ lcs xs ys
length-le-lcs xs ys [] s t = omega arith
length-le-lcs [] ys (a ∷ c) s t = elim s [ ]
length-le-lcs (x ∷ xs) [] (a ∷ c) s t = elim t [ ]
length-le-lcs (x ∷ xs) (y ∷ ys) (a ∷ c) s t = elim (Bool-cases (str_eq x y)) [
  | inl same ↦ omega (
    arith,
    lcs-same x xs y ys same,
    length-le-lcs xs ys c (rest-Subsequence s) (rest-Subsequence t),
  )
  | inr differ ↦ elim (begins s) [
    | inl s' ↦ omega (arith, lcs-differ x xs y ys differ, length-le-lcs xs (y ∷ ys) (a ∷ c) s' t)
    | inr (first, s') ↦ elim (begins t) [
      | inl t' ↦ omega (arith, lcs-differ x xs y ys differ, length-le-lcs (x ∷ xs) ys (a ∷ c) s t')
      | inr (second, t') ↦ ground (arith, eq_iff x y)
    ]
  ]
]

-- A common subsequence of that length.
abbrev Common : List String → List String → ℕ → Type 0
Common xs ys n = (c : List String) × Subsequence c xs × Subsequence c ys × (length c ≡ n)

larger :
    (x y : String) (xs ys : List String) (m n : ℕ)
    → Common xs (y ∷ ys) m
    → Common (x ∷ xs) ys n
    → Common (x ∷ xs) (y ∷ ys) (max m n)
larger x y xs ys m n (c, s, t, e) (d, u, v, f) = elim (Bool-cases (leb m n)) [
  | inl le ↦ (d, u, skip y v, ground arith)
  | inr gt ↦ (c, skip x s, t, ground arith)
]

lcs-Common : (xs ys : List String) → Common xs ys (lcs xs ys)
unfolding lcs
lcs-Common [] ys = ([], done, nil-Subsequence ys, refl)
lcs-Common (x ∷ xs) [] = ([], nil-Subsequence (x ∷ xs), done, refl)
lcs-Common (x ∷ xs) (y ∷ ys) = elim (Bool-cases (str_eq x y)) [
  | inl same ↦
      let (c, s, t, e) = lcs-Common xs ys in
      (
        x ∷ c,
        keep x s,
        subst (λ z. Subsequence (x ∷ c) (z ∷ ys)) ((eq_iff x y).0 same) (keep x t),
        omega (arith, lcs-same x xs y ys same, e),
      )
  | inr differ ↦ subst (Common (x ∷ xs) (y ∷ ys)) (sym (lcs-differ x xs y ys differ)) (
      larger x y xs ys (lcs xs (y ∷ ys)) (lcs (x ∷ xs) ys) (lcs-Common xs (y ∷ ys))
        (lcs-Common (x ∷ xs) ys))
]

-- The table's last cell is the length of a longest common subsequence of the two lists: none is
-- longer, and there is one of that length.
pub lcs_len-longest :
    (truth predicted : List String)
    → ((c : List String)
        → Subsequence c truth
        → Subsequence c predicted
        → length c ≤ lcs_len truth predicted)
      × ((c : List String) × Subsequence c truth
          × Subsequence c predicted
          × (length c ≡ lcs_len truth predicted))
unfolding onto
lcs_len-longest truth predicted =
    let e = lcs_len-eq-lcs truth predicted in
    let (c, s, t, f) = lcs-Common (onto truth []) (onto predicted []) in
    (
      λ d u v. omega (
        arith,
        e,
        length-onto d [],
        length-le-lcs (onto truth []) (onto predicted []) (onto d []) (onto-Subsequence u done)
            (onto-Subsequence v done),
      ),
      (
        onto c [],
        subst (Subsequence (onto c [])) (onto-onto truth []) (onto-Subsequence s done),
        subst (Subsequence (onto c [])) (onto-onto predicted []) (onto-Subsequence t done),
        omega (arith, e, f, length-onto c []),
      ),
    )
