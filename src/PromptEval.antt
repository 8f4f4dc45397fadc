-- ===== src/PromptEval.antt =====
-- prompts/eval.py: the scores of a benchmark case. A ratio is a numerator over a denominator.
pub mod Lcs
use fragchain_core.Prelude.{
  ℕ, suc, String, Bool, true, false, not, ◌&&◌, List, [], ◌∷◌, ◌++◌, ◌+◌, max, any, select, length,
  str_eq, if◌then◌else◌,
}

pub record Ratio : Type 0 where
  pub numerator : ℕ
  pub denominator : ℕ

abbrev pub ratio : ℕ → ℕ → Ratio
ratio n d = record { numerator = n; denominator = d }

abbrev pub contains : List String → String → Bool
contains l x = any (λ y. str_eq x y) l

-- set(l), by first occurrence
unfoldable pub distinct : List String → List String
distinct [] = []
distinct (x ∷ l) = let rest = distinct l in x ∷ select (λ y. not (str_eq x y)) rest

abbrev pub is_empty : List String → Bool
is_empty [] = true
is_empty (x ∷ l) = false

unfoldable pub jaccard : List String → List String → Ratio
unfolding distinct
jaccard truth predicted =
    let t = distinct truth in
    let p = distinct predicted in
    if is_empty t && is_empty p
    then ratio 1 1
    else ratio (length (select (contains p) t)) (length (distinct (t ++ p)))

-- dp[i][1], dp[i][2], …, from dp[i - 1] and the cell at the left.
unfoldable pub lcs_cells : String → List String → List ℕ → ℕ → List ℕ
lcs_cells x [] above left = []
lcs_cells x (y ∷ ys) [] left = []
lcs_cells x (y ∷ ys) (diagonal ∷ []) left = []
lcs_cells x (y ∷ ys) (diagonal ∷ up ∷ above) left =
    let cell = if str_eq x y then diagonal + 1 else max up left in
    cell ∷ lcs_cells x ys (up ∷ above) cell

-- [0] * (n + 1)
unfoldable pub zeros : List String → List ℕ
zeros [] = 0 ∷ []
zeros (y ∷ ys) = 0 ∷ zeros ys

-- The rows of `dp`, one for each technique of the truth; the last one is left.
unfoldable pub lcs_rows : List String → List String → List ℕ → List ℕ
unfolding lcs_cells
lcs_rows [] predicted above = above
lcs_rows (x ∷ truth) predicted above = lcs_rows truth predicted (0 ∷ lcs_cells x predicted above 0)

unfoldable pub last_cell : List ℕ → ℕ
last_cell [] = 0
last_cell (c ∷ []) = c
last_cell (c ∷ d ∷ row) = last_cell (d ∷ row)

-- dp[m][n]
unfoldable pub lcs_len : List String → List String → ℕ
unfolding lcs_rows zeros last_cell
lcs_len truth predicted = last_cell (lcs_rows truth predicted (zeros predicted))

unfoldable pub lcs_ratio : List String → List String → Ratio
unfolding lcs_len
lcs_ratio truth predicted =
    if is_empty truth && is_empty predicted
    then ratio 1 1
    else if not (not (is_empty truth) && not (is_empty predicted))
    then ratio 0 1
    else ratio (lcs_len truth predicted) (max (length truth) (length predicted))

unfoldable pub hallucinations : List String → List String → ℕ
hallucinations truth predicted = length (select (λ p. not (contains truth p)) predicted)
