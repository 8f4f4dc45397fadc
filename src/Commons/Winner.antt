-- ===== src/Commons/Winner.antt =====
-- The chain that wins among those of the commons sources.
use mathlib.Core.List.{Memᴰ}
use fragchain_core.Prelude.{
  Bool, true, false, some, List, [], ◌∷◌, if◌then◌else◌, skip_second, ◌≡◌, refl, arith, All,
  Bool-cases, inl, inr, same_some, subst,
}
use fragchain_core.Commons.Rank.{IsAtMost, row_lt-IsAtMost}
use fragchain_core.Commons.{
  ℤ, pos, negsuc, int_lt, int_eq, pair_lt, trust_rank, ChainRow, version_of, row_lt, greatest_row,
  select_winning_chain,
}

-- Neither is below the other, or the first is above.
int_lt_trans :
    (a b c : ℤ)
    → int_lt a b ≡ false
    → int_lt b c ≡ false
    → (int_lt a c ≡ false) × (int_eq a c ≡ true → (int_eq a b ≡ true) × (int_eq b c ≡ true))
int_lt_trans (pos a) (pos b) (pos c) h k = ground arith
int_lt_trans (pos a) (pos b) (negsuc c) h k = ground arith
int_lt_trans (pos a) (negsuc b) (pos c) h k = ground arith
int_lt_trans (pos a) (negsuc b) (negsuc c) h k = ground arith
int_lt_trans (negsuc a) (pos b) (pos c) h k = ground arith
int_lt_trans (negsuc a) (pos b) (negsuc c) h k = ground arith
int_lt_trans (negsuc a) (negsuc b) (pos c) h k = ground arith
int_lt_trans (negsuc a) (negsuc b) (negsuc c) h k = ground arith

pair_lt_trans :
    (a b c : ℤ) (ab bc ac : Bool)
    → (ab ≡ false → bc ≡ false → ac ≡ false)
    → pair_lt a b ab ≡ false
    → pair_lt b c bc ≡ false
    → pair_lt a c ac ≡ false
pair_lt_trans a b c ab bc ac rest h k = ground (arith, int_lt_trans a b c)

row_lt_trans : (a b c : ChainRow) → row_lt a b ≡ false → row_lt b c ≡ false → row_lt a c ≡ false
unfolding row_lt
row_lt_trans a b c h k =
    pair_lt_trans a.source.priority b.source.priority c.source.priority _ _ _
      (pair_lt_trans (trust_rank a.source.trust_level) (trust_rank b.source.trust_level)
        (trust_rank c.source.trust_level) _ _ _
        (λ i j.
          (int_lt_trans (version_of a.version) (version_of b.version) (version_of c.version) i
            j).0))
      h k

int_lt-asym :
    (a b : ℤ)
    → (int_lt a b ≡ true → int_lt b a ≡ false)
      × (int_eq a b ≡ true → int_lt b a ≡ false)
      × (int_eq b a ≡ int_eq a b)
int_lt-asym (pos a) (pos b) = ground arith
int_lt-asym (pos a) (negsuc b) = ground arith
int_lt-asym (negsuc a) (pos b) = ground arith
int_lt-asym (negsuc a) (negsuc b) = ground arith

pair_lt-asym :
    (a b : ℤ) (ab ba : Bool)
    → (ab ≡ true → ba ≡ false)
    → pair_lt a b ab ≡ true
    → pair_lt b a ba ≡ false
pair_lt-asym a b ab ba rest h = ground (arith, int_lt-asym a b)

row_lt-asym : (a b : ChainRow) → row_lt a b ≡ true → row_lt b a ≡ false
unfolding row_lt
row_lt-asym a b h =
    pair_lt-asym a.source.priority b.source.priority _ _
      (pair_lt-asym (trust_rank a.source.trust_level) (trust_rank b.source.trust_level) _ _
        (int_lt-asym (version_of a.version) (version_of b.version)).0)
      h

row_lt_irrefl : (a : ChainRow) → row_lt a a ≡ false
row_lt_irrefl a = elim (Bool-cases (row_lt a a)) [ inl lt ↦ row_lt-asym a a lt | inr ge ↦ ge ]

-- The better of two rows is below neither.
better-top :
    (best r : ChainRow)
    → (row_lt (if row_lt best r then r else best) best ≡ false)
      × (row_lt (if row_lt best r then r else best) r ≡ false)
better-top best r = elim (Bool-cases (row_lt best r)) [
  | inl lt ↦ rw lt (row_lt-asym best r lt, row_lt_irrefl r)
  | inr ge ↦ rw ge (row_lt_irrefl best, ge)
]

greatest_row-top :
    (best : ChainRow) (rows : List ChainRow)
    → All (λ r. row_lt (greatest_row best rows) r ≡ false) (best ∷ rows)
unfolding greatest_row
greatest_row-top best [] = (row_lt_irrefl best, tt)
greatest_row-top best (r ∷ rows) =
    let next = if row_lt best r then r else best in
    let top = greatest_row next rows in
    let (above, all) = greatest_row-top next rows in
    let step = better-top best r in
    (row_lt_trans top next best above step.0, (row_lt_trans top next r above step.1, all))

greatest_row-mem :
    (best : ChainRow) (rows : List ChainRow) → Memᴰ (greatest_row best rows) (best ∷ rows)
unfolding greatest_row
greatest_row-mem best [] = Memᴰ.head refl
greatest_row-mem best (r ∷ rows) = elim (Bool-cases (row_lt best r)) [
  | inl lt ↦ rw (lt, greatest_row) (Memᴰ.tail (greatest_row-mem r rows))
  | inr ge ↦ rw (ge, greatest_row) (skip_second (greatest_row-mem best rows))
]

All-map_each :
    {A : Type 0} {P Q : A → Type 0} → ((a : A) → P a → Q a) → (l : List A) → All P l → All Q l
All-map_each f [] u = tt
All-map_each f (a ∷ l) (p, ps) = (f a p, All-map_each f l ps)

-- The chain that is selected is one of the rows, and every row has a lower priority of its source; or
-- the same priority and a lower trust, where internal is above partner, partner above community, and
-- community above any other text; or the same priority and trust and no higher version, where a
-- version that is absent or zero counts as 1.
pub select_winning_chain-top :
    (rows : List ChainRow) (winner : ChainRow)
    → select_winning_chain rows ≡ some winner
    → Memᴰ winner rows × All (λ r. IsAtMost r winner) rows
unfolding select_winning_chain
select_winning_chain-top [] winner h = cc
select_winning_chain-top (r ∷ rows) winner h =
    subst (λ w. Memᴰ w (r ∷ rows) × All (λ s. IsAtMost s w) (r ∷ rows)) (same_some h)
      (
        greatest_row-mem r rows,
        All-map_each (row_lt-IsAtMost (greatest_row r rows)) (r ∷ rows) (greatest_row-top r rows),
      )
