-- ===== src/Tlp/Order.antt =====
-- What `max_tlp` returns: the least upper bound of its levels, the same in whatever order and in
-- however many stages it is taken.
use mathlib.Core.Logic.{∥∥₁_elim}
use mathlib.Core.List.{Perm, Permᴰ}
use fragchain_core.Prelude.{
  ◌≤◌, ◌≡◌, refl, ap, sym, ◌∙◌, ◌↔◌, inl, inr, Bool, true, not, ◌||◌, Option, none, some, List, [],
  ◌∷◌, ◌++◌, arith, ltb, if◌then◌else◌, any, All, is_some, ◌>>=◌, Option-cases,
}
use fragchain_core.Tlp.{
  Level, clear, restriction_level, Value, level, parse, parse_all, greatest, greatest_of, max_tlp,
}

abbrev pub join : Level → Level → Level
join a b = if ltb (restriction_level a) (restriction_level b) then b else a

join_comm : (a b : Level) → join a b ≡ join b a
join_comm a b = ground arith

join_assoc : (a b c : Level) → join (join a b) c ≡ join a (join b c)
join_assoc a b c = ground arith

greatest-join : (ts : List Level) (a b : Level) → greatest (join a b) ts ≡ join a (greatest b ts)
unfolding greatest
greatest-join [] a b = refl
greatest-join (t ∷ ts) a b = cc (join_assoc a b t, greatest-join ts a (join b t))

greatest_of-cons : (t : Level) (ts : List Level) → greatest_of (t ∷ ts) ≡ join t (greatest_of ts)
unfolding greatest
greatest_of-cons t [] = ground arith
greatest_of-cons t (u ∷ ts) = greatest-join ts t u

-- One more value is one more join; the bottom level stands for no value at all.
max_tlp-cons :
    (v : Value) (vs : List Value)
    → max_tlp (v ∷ vs) ≡ (parse v >>= λ t. max_tlp vs >>= λ m. some (join t m))
unfolding max_tlp
max_tlp-cons v vs = elim (Option-cases (parse v)) [
  | inl e ↦ rw e
  | inr (t, e) ↦ elim (Option-cases (parse_all vs)) [
    | inl f ↦ rw (e, f)
    | inr (ts, f) ↦ rw (e, f) (ap some (greatest_of-cons t ts))
  ]
]

joined : Option Level → Option Level → Option Level
joined o p = o >>= λ t. p >>= λ m. some (join t m)

joined_assoc : (o p q : Option Level) → joined (joined o p) q ≡ joined o (joined p q)
unfolding joined
joined_assoc none p q = refl
joined_assoc (some a) none q = refl
joined_assoc (some a) (some b) none = refl
joined_assoc (some a) (some b) (some c) = ap some (join_assoc a b c)

joined_swap : (o p q : Option Level) → joined o (joined p q) ≡ joined p (joined o q)
unfolding joined
joined_swap none none q = refl
joined_swap none (some b) q = refl
joined_swap (some a) none q = refl
joined_swap (some a) (some b) none = refl
joined_swap (some a) (some b) (some c) =
    ap some (cc (join_assoc a b c, join_assoc b a c, join_comm a b))

max_tlp-joined : (v : Value) (vs : List Value) → max_tlp (v ∷ vs) ≡ joined (parse v) (max_tlp vs)
unfolding joined
max_tlp-joined = max_tlp-cons

max_tlp-permᴰ : {xs ys : List Value} → Permᴰ xs ys → max_tlp xs ≡ max_tlp ys
max_tlp-permᴰ Permᴰ.nil = refl
max_tlp-permᴰ (Permᴰ.cons {a = a} {b = b} {l₁ = xs} {l₂ = ys} e p) =
    cc (max_tlp-joined a xs, max_tlp-joined b ys, max_tlp-permᴰ p)
max_tlp-permᴰ (Permᴰ.swap {a = a} {b = b} {a' = c} {b' = d} {l = l} e f) = cc (
  max_tlp-joined a (b ∷ l),
  max_tlp-joined b l,
  max_tlp-joined c (d ∷ l),
  max_tlp-joined d l,
  joined_swap (parse a) (parse b) (max_tlp l),
)
max_tlp-permᴰ (Permᴰ.trans p q) = max_tlp-permᴰ p ∙ max_tlp-permᴰ q

result_set : IsSet (Option Level)
result_set = hlevel

-- The order of the arguments does not matter, unknown strings included: two lists that hold the
-- same values have the same result, or both raise.
max_tlp-perm : {xs ys : List Value} → Perm xs ys → max_tlp xs ≡ max_tlp ys
max_tlp-perm {xs} {ys} p = ∥∥₁_elim p (result_set (max_tlp xs) (max_tlp ys)) max_tlp-permᴰ

clear-join : (m : Level) → m ≡ join clear m
clear-join m = ground arith

max_tlp-append_joined : (xs ys : List Value) → max_tlp (xs ++ ys) ≡ joined (max_tlp xs) (max_tlp ys)
max_tlp-append_joined [] ys = elim (Option-cases (max_tlp ys)) [
  | inl e ↦ rw e (unfold max_tlp parse_all joined in refl)
  | inr (m, e) ↦ rw e (unfold max_tlp parse_all joined in ap some (clear-join m))
]
max_tlp-append_joined (x ∷ xs) ys = cc (
  max_tlp-joined x (xs ++ ys),
  max_tlp-joined x xs,
  max_tlp-append_joined xs ys,
  joined_assoc (parse x) (max_tlp xs) (max_tlp ys),
)

joined_pair :
    (o p : Option Level) → joined o p ≡ (o >>= λ a. p >>= λ b. max_tlp (level a ∷ level b ∷ []))
unfolding joined max_tlp parse parse_all greatest
joined_pair none p = refl
joined_pair (some a) none = refl
joined_pair (some a) (some b) = refl

-- Propagation in stages agrees with one call: the maximum of two lists together is the maximum of
-- their two maxima, and it raises when either does.
pub max_tlp-append :
    (xs ys : List Value)
    → max_tlp (xs ++ ys)
      ≡ (max_tlp xs >>= λ a. max_tlp ys >>= λ b. max_tlp (level a ∷ level b ∷ []))
max_tlp-append xs ys = max_tlp-append_joined xs ys ∙ joined_pair (max_tlp xs) (max_tlp ys)

-- `v` names a level, at most as restrictive as `b`.
abbrev pub IsBelow : Level → Value → Type 0
IsBelow b v = (t : Level) × (parse v ≡ some t) × (restriction_level t ≤ restriction_level b)

join_upper :
    (a b c : Level)
    → (restriction_level (join a b) ≤ restriction_level c)
      ↔ ((restriction_level a ≤ restriction_level c) × (restriction_level b ≤ restriction_level c))
join_upper a b c = ground arith

-- What an `inr`-less inversion of `joined` gives.
joined-eq-some :
    (o p : Option Level) {m : Level}
    → joined o p ≡ some m
    → (a : Level) × (b : Level) × (o ≡ some a) × (p ≡ some b) × (join a b ≡ m)
unfolding joined
joined-eq-some none p h = cc
joined-eq-some (some a) none h = cc
joined-eq-some (some a) (some b) h = (a, b, refl, refl, cc)

same_level : {x t : Level} → some x ≡ some t → x ≡ t
same_level h = cc

max_tlp-le :
    (vs : List Value) (b : Level) {m : Level}
    → max_tlp vs ≡ some m
    → All (IsBelow b) vs
    → restriction_level m ≤ restriction_level b
unfolding max_tlp parse_all
max_tlp-le [] b h k = ground arith
max_tlp-le (v ∷ vs) b h ((t, named, below), k) =
    let (x, y, p, q, r) = joined-eq-some (parse v) (max_tlp vs) (sym (max_tlp-joined v vs) ∙ h) in
    let first = rw (same_level (sym named ∙ p)) at below in
    rw (← r) ((join_upper x y b).1 (first, max_tlp-le vs b q k))

max_tlp-upper :
    (vs : List Value) (b : Level) {m : Level}
    → max_tlp vs ≡ some m
    → restriction_level m ≤ restriction_level b
    → All (IsBelow b) vs
max_tlp-upper [] b h k = tt
max_tlp-upper (v ∷ vs) b h k =
    let (x, y, p, q, r) = joined-eq-some (parse v) (max_tlp vs) (sym (max_tlp-joined v vs) ∙ h) in
    let both = (join_upper x y b).0 (rw r k) in ((x, p, both.0), max_tlp-upper vs b q both.1)

-- `max_tlp` is the least upper bound: a level is at least as restrictive as the result exactly
-- when every value names a level that it is at least as restrictive as.
pub max_tlp-lub :
    (vs : List Value) (m b : Level)
    → max_tlp vs ≡ some m
    → (restriction_level m ≤ restriction_level b) ↔ All (IsBelow b) vs
max_tlp-lub vs m b h = (max_tlp-upper vs b h, max_tlp-le vs b h)

joined-eq-none :
    (o p : Option Level) (q : Bool)
    → (p ≡ none) ↔ (q ≡ true)
    → (joined o p ≡ none) ↔ ((not (is_some o) || q) ≡ true)
unfolding joined
joined-eq-none o p q h = ground arith

-- `max_tlp` raises exactly when one of its values is unknown to `parse`.
pub max_tlp-eq-none :
    (vs : List Value) → (max_tlp vs ≡ none) ↔ (any (λ v. not (is_some (parse v))) vs ≡ true)
unfolding max_tlp parse_all
max_tlp-eq-none [] = ground arith
max_tlp-eq-none (v ∷ vs) =
    rw max_tlp-joined (joined-eq-none (parse v) (max_tlp vs) _ (max_tlp-eq-none vs))
