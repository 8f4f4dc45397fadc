-- ===== src/Commons/Rank.antt =====
-- The order of the chains of the commons sources, by rule, against the comparison of the code.
use fragchain_core.Prelude.{
  ℕ, zero, suc, Bool, true, false, Option, none, some, codes, same_codes, ◌<◌, ◌==◌, ==_iff, ◌⊎◌,
  ◌≢◌, ◌↔◌, ap, sym, ◌∙◌, List, [], ◌∷◌, ◌≡◌, refl, arith, Bool-cases, inl, inr, subst,
}
use fragchain_core.Commons.{
  Text, ℤ, pos, negsuc, int_lt, int_eq, pair_lt, trust_rank, ChainRow, version_of, row_lt,
}

-- The order of the integers, by their signs.
abbrev pub Below : ℤ → ℤ → Type 0
Below (pos a) (pos b) = a < b
Below (pos a) (negsuc b) = ⊥
Below (negsuc a) (pos b) = Unit
Below (negsuc a) (negsuc b) = b < a

-- How far a level of trust is known: internal above partner above community above any other text.
pub data HasTrust (t : Text) : ℕ → Type 0 where
  is_internal : {n : ℕ} → n ≡ 3 → t ≡ codes "internal" → HasTrust t n
  is_partner : {n : ℕ} → n ≡ 2 → t ≡ codes "partner" → HasTrust t n
  is_community : {n : ℕ} → n ≡ 1 → t ≡ codes "community" → HasTrust t n
  is_unknown :
      {n : ℕ}
      → n ≡ 0
      → t ≢ codes "internal"
      → t ≢ codes "partner"
      → t ≢ codes "community"
      → HasTrust t n

-- The version of a row; one that is absent or zero counts as 1.
pub data HasVersion (o : Option ℤ) (v : ℤ) : Type 0 where
  missing : o ≡ none → v ≡ pos 1 → HasVersion o v
  zeroth : o ≡ some (pos 0) → v ≡ pos 1 → HasVersion o v
  given : o ≡ some v → v ≢ pos 0 → HasVersion o v

-- A row is not above another: by the priority of its source, then by its trust, then by the version.
pub data IsAtMost (r w : ChainRow) : Type 0 where
  by_priority : Below r.source.priority w.source.priority → IsAtMost r w
  by_trust :
      (m n : ℕ)
      → r.source.priority ≡ w.source.priority
      → HasTrust r.source.trust_level m
      → HasTrust w.source.trust_level n
      → m < n
      → IsAtMost r w
  by_version :
      (n : ℕ) (u v : ℤ)
      → r.source.priority ≡ w.source.priority
      → HasTrust r.source.trust_level n
      → HasTrust w.source.trust_level n
      → HasVersion r.version u
      → HasVersion w.version v
      → Below u v ⊎ (u ≡ v)
      → IsAtMost r w

int_lt-Below : (a b : ℤ) → int_lt a b ≡ true → Below a b
int_lt-Below (pos a) (pos b) h = ground arith
int_lt-Below (pos a) (negsuc b) h = cc
int_lt-Below (negsuc a) (pos b) h = tt
int_lt-Below (negsuc a) (negsuc b) h = ground arith

-- What is not below another is equal to it, or above it.
int_lt-cases : (a b : ℤ) → int_lt a b ≡ false → Below b a ⊎ ((a ≡ b) × (int_eq a b ≡ true))
int_lt-cases (pos a) (pos b) h = elim (Bool-cases (a == b)) [
  | inl e ↦ inr (ap pos ((==_iff a b).0 e), e)
  | inr e ↦ inl (ground (arith, e))
]
int_lt-cases (pos a) (negsuc b) h = inl tt
int_lt-cases (negsuc a) (pos b) h = cc
int_lt-cases (negsuc a) (negsuc b) h = elim (Bool-cases (a == b)) [
  | inl e ↦ inr (ap negsuc ((==_iff a b).0 e), e)
  | inr e ↦ inl (ground (arith, e))
]

-- The rank of the code, of how far a level of trust is known.
abbrev rank_at : ℕ → ℤ
rank_at zero = negsuc 0
rank_at (suc n) = pos n

pub same_codes_iff : (s t : List ℕ) → (same_codes s t ≡ true) ↔ (s ≡ t)
same_codes_iff [] [] = (λ h. refl, λ h. refl)
same_codes_iff [] (c ∷ t) = (λ h. cc, λ h. cc)
same_codes_iff (c ∷ s) [] = (λ h. cc, λ h. cc)
same_codes_iff (c ∷ s) (d ∷ t) = (
  λ h.
      let heads = (==_iff c d).0 (ground arith) in
      let tails = (same_codes_iff s t).0 (ground arith) in cc,
  λ h.
      let heads = (==_iff c d).1 (cc) in
      let tails = (same_codes_iff s t).1 (cc) in ground (arith, heads, tails),
)

differ : (s t : List ℕ) → same_codes s t ≡ false → s ≢ t
differ s t h e = let same = (same_codes_iff s t).1 e in cc

trust_known : (t : Text) → (n : ℕ) × HasTrust t n × (trust_rank t ≡ rank_at n)
unfolding trust_rank
trust_known t = elim (Bool-cases (same_codes t (codes "internal"))) [
  | inl a ↦ rw a (3, is_internal refl ((same_codes_iff t (codes "internal")).0 a), refl)
  | inr a ↦ elim (Bool-cases (same_codes t (codes "partner"))) [
    | inl b ↦ rw (a, b) (2, is_partner refl ((same_codes_iff t (codes "partner")).0 b), refl)
    | inr b ↦ elim (Bool-cases (same_codes t (codes "community"))) [
      | inl c ↦
          rw (a, b, c) (1, is_community refl ((same_codes_iff t (codes "community")).0 c), refl)
      | inr c ↦
          rw (a, b, c)
            (
              0,
              is_unknown refl (differ t (codes "internal") a) (differ t (codes "partner") b)
                  (differ t (codes "community") c),
              refl,
            )
    ]
  ]
]

not_zero : (n : ℕ) → (suc n == 0) ≡ false
not_zero n = ground arith

version_known : (o : Option ℤ) → HasVersion o (version_of o)
version_known none = missing refl refl
version_known (some (pos zero)) = zeroth refl refl
version_known (some (pos (suc n))) = rw (not_zero n) (given refl (λ e. cc))
version_known (some (negsuc n)) = given refl (λ e. cc)

rank_at-Below : (m n : ℕ) → Below (rank_at m) (rank_at n) → m < n
rank_at-Below zero zero h = omega (arith, h)
rank_at-Below zero (suc n) h = omega arith
rank_at-Below (suc m) zero h = absurd h
rank_at-Below (suc m) (suc n) h = omega (arith, h)

rank_at-same : (m n : ℕ) → rank_at m ≡ rank_at n → m ≡ n
rank_at-same zero zero h = refl
rank_at-same zero (suc n) h = cc
rank_at-same (suc m) zero h = cc
rank_at-same (suc m) (suc n) h = cc

pair_cases :
    (a b : ℤ) (rest : Bool)
    → pair_lt a b rest ≡ false
    → (int_lt a b ≡ false) × (int_eq a b ≡ true → rest ≡ false)
pair_cases a b rest h = ground arith

-- What the test of the code does not put above.
pub row_lt-IsAtMost : (w r : ChainRow) → row_lt w r ≡ false → IsAtMost r w
unfolding row_lt
row_lt-IsAtMost w r h =
    let (m, r_trust, r_rank) = trust_known r.source.trust_level in
    let (n, w_trust, w_rank) = trust_known w.source.trust_level in
    let (not_priority, rest) = pair_cases w.source.priority r.source.priority _ h in
    elim (int_lt-cases w.source.priority r.source.priority not_priority) [
      | inl below ↦ by_priority below
      | inr (same, eq) ↦
          let trusts = rest eq in
          let (not_trust, versions) =
            pair_cases (trust_rank w.source.trust_level) (trust_rank r.source.trust_level) _
              trusts in
          elim (int_lt-cases (trust_rank w.source.trust_level) (trust_rank r.source.trust_level)
            not_trust) [
              | inl below ↦
                  by_trust m n (sym same) r_trust w_trust
                    (rank_at-Below m n (rw (r_rank, w_rank) at below))
              | inr (same_rank, eq_rank) ↦
                  let level = rank_at-same n m (sym w_rank ∙ same_rank ∙ r_rank) in
                  let older : Below (version_of r.version) (version_of w.version)
                      ⊎ (version_of r.version ≡ version_of w.version) =
                    elim (int_lt-cases (version_of w.version) (version_of r.version)
                      (versions eq_rank)) [
                        | inl below ↦ inl below
                        | inr (same_version, e) ↦ inr (sym same_version)
                      ] in
                  by_version n (version_of r.version) (version_of w.version) (sym same)
                    (subst (HasTrust r.source.trust_level) (sym level) r_trust) w_trust
                    (version_known r.version) (version_known w.version) older
            ]
    ]
