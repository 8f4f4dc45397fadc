-- ===== src/Coverage/Laws.antt =====
-- Which rules cover a technique, in full and in part.
use fragchain_core.Prelude.{
  ℕ, String, Bool, true, false, not, ◌&&◌, ◌||◌, any, str_eq, List, [], ◌∷◌, ◌++◌, ◌==◌,
  if◌then◌else◌, ◌≡◌, refl, ap, arith, sym, ◌∙◌, eq_iff, ==_iff, Bool-cases, inl, inr,
}
use fragchain_core.Embargo.Release.{one_of}
use fragchain_core.Coverage.Matches.{names, is_verified, is_demoted, one_of-tag_matches}
use fragchain_core.Coverage.{
  is_empty, phase2_input, VerifyOutcome, ChainTtp, CveScores, Found, TagMatches, tag_matches,
  verdicts_of, bucket, extend_covering, extend_partial, covering_rules, partial_rules, status_of,
  technique_status,
}

one_of-append : (l m : List ℕ) (r : ℕ) → one_of (l ++ m) r ≡ (one_of l r || one_of m r)
unfolding one_of
one_of-append [] m r = refl
one_of-append (x ∷ l) m r = ground (arith, one_of-append l m r)

one_of-same : (l : List ℕ) (r x : ℕ) → (r == x) ≡ true → one_of l r ≡ one_of l x
one_of-same l r x h = ap (one_of l) ((==_iff r x).0 h)

-- A rule is added unless it is there.
one_of-added :
    (l : List ℕ) (x r : ℕ)
    → one_of (if one_of l x then l else l ++ (x ∷ [])) r ≡ (one_of l r || r == x)
unfolding one_of
one_of-added l x r = elim (Bool-cases (r == x)) [
  | inl same ↦ ground (arith, one_of-same l r x same, one_of-append l (x ∷ []) r)
  | inr other ↦ ground (arith, one_of-append l (x ∷ []) r)
]

one_of-added_unless :
    (covering l : List ℕ) (x r : ℕ)
    → one_of (if not (one_of covering x) && not (one_of l x) then l ++ (x ∷ []) else l) r
      ≡ (one_of l r || (r == x && not (one_of covering r)))
unfolding one_of
one_of-added_unless covering l x r = elim (Bool-cases (r == x)) [
  | inl same ↦
      ground
        (arith, one_of-same l r x same, one_of-same covering r x same, one_of-append l (x ∷ []) r)
  | inr other ↦ ground (arith, one_of-append l (x ∷ []) r)
]

one_of-extend_covering :
    (covering rules : List ℕ) (r : ℕ)
    → one_of (extend_covering covering rules) r ≡ (one_of covering r || one_of rules r)
unfolding extend_covering
one_of-extend_covering covering [] r = ground arith
one_of-extend_covering covering (x ∷ rules) r = ground (
  arith,
  one_of-extend_covering (if one_of covering x then covering else covering ++ (x ∷ [])) rules r,
  one_of-added covering x r,
)

one_of-extend_partial :
    (covering l rules : List ℕ) (r : ℕ)
    → one_of (extend_partial covering l rules) r
      ≡ (one_of l r || (one_of rules r && not (one_of covering r)))
unfolding extend_partial
one_of-extend_partial covering l [] r = ground arith
one_of-extend_partial covering l (x ∷ rules) r = ground (
  arith,
  one_of-extend_partial covering
      (if not (one_of covering x) && not (one_of l x) then l ++ (x ∷ []) else l) rules r,
  one_of-added_unless covering l x r,
)

-- Whether a verdict on a technique names a rule.
abbrev pub has_verdict : List VerifyOutcome → String → String → ℕ → Bool
has_verdict verdicts tid verdict r =
    any
      (λ (v : VerifyOutcome).
        (str_eq v.technique_id tid && str_eq v.verdict verdict) && r == v.rule_id)
      verdicts

-- A rule covers a technique: it has the tag, the verification is on and keeps it, or the semantic search
-- found it and its verdict is `yes`.
unfoldable pub covers : Found → List ChainTtp → ChainTtp → ℕ → Bool
unfolding is_verified verdicts_of
covers f ttps ttp r =
    (f.verify_on && is_verified f ttp r)
    || has_verdict (verdicts_of f ttps) ttp.technique_id "yes" r

-- Or half covers it: demoted, or found with the verdict `partial`.
unfoldable pub half_covers : Found → List ChainTtp → ChainTtp → ℕ → Bool
unfolding is_demoted verdicts_of
half_covers f ttps ttp r =
    (f.verify_on && is_demoted f ttp r)
    || has_verdict (verdicts_of f ttps) ttp.technique_id "partial" r

one_of-bucket :
    (tid verdict : String) (verdicts : List VerifyOutcome) (r : ℕ)
    → one_of (bucket tid verdict verdicts) r ≡ has_verdict verdicts tid verdict r
unfolding bucket one_of
one_of-bucket tid verdict [] r = refl
one_of-bucket tid verdict (v ∷ verdicts) r = ground (arith, one_of-bucket tid verdict verdicts r)

one_of-seed :
    (verify_on : Bool) (rules : List ℕ) (r : ℕ)
    → one_of (if verify_on then rules else []) r ≡ (verify_on && one_of rules r)
unfolding one_of
one_of-seed false rules r = refl
one_of-seed true rules r = refl

one_of-covering_rules :
    (f : Found) (m : TagMatches) (verdicts : List VerifyOutcome) (tid : String) (r : ℕ)
    → one_of (covering_rules f m verdicts tid) r
      ≡ ((f.verify_on && one_of (m.phase1 tid) r) || has_verdict verdicts tid "yes" r)
unfolding covering_rules
one_of-covering_rules f m verdicts tid r = cc (
  one_of-extend_covering (if f.verify_on then m.phase1 tid else []) (bucket tid "yes" verdicts) r,
  one_of-seed f.verify_on (m.phase1 tid) r,
  one_of-bucket tid "yes" verdicts r,
)

one_of-partial_rules :
    (f : Found) (m : TagMatches) (verdicts : List VerifyOutcome) (tid : String) (r : ℕ)
    → one_of (partial_rules f m verdicts tid) r ≡ (
        (one_of (m.phase1_5_partial tid) r || has_verdict verdicts tid "partial" r)
        && not (one_of (covering_rules f m verdicts tid) r))
unfolding partial_rules one_of
one_of-partial_rules f m verdicts tid r =
    let covering = covering_rules f m verdicts tid in
    ground (
      arith,
      one_of-extend_partial covering (extend_partial covering [] (m.phase1_5_partial tid))
          (bucket tid "partial" verdicts) r,
      one_of-extend_partial covering [] (m.phase1_5_partial tid) r,
      one_of-bucket tid "partial" verdicts r,
    )

none_demoted :
    (f : Found) (ttps : List ChainTtp) (tid : String)
    → f.verify_on ≡ false
    → (tag_matches f ttps).phase1_5_partial tid ≡ []
unfolding tag_matches
none_demoted f ttps tid off = simp off refl

-- The two lists, as the verification leaves them or does not look at them.
sources :
    (f : Found) (before after : List ChainTtp) (ttp : ChainTtp) (r : ℕ)
    → str_eq ttp.technique_id "" ≡ false
    → names ttp.technique_id before ≡ false
    → names ttp.technique_id after ≡ false
    → let m = tag_matches f (before ++ (ttp ∷ after)) in
      ((f.verify_on && one_of (m.phase1 ttp.technique_id) r) ≡ (f.verify_on && is_verified f ttp r))
      × (one_of (m.phase1_5_partial ttp.technique_id) r ≡ (f.verify_on && is_demoted f ttp r))
unfolding one_of
sources f before after ttp r named no_before no_after = elim (Bool-cases f.verify_on) [
  | inl on ↦
      let (kept, demoted) = one_of-tag_matches f before after ttp r named no_before no_after on in
      (cc, cc)
  | inr off ↦
      let none_left = none_demoted f (before ++ (ttp ∷ after)) ttp.technique_id off in (cc, cc)
]

none_named :
    (covering l : List ℕ) (r : ℕ)
    → status_of covering l ≡ "gap"
    → (one_of covering r ≡ false) × (one_of l r ≡ false)
unfolding one_of
none_named [] [] r h = (refl, refl)
none_named [] (x ∷ l) r h = cc
none_named (x ∷ covering) l r h = cc

has_rule : (l : List ℕ) (r : ℕ) → one_of l r ≡ true → is_empty l ≡ false
unfolding one_of
has_rule [] r h = cc
has_rule (x ∷ l) r h = refl

-- A technique with a rule left is not searched for when the verification is on.
names-phase2_input :
    (f : Found) (m : TagMatches) (tid : String) (ttps : List ChainTtp)
    → f.verify_on ≡ true
    → is_empty (m.phase1 tid) ≡ false
    → names tid (phase2_input f m ttps) ≡ false
unfolding phase2_input
names-phase2_input f m tid [] on left = refl
names-phase2_input f m tid (t ∷ ttps) on left =
    let rest = names-phase2_input f m tid ttps on left in
    elim (Bool-cases (str_eq tid t.technique_id)) [
      | inl same ↦
          let left_here =
            ap (λ x. is_empty (m.phase1 x)) (sym ((eq_iff tid t.technique_id).0 same)) ∙ left in
          ground (arith, rest, on, left_here)
      | inr other ↦ ground (arith, rest, other)
    ]

-- For a technique that the chain names once: the rules that cover it are, when the verification is on,
-- those with its tag whose verdict is `yes` (all of them if there is no provider), and those with a
-- verdict `yes` of the search; the rules that half cover it are, when the verification is on and there
-- is a provider, those with its tag whose verdict is `partial`, and those with a verdict `partial` of
-- the search, if they do not cover it; for a technique that is a gap there is no such rule; and when the
-- verification is on, a technique with a tagged rule that it keeps is not searched for.
pub technique_status-rules :
    (cve_id : ℕ) (cve : CveScores) (f : Found) (before after : List ChainTtp) (ttp : ChainTtp)
    (r : ℕ)
    → str_eq ttp.technique_id "" ≡ false
    → names ttp.technique_id before ≡ false
    → names ttp.technique_id after ≡ false
    → let ttps = before ++ (ttp ∷ after) in
      let status = technique_status cve_id cve f ttps ttp in
      (one_of status.covering_rule_ids r ≡ covers f ttps ttp r)
      × (one_of status.partial_rule_ids r ≡ (half_covers f ttps ttp r && not (covers f ttps ttp r)))
      × (status.coverage_status ≡ "gap" → (covers f ttps ttp r || half_covers f ttps ttp r) ≡ false)
      × (f.verify_on ≡ true
          → is_verified f ttp r ≡ true
          → names ttp.technique_id (phase2_input f (tag_matches f ttps) ttps) ≡ false)
unfolding technique_status covers half_covers
technique_status-rules cve_id cve f before after ttp r named no_before no_after =
    let ttps = before ++ (ttp ∷ after) in
    let tid = ttp.technique_id in
    let m = tag_matches f ttps in
    let verdicts = verdicts_of f ttps in
    let (kept, demoted) = sources f before after ttp r named no_before no_after in
    let covered = one_of-covering_rules f m verdicts tid r in
    let half = one_of-partial_rules f m verdicts tid r in
    (
      cc,
      cc,
      λ gap.
          let (no_cover, no_half) =
            none_named (covering_rules f m verdicts tid) (partial_rules f m verdicts tid) r gap in
          ground (arith, covered, half, no_cover, no_half, kept, demoted),
      λ on verified.
          let m = tag_matches f ttps in
          let (in_kept, in_demoted) =
            one_of-tag_matches f before after ttp r named no_before no_after on in
          names-phase2_input f m tid ttps on (has_rule (m.phase1 tid) r (in_kept ∙ verified)),
    )
