-- ===== src/Coverage/Matches.antt =====
-- What phases 1 and 1.5 leave for a technique that the chain names once.
use fragchain_core.Prelude.{
  ℕ, String, Bool, true, false, not, ◌&&◌, ◌||◌, any, List, [], ◌∷◌, ◌++◌, ◌==◌, select, str_eq,
  eq_iff, if◌then◌else◌, ◌≡◌, refl, sym, ap, ◌∙◌, arith, ==_iff, Bool-cases, inl, inr,
}
use fragchain_core.Embargo.Release.{one_of}
use fragchain_core.Coverage.{
  ChainTtp, Found, TagMatches, set_key, is_empty, verify_tag_match, verify_ttp, verify_ttps,
  tag_matches,
}

-- Whether a chain names a technique.
abbrev pub names : String → List ChainTtp → Bool
names tid ttps = any (λ (t : ChainTtp). str_eq tid t.technique_id) ttps

-- The matches of two states for a technique are the same.
abbrev SameAt : String → TagMatches → TagMatches → Type 0
SameAt tid m n = (m.phase1 tid ≡ n.phase1 tid) × (m.phase1_5_partial tid ≡ n.phase1_5_partial tid)

unset :
    (tid key : String) (rules : List ℕ) (dict : String → List ℕ)
    → str_eq tid key ≡ false
    → set_key key rules dict tid ≡ dict tid
unset tid key rules dict h = rw h refl

verify_ttp_other :
    (f : Found) (tid : String) (ttp : ChainTtp) (m : TagMatches)
    → str_eq tid ttp.technique_id ≡ false
    → SameAt tid (verify_ttp f ttp m) m
unfolding verify_ttp
verify_ttp_other f tid ttp m h =
    let key = ttp.technique_id in
    let found = verify_tag_match f ttp (m.phase1 key) in by_cases (str_eq key "") (is_empty found.1)
  where
    by_cases :
        (blank none_found : Bool)
        → SameAt tid
            (if blank then m else record {
              phase1 =
                  set_key ttp.technique_id
                    (verify_tag_match f ttp (m.phase1 ttp.technique_id)).0
                    m.phase1;
              phase1_5_partial =
                  if none_found
                  then m.phase1_5_partial
                  else set_key ttp.technique_id
                      (verify_tag_match f ttp (m.phase1 ttp.technique_id)).1
                      m.phase1_5_partial;
            })
            m
    by_cases true b = (refl, refl)
    by_cases false true = (rw h refl, refl)
    by_cases false false = (rw h refl, rw h refl)

verify_ttps_other :
    (f : Found) (tid : String) (ttps : List ChainTtp) (m : TagMatches)
    → names tid ttps ≡ false
    → SameAt tid (verify_ttps f ttps m) m
unfolding verify_ttps
verify_ttps_other f tid [] m h = (refl, refl)
verify_ttps_other f tid (t ∷ ttps) m h =
    let (p, q) = verify_ttps_other f tid ttps (verify_ttp f t m) (ground arith) in
    let (r, s) = verify_ttp_other f tid t m (ground arith) in (p ∙ r, q ∙ s)

verify_ttps-append :
    (f : Found) (k l : List ChainTtp) (m : TagMatches)
    → verify_ttps f (k ++ l) m ≡ verify_ttps f l (verify_ttps f k m)
unfolding verify_ttps
verify_ttps-append f [] l m = refl
verify_ttps-append f (t ∷ k) l m = verify_ttps-append f k l (verify_ttp f t m)

empty_list : (l : List ℕ) → is_empty l ≡ true → l ≡ []
empty_list [] h = refl
empty_list (r ∷ l) h = cc

set_here :
    (key : String) (rules : List ℕ) (dict : String → List ℕ) → set_key key rules dict key ≡ rules
set_here key rules dict = rw ((eq_iff key key).1 refl) refl

verify_ttp_self :
    (f : Found) (ttp : ChainTtp) (m : TagMatches)
    → str_eq ttp.technique_id "" ≡ false
    → m.phase1_5_partial ttp.technique_id ≡ []
    → let found = verify_tag_match f ttp (m.phase1 ttp.technique_id) in
      ((verify_ttp f ttp m).phase1 ttp.technique_id ≡ found.0)
      × ((verify_ttp f ttp m).phase1_5_partial ttp.technique_id ≡ found.1)
unfolding verify_ttp
verify_ttp_self f ttp m named none_yet =
    let found = verify_tag_match f ttp (m.phase1 ttp.technique_id) in
    elim (Bool-cases (is_empty found.1)) [
      | inl e ↦
          rw (named, e)
            (set_here ttp.technique_id found.0 m.phase1, none_yet ∙ sym (empty_list found.1 e))
      | inr e ↦
          rw (named, e)
            (
              set_here ttp.technique_id found.0 m.phase1,
              set_here ttp.technique_id found.1 m.phase1_5_partial,
            )
    ]

-- The matches of a technique that is named once, from its rules with the tag.
matched_once :
    (f : Found) (before after : List ChainTtp) (ttp : ChainTtp) (m : TagMatches)
    → str_eq ttp.technique_id "" ≡ false
    → names ttp.technique_id before ≡ false
    → names ttp.technique_id after ≡ false
    → m.phase1_5_partial ttp.technique_id ≡ []
    → let found = verify_tag_match f ttp (m.phase1 ttp.technique_id) in
      let end = verify_ttps f (before ++ (ttp ∷ after)) m in
      (end.phase1 ttp.technique_id ≡ found.0) × (end.phase1_5_partial ttp.technique_id ≡ found.1)
unfolding verify_ttps
matched_once f before after ttp m named no_before no_after none_yet =
    let tid = ttp.technique_id in
    let start = verify_ttps f before m in
    let (same, no_partial) = verify_ttps_other f tid before m no_before in
    let (one, one_partial) = verify_ttp_self f ttp start named (no_partial ∙ none_yet) in
    let (rest, rest_partial) = verify_ttps_other f tid after (verify_ttp f ttp start) no_after in
    let split = verify_ttps-append f before (ttp ∷ after) m in
    (
      ap (λ (x : TagMatches). x.phase1 tid) split
          ∙ rest
          ∙ one
          ∙ ap (λ l. (verify_tag_match f ttp l).0) same,
      ap (λ (x : TagMatches). x.phase1_5_partial tid) split
          ∙ rest_partial
          ∙ one_partial
          ∙ ap (λ l. (verify_tag_match f ttp l).1) same,
    )

one_of-select : (p : ℕ → Bool) (l : List ℕ) (r : ℕ) → one_of (select p l) r ≡ (one_of l r && p r)
unfolding one_of
one_of-select p [] r = refl
one_of-select p (x ∷ l) r = elim (Bool-cases (r == x)) [
  | inl same ↦ ground (arith, one_of-select p l r, ap p ((==_iff r x).0 same))
  | inr other ↦ ground (arith, one_of-select p l r)
]

-- A rule with the tag that the verification keeps: there is no provider, or its verdict is `yes`.
unfoldable pub is_verified : Found → ChainTtp → ℕ → Bool
unfolding one_of
is_verified f ttp r =
    one_of (f.tagged ttp.technique_id) r
    && (not f.has_provider || str_eq (f.tag_verdict ttp r) "yes")

-- A rule with the tag that the verification demotes: its verdict is `partial`.
unfoldable pub is_demoted : Found → ChainTtp → ℕ → Bool
unfolding one_of
is_demoted f ttp r =
    one_of (f.tagged ttp.technique_id) r && f.has_provider && str_eq (f.tag_verdict ttp r) "partial"

one_of-verify_tag_match :
    (f : Found) (ttp : ChainTtp) (r : ℕ)
    → let found = verify_tag_match f ttp (f.tagged ttp.technique_id) in
      (one_of found.0 r ≡ is_verified f ttp r) × (one_of found.1 r ≡ is_demoted f ttp r)
unfolding verify_tag_match is_verified is_demoted one_of
one_of-verify_tag_match f ttp r =
    let rules = f.tagged ttp.technique_id in
    (
      ground (arith, one_of-select (λ r. str_eq (f.tag_verdict ttp r) "yes") rules r),
      ground (arith, one_of-select (λ r. str_eq (f.tag_verdict ttp r) "partial") rules r),
    )

pub one_of-tag_matches :
    (f : Found) (before after : List ChainTtp) (ttp : ChainTtp) (r : ℕ)
    → str_eq ttp.technique_id "" ≡ false
    → names ttp.technique_id before ≡ false
    → names ttp.technique_id after ≡ false
    → f.verify_on ≡ true
    → let m = tag_matches f (before ++ (ttp ∷ after)) in
      (one_of (m.phase1 ttp.technique_id) r ≡ is_verified f ttp r)
      × (one_of (m.phase1_5_partial ttp.technique_id) r ≡ is_demoted f ttp r)
unfolding tag_matches
one_of-tag_matches f before after ttp r named no_before no_after on =
    let start : TagMatches = record { phase1 = f.tagged; phase1_5_partial = λ tid. [] } in
    let (kept, demoted) = matched_once f before after ttp start named no_before no_after refl in
    let (in_kept, in_demoted) = one_of-verify_tag_match f ttp r in
    simp on (ap (λ l. one_of l r) kept ∙ in_kept, ap (λ l. one_of l r) demoted ∙ in_demoted)
