-- ===== src/TokenBudget/Laws.antt =====
-- The sources that are kept fit the budget, and none is lost.
use fragchain_core.Prelude.{
  ℕ, Bool, true, false, not, ◌||◌, List, [], ◌∷◌, ◌+◌, ◌-◌, ◌≤◌, length, map, select, leb, ◌==◌,
  if◌then◌else◌, ◌≡◌, refl, ap, ◌∙◌, arith, ==_iff, Bool-cases, inl, inr,
}
use fragchain_core.Embargo.Release.{one_of}
use fragchain_core.Router.Plan.{insert, sorted}
use fragchain_core.TokenBudget.{
  SourceForBudget, Enriched, enumerate, estimate_tokens, tokens_of, total_of, drop_le, discarded,
  is_kept, source_of, truncate_sources_to_budget,
}

-- The estimate of a list of sources.
unfoldable pub tokens_in : List SourceForBudget → ℕ
unfolding estimate_tokens
tokens_in [] = 0
tokens_in (s ∷ sources) = estimate_tokens s.content + tokens_in sources

-- The estimate of those that are not discarded.
weight : List ℕ → List Enriched → ℕ
weight gone [] = 0
weight gone (t ∷ l) = (if is_kept gone t then tokens_of t else 0) + weight gone l

weight-insert :
    (gone : List ℕ) (t : Enriched) (l : List Enriched)
    → weight gone (insert drop_le t l) ≡ weight gone (t ∷ l)
unfolding insert weight
weight-insert gone t [] = refl
weight-insert gone t (u ∷ l) = elim (Bool-cases (drop_le t u)) [
  | inl first ↦ rw first
  | inr later ↦ rw later (omega (arith, weight-insert gone t l))
]

weight-sorted : (gone : List ℕ) (l : List Enriched) → weight gone (sorted drop_le l) ≡ weight gone l
unfolding sorted weight
weight-sorted gone [] = refl
weight-sorted gone (t ∷ l) =
    weight-insert gone t (sorted drop_le l)
    ∙ ap (λ n. (if is_kept gone t then tokens_of t else 0) + n) (weight-sorted gone l)

weight-none : (l : List Enriched) → weight [] l ≡ total_of l
unfolding weight total_of one_of
weight-none [] = refl
weight-none (t ∷ l) = ap (λ n. tokens_of t + n) (weight-none l)

lighter :
    (kept gone : Bool) (n : ℕ) → (if not (gone || kept) then n else 0) ≤ (if not kept then n else 0)
lighter kept gone n = ground arith

weight-cons : (i : ℕ) (gone : List ℕ) (l : List Enriched) → weight (i ∷ gone) l ≤ weight gone l
unfolding weight one_of
weight-cons i gone [] = omega arith
weight-cons i gone ((j, s) ∷ l) =
    omega (arith, lighter (one_of gone j) (j == i) (tokens_of (j, s)), weight-cons i gone l)

chosen-weight :
    (stop : Bool) (gone : List ℕ) (l : List Enriched) (budget : ℕ)
    → (stop ≡ true → weight [] l ≤ budget)
    → (stop ≡ false → weight gone l ≤ budget)
    → weight (if stop then [] else gone) l ≤ budget
chosen-weight true gone l budget fits over = fits refl
chosen-weight false gone l budget fits over = over refl

leb-le : (m n : ℕ) → leb m n ≡ true → m ≤ n
leb-le m n h = ground arith

first_gone : (i n : ℕ) (gone : List ℕ) → (if not (i == i || one_of gone i) then n else 0) ≡ 0
first_gone i n gone = ground (arith, (==_iff i i).1 refl)

weight-discarded :
    (budget running : ℕ) (l : List Enriched)
    → total_of l ≤ running
    → weight (discarded budget running l) l ≤ budget
unfolding weight discarded total_of one_of
weight-discarded budget running [] h = omega arith
weight-discarded budget running ((i, s) ∷ l) h =
    let n = tokens_of (i, s) in
    let gone = discarded budget (running - n) l in
    chosen-weight (leb running budget) (i ∷ gone) ((i, s) ∷ l) budget
      (λ fits. omega (arith, weight-none ((i, s) ∷ l), h, leb-le running budget fits))
      (λ over. omega (
        arith,
        first_gone i n gone,
        weight-cons i gone l,
        weight-discarded budget (running - n) l (omega (arith, h)),
      ))

tokens_in-kept :
    (gone : List ℕ) (l : List Enriched)
    → tokens_in (map source_of (select (is_kept gone) l)) ≡ weight gone l
unfolding weight tokens_in tokens_of
tokens_in-kept gone [] = refl
tokens_in-kept gone ((i, s) ∷ l) = elim (Bool-cases (one_of gone i)) [
  | inl dropped ↦ rw dropped (omega (arith, tokens_in-kept gone l))
  | inr stays ↦ rw stays (ap (λ n. estimate_tokens s.content + n) (tokens_in-kept gone l))
]

tokens_in-enumerate :
    (i : ℕ) (sources : List SourceForBudget) → total_of (enumerate i sources) ≡ tokens_in sources
unfolding tokens_in total_of tokens_of
tokens_in-enumerate i [] = refl
tokens_in-enumerate i (s ∷ sources) =
    ap (λ n. estimate_tokens s.content + n) (tokens_in-enumerate (i + 1) sources)

length-split :
    (p : Enriched → Bool) (l : List Enriched)
    → length (map source_of (select p l)) + length (map source_of (select (λ t. not (p t)) l))
      ≡ length l
length-split p [] = refl
length-split p (t ∷ l) = elim (Bool-cases (p t)) [
  | inl holds ↦ rw holds (omega (arith, length-split p l))
  | inr fails ↦ rw fails (omega (arith, length-split p l))
]

length-enumerate :
    (i : ℕ) (sources : List SourceForBudget) → length (enumerate i sources) ≡ length sources
length-enumerate i [] = refl
length-enumerate i (s ∷ sources) = omega (arith, length-enumerate (i + 1) sources)

chosen-fits :
    (whole : Bool) (sources kept dropped : List SourceForBudget) (budget : ℕ)
    → (whole ≡ true → tokens_in sources ≤ budget)
    → tokens_in kept ≤ budget
    → length kept + length dropped ≡ length sources
    → let out : List SourceForBudget × List SourceForBudget =
        if whole then (sources, []) else (kept, dropped) in
      (tokens_in out.0 ≤ budget) × (length out.0 + length out.1 ≡ length sources)
chosen-fits true sources kept dropped budget f g e = (f refl, omega arith)
chosen-fits false sources kept dropped budget f g e = (g, e)

-- The sources that are kept are within the budget by the estimate, and the kept and the dropped ones
-- together are as many as were given.
pub truncate_sources_to_budget-fits :
    (sources : List SourceForBudget) (budget : ℕ)
    → let out = truncate_sources_to_budget sources budget in
      (tokens_in out.0 ≤ budget) × (length out.0 + length out.1 ≡ length sources)
unfolding truncate_sources_to_budget
truncate_sources_to_budget-fits sources budget =
    let enriched = enumerate 0 sources in
    let total = total_of enriched in
    let order = sorted drop_le enriched in
    let gone = discarded budget total order in
    let same = weight-none order in
    let all_in = weight-sorted [] enriched in
    chosen-fits (leb total budget) sources (map source_of (select (is_kept gone) enriched))
      (map source_of (select (λ t. not (is_kept gone t)) enriched)) budget
      (λ whole. omega (arith, leb-le total budget whole, tokens_in-enumerate 0 sources))
      (omega (
        arith,
        tokens_in-kept gone enriched,
        weight-sorted gone enriched,
        weight-discarded budget total order (omega (arith, same, all_in, weight-none enriched)),
      ))
      (omega (arith, length-split (is_kept gone) enriched, length-enumerate 0 sources))
