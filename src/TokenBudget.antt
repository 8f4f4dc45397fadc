-- ===== src/TokenBudget.antt =====
-- assessments/loops/token_budget.py: the sources that fit a budget of tokens. A risk is in thousandths.
pub mod Laws
use fragchain_core.Prelude.{
  ℕ, Bool, true, false, not, ◌&&◌, ◌||◌, Option, none, some, List, [], ◌∷◌, ◌+◌, ◌-◌, ◌/◌, length,
  map, select, ltb, leb, ◌==◌, if◌then◌else◌,
}
use fragchain_core.Embargo.Release.{one_of}
use fragchain_core.Router.Plan.{sorted}

unfoldable pub estimate_tokens : List ℕ → ℕ
estimate_tokens text = length text / 4

-- `content` is the code points of the text.
pub record SourceForBudget : Type 0 where
  pub id : ℕ
  pub content : List ℕ
  pub pasted_at : ℕ
  pub injection_risk_score : Option ℕ

abbrev pub Enriched : Type 0
Enriched = ℕ × SourceForBudget

-- enumerate(sources)
abbrev pub enumerate : ℕ → List SourceForBudget → List Enriched
enumerate i [] = []
enumerate i (s ∷ sources) = (i, s) ∷ enumerate (i + 1) sources

unfoldable pub tokens_of : Enriched → ℕ
unfolding estimate_tokens
tokens_of (i, s) = estimate_tokens s.content

unfoldable pub total_of : List Enriched → ℕ
unfolding tokens_of
total_of [] = 0
total_of (t ∷ enriched) = tokens_of t + total_of enriched

abbrev pub risk_of : SourceForBudget → ℕ
risk_of s = elim s.injection_risk_score [ none ↦ 0 | some risk ↦ risk ]

-- The order of (-risk, pasted_at).
abbrev pub drop_le : Enriched → Enriched → Bool
drop_le (i, s) (j, t) =
    ltb (risk_of t) (risk_of s) || (risk_of s == risk_of t && leb s.pasted_at t.pasted_at)

-- The indices that the loop discards.
unfoldable pub discarded : ℕ → ℕ → List Enriched → List ℕ
unfolding tokens_of
discarded budget running [] = []
discarded budget running ((i, s) ∷ rest) =
    let more = discarded budget (running - tokens_of (i, s)) rest in
    if leb running budget then [] else i ∷ more

abbrev pub is_kept : List ℕ → Enriched → Bool
is_kept gone (i, s) = not (one_of gone i)

abbrev pub source_of : Enriched → SourceForBudget
source_of (i, s) = s

unfoldable pub truncate_sources_to_budget :
    List SourceForBudget → ℕ → List SourceForBudget × List SourceForBudget
unfolding total_of discarded sorted one_of
truncate_sources_to_budget sources budget =
    let enriched = enumerate 0 sources in
    let total = total_of enriched in
    let gone = discarded budget total (sorted drop_le enriched) in
    if leb total budget then (sources, []) else (
      map source_of (select (is_kept gone) enriched),
      map source_of (select (λ t. not (is_kept gone t)) enriched),
    )
