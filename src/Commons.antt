-- ===== src/Commons.antt =====
-- commons/sources.py and commons/contribute.py: the ranking of the commons sources, the choice of a
-- chain, and the contribution of a chain. A text is its code points. The transport, its factory and the
-- names of branches are arguments; the texts of titles, bodies and messages are left out.
pub mod Rank
pub mod Eligible
pub mod Winner
pub mod Laws
use fragchain_core.Prelude.{
  ℕ, Bool, true, false, not, ◌&&◌, ◌||◌, Option, none, some, List, [], ◌∷◌, ◌++◌, ltb, leb, ◌==◌,
  codes, lower, same_codes, map, select, length, if◌then◌else◌,
}
use fragchain_core.Embargo.Release.{one_of}
use fragchain_core.Router.Plan.{sorted}

abbrev pub Text : Type 0
Text = List ℕ

pub data ℤ : Type 0 where
  pos : ℕ → ℤ
  negsuc : ℕ → ℤ

abbrev pub int_lt : ℤ → ℤ → Bool
int_lt (pos a) (pos b) = ltb a b
int_lt (pos a) (negsuc b) = false
int_lt (negsuc a) (pos b) = true
int_lt (negsuc a) (negsuc b) = ltb b a

abbrev pub int_eq : ℤ → ℤ → Bool
int_eq (pos a) (pos b) = a == b
int_eq (negsuc a) (negsuc b) = a == b
int_eq _ _ = false

pub record CommonsSource : Type 0 where
  pub id : ℕ
  pub sync_enabled : Bool
  pub contribute_enabled : Bool
  pub priority : ℤ
  pub trust_level : Text

unfoldable pub trust_rank : Text → ℤ
trust_rank level =
    if same_codes level (codes "internal")
    then pos 2
    else if same_codes level (codes "partner")
    then pos 1
    else if same_codes level (codes "community")
    then pos 0
    else negsuc 0

-- a < b of tuples: the first component that differs decides.
abbrev pub pair_lt : ℤ → ℤ → Bool → Bool
pair_lt a b rest_lt = int_lt a b || (int_eq a b && rest_lt)

-- source_priority_key(a) < source_priority_key(b)
unfoldable pub source_lt : CommonsSource → CommonsSource → Bool
unfolding trust_rank
source_lt a b =
    pair_lt a.priority b.priority (int_lt (trust_rank a.trust_level) (trust_rank b.trust_level))

-- sorted(…, reverse=True) keeps the order of sources with one key.
unfoldable pub rank_sources : List CommonsSource → List CommonsSource
unfolding source_lt sorted
rank_sources sources = sorted (λ a b. not (source_lt a b)) sources

unfoldable pub list_enabled_sources : List CommonsSource → List CommonsSource
unfolding rank_sources
list_enabled_sources table = rank_sources (select (λ s. s.sync_enabled) table)

unfoldable pub list_all_sources : List CommonsSource → List CommonsSource
unfolding rank_sources
list_all_sources table = rank_sources table

unfoldable pub list_contribute_sources : List CommonsSource → List CommonsSource
unfolding rank_sources
list_contribute_sources table = rank_sources (select (λ s. s.contribute_enabled) table)

-- A chain of a source and its version, which may be absent.
pub record ChainRow : Type 0 where
  pub chain_id : ℕ
  pub version : Option ℤ
  pub source : CommonsSource

-- int(version or 1)
abbrev pub version_of : Option ℤ → ℤ
version_of none = pos 1
version_of (some v) = if int_eq v (pos 0) then pos 1 else v

-- key(a) < key(b)
unfoldable pub row_lt : ChainRow → ChainRow → Bool
unfolding trust_rank
row_lt a b = pair_lt a.source.priority b.source.priority (
    pair_lt (trust_rank a.source.trust_level) (trust_rank b.source.trust_level)
      (int_lt (version_of a.version) (version_of b.version)))

-- max(rows, key=key): of the greatest rows, the first.
unfoldable pub greatest_row : ChainRow → List ChainRow → ChainRow
unfolding row_lt
greatest_row best [] = best
greatest_row best (r ∷ rows) = greatest_row (if row_lt best r then r else best) rows

unfoldable pub select_winning_chain : List ChainRow → Option ChainRow
unfolding greatest_row
select_winning_chain [] = none
select_winning_chain (r ∷ rows) = some (greatest_row r rows)

pub data ContributeStatus : Type 0 where
  submitted : ContributeStatus
  skipped : ContributeStatus
  error : ContributeStatus

pub record ContributeResult : Type 0 where
  pub source_id : ℕ
  pub status : ContributeStatus
  pub pr_url : Option Text
  pub pr_number : Option ℕ
  pub branch : Option Text

pub record PullRequestResult : Type 0 where
  pub created : Bool
  pub url : Option Text
  pub number : Option ℕ
  pub branch : Option Text

-- (tlp or "tlp:clear").lower() == "tlp:clear"
unfoldable pub is_clear : Option Text → Bool
unfolding lower
is_clear none = true
is_clear (some []) = true
is_clear (some tlp) = same_codes (map lower tlp) (codes "tlp:clear")

abbrev pub is_submitted_status : ContributeStatus → Bool
is_submitted_status submitted = true
is_submitted_status _ = false

-- `ContributeBatchResult.submitted`
unfoldable pub submitted_count : List ContributeResult → ℕ
submitted_count per_source = length (select (λ r. is_submitted_status r.status) per_source)

abbrev pub skip : CommonsSource → ContributeResult
skip source = record {
  source_id = source.id;
  status = skipped;
  pr_url = none;
  pr_number = none;
  branch = none;
}

-- if source_ids is not None: eligible = [s for s in eligible if s.id in wanted]
unfoldable pub is_wanted : Option (List ℕ) → CommonsSource → Bool
unfolding one_of
is_wanted none s = true
is_wanted (some wanted) s = one_of wanted s.id

module _ {Payload : Type 0} (tlp_of : Payload → Option Text) (branch_of : CommonsSource → Text)
    (create_chain_pr : CommonsSource → Payload → Option PullRequestResult) where
  -- A call of `create_chain_pr`: the source and the payload.
  abbrev pub Call : Type 0
  Call = CommonsSource × Payload

  -- What a call gave; none is an exception.
  unfoldable pub outcome_of : CommonsSource → Option PullRequestResult → ContributeResult
  outcome_of source none = record {
    source_id = source.id;
    status = error;
    pr_url = none;
    pr_number = none;
    branch = some (branch_of source);
  }
  outcome_of source (some pr) = record {
    source_id = source.id;
    status = if pr.created then submitted else error;
    pr_url = pr.url;
    pr_number = pr.number;
    branch = pr.branch;
  }

  -- The result, with the calls of the transport.
  unfoldable pub contribute_to_source : CommonsSource → Payload → ContributeResult × List Call
  unfolding is_clear outcome_of
  contribute_to_source source payload =
      if not source.contribute_enabled
      then (skip source, [])
      else if not (is_clear (tlp_of payload))
      then (skip source, [])
      else (outcome_of source (create_chain_pr source payload), (source, payload) ∷ [])

  -- The loop over the sources. A source whose transport cannot be made ends it with an exception.
  unfoldable pub contribute_each :
      (CommonsSource → Bool)
      → Payload
      → List CommonsSource
      → Option (List ContributeResult) × List Call
  unfolding contribute_to_source
  contribute_each can_connect payload [] = (some [], [])
  contribute_each can_connect payload (source ∷ sources) =
      let this = contribute_to_source source payload in
      let rest = contribute_each can_connect payload sources in
      if can_connect source
      then (elim rest.0 [ none ↦ none | some results ↦ some (this.0 ∷ results) ], this.1 ++ rest.1)
      else (none, [])

  unfoldable pub contribute_chain :
      (CommonsSource → Bool)
      → List CommonsSource
      → Option (List ℕ)
      → Payload
      → Option (List ContributeResult) × List Call
  unfolding is_wanted contribute_each list_contribute_sources
  contribute_chain can_connect table source_ids payload =
      contribute_each can_connect payload
        (select (is_wanted source_ids) (list_contribute_sources table))
