-- ===== src/Commons/Laws.antt =====
-- What is sent to the commons.
use mathlib.Core.List.{Memᴰ}
use fragchain_core.Prelude.{
  ◌↔◌, ℕ, Bool, true, false, not, any, Option, none, some, List, [], ◌∷◌, ◌++◌, ◌≤◌, map, select,
  length, length-append, if◌then◌else◌, ◌≡◌, refl, arith, All, Bool-cases, inl, inr,
}
use fragchain_core.Commons.Eligible.{IsUnrestricted, is_clear-IsUnrestricted, mem-eligible}
use fragchain_core.Commons.{
  Text, CommonsSource, ContributeResult, PullRequestResult, is_clear, submitted_count, skip, Call,
  outcome_of, contribute_to_source, contribute_each, is_wanted, contribute_chain,
  list_contribute_sources,
}

All-append : {A : Type 0} (P : A → Type 0) (k l : List A) → All P k → All P l → All P (k ++ l)
All-append P [] l u all = all
All-append P (a ∷ k) l (x, xs) all = (x, All-append P k l xs all)

All-select : {A : Type 0} (p : A → Bool) (l : List A) → All (λ a. p a ≡ true) (select p l)
All-select p [] = tt
All-select p (a ∷ l) = elim (Bool-cases (p a)) [
  | inl e ↦ rw e (e, All-select p l)
  | inr e ↦ rw e (All-select p l)
]

module _ {Payload : Type 0} (tlp_of : Payload → Option Text) (branch_of : CommonsSource → Text)
    (create_chain_pr : CommonsSource → Payload → Option PullRequestResult) where
  -- A call for a source that takes contributions, in a set of sources, with the payload, which
  -- has no level or tlp:clear, in any case.
  unfoldable pub MayOpen :
      (CommonsSource → Bool) → Payload → Call tlp_of branch_of create_chain_pr → Type 0
  MayOpen wanted payload (source, sent) =
      (source.contribute_enabled ≡ true)
      × (wanted source ≡ true)
      × IsUnrestricted (tlp_of sent)
      × (sent ≡ payload)

  -- The result of one source and the calls for it.
  IsReport :
      (CommonsSource → Bool)
      → Payload
      → CommonsSource
      → ContributeResult × List (Call tlp_of branch_of create_chain_pr)
      → Type 0
  IsReport wanted payload source this =
      All (MayOpen wanted payload) this.1
      × (this.0.source_id ≡ source.id)
      × (submitted_count (this.0 ∷ []) ≤ length this.1)

  outcome_of-source_id :
      (source : CommonsSource) (reply : Option PullRequestResult)
      → (outcome_of tlp_of branch_of create_chain_pr source reply).source_id ≡ source.id
  unfolding outcome_of
  outcome_of-source_id source none = refl
  outcome_of-source_id source (some pr) = refl

  submitted_count-le : (r : ContributeResult) → submitted_count (r ∷ []) ≤ 1
  unfolding submitted_count
  submitted_count-le r = ground arith

  -- One source, from the outcomes of the two guards.
  guarded-IsReport :
      (wanted : CommonsSource → Bool) (source : CommonsSource) (payload : Payload)
      (enabled clear : Bool)
      → wanted source ≡ true
      → source.contribute_enabled ≡ enabled
      → is_clear (tlp_of payload) ≡ clear
      → IsReport wanted payload source (
          if not enabled then (skip source, []) else if not clear then (skip source, []) else (
            outcome_of tlp_of branch_of create_chain_pr source (create_chain_pr source payload),
            (source, payload) ∷ [],
          ))
  unfolding MayOpen IsReport submitted_count
  guarded-IsReport wanted source payload false clear w e c = (tt, refl, omega arith)
  guarded-IsReport wanted source payload true false w e c = (tt, refl, omega arith)
  guarded-IsReport wanted source payload true true w e c = (
    ((e, w, is_clear-IsUnrestricted (tlp_of payload) c, refl), tt),
    outcome_of-source_id source (create_chain_pr source payload),
    submitted_count-le
        (outcome_of tlp_of branch_of create_chain_pr source (create_chain_pr source payload)),
  )

  -- The results of a batch: of each source one, in the order of the sources; an exception comes
  -- from a source whose transport cannot be made.
  unfoldable pub IsBatch :
      (CommonsSource → Bool)
      → List CommonsSource
      → List (Call tlp_of branch_of create_chain_pr)
      → Option (List ContributeResult)
      → Type 0
  IsBatch can_connect sources calls none = any (λ s. not (can_connect s)) sources ≡ true
  IsBatch can_connect sources calls (some results) =
      (map (λ r. r.source_id) results ≡ map (λ s. s.id) sources)
      × (submitted_count results ≤ length calls)

  extended-IsBatch :
      (can_connect : CommonsSource → Bool) (source : CommonsSource) (sources : List CommonsSource)
      (r : ContributeResult) (this calls : List (Call tlp_of branch_of create_chain_pr))
      (rest : Option (List ContributeResult))
      → r.source_id ≡ source.id
      → submitted_count (r ∷ []) ≤ length this
      → IsBatch can_connect sources calls rest
      → IsBatch can_connect
          (source ∷ sources)
          (this ++ calls)
          (elim rest [ none ↦ none | some results ↦ some (r ∷ results) ])
  unfolding IsBatch submitted_count
  extended-IsBatch can_connect source sources r this calls none i n batch = ground arith
  extended-IsBatch can_connect source sources r this calls (some results) i n (ids, le) =
      (cc, ground (arith, length-append this calls))

  contribute_each-IsBatch :
      (can_connect wanted : CommonsSource → Bool) (payload : Payload) (sources : List CommonsSource)
      → All (λ s. wanted s ≡ true) sources
      → let batch = contribute_each tlp_of branch_of create_chain_pr can_connect payload sources in
        All (MayOpen wanted payload) batch.1 × IsBatch can_connect sources batch.1 batch.0
  unfolding contribute_each contribute_to_source IsReport IsBatch submitted_count
  contribute_each-IsBatch can_connect wanted payload [] u = (tt, (refl, omega arith))
  contribute_each-IsBatch can_connect wanted payload (s ∷ sources) (w, ws) =
      let this = contribute_to_source tlp_of branch_of create_chain_pr s payload in
      let rest = contribute_each tlp_of branch_of create_chain_pr can_connect payload sources in
      let (may, id, n) =
        guarded-IsReport wanted s payload s.contribute_enabled (is_clear (tlp_of payload)) w refl
          refl in
      let (mays, batch) = contribute_each-IsBatch can_connect wanted payload sources ws in
      elim (Bool-cases (can_connect s)) [
        | inr down ↦ rw down (tt, ground (arith, down))
        | inl up ↦ rw up (
          All-append (MayOpen wanted payload) this.1 rest.1 may mays,
          extended-IsBatch can_connect s sources this.0 this.1 rest.1 rest.0 id n batch,
        )
      ]

  -- A pull request is opened only for a source that takes contributions and is wanted, and only when
  -- the payload has no level, an empty one or `tlp:clear` in any case. The eligible sources are exactly
  -- those of the table that take contributions and are wanted; each has one result, in the order of
  -- their ranking, and there are no more submitted results than pull requests, unless the transport of
  -- an eligible source cannot be made.
  pub contribute_chain-MayOpen :
      (can_connect : CommonsSource → Bool) (table : List CommonsSource)
      (source_ids : Option (List ℕ)) (payload : Payload)
      → let batch =
          contribute_chain tlp_of branch_of create_chain_pr can_connect table source_ids payload in
        let eligible = select (is_wanted source_ids) (list_contribute_sources table) in
        All (MayOpen (is_wanted source_ids) payload) batch.1
        × IsBatch can_connect eligible batch.1 batch.0
        × ((s : CommonsSource)
            → Memᴰ s eligible
              ↔ (Memᴰ s table × (s.contribute_enabled ≡ true) × (is_wanted source_ids s ≡ true)))
  unfolding contribute_chain
  contribute_chain-MayOpen can_connect table source_ids payload =
      let eligible = select (is_wanted source_ids) (list_contribute_sources table) in
      let (may, batch) =
        contribute_each-IsBatch can_connect (is_wanted source_ids) payload eligible
          (All-select (is_wanted source_ids) (list_contribute_sources table)) in
      (may, batch, λ s. mem-eligible table source_ids s)
