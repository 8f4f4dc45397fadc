-- ===== src/Structured.antt =====
-- llm/structured.py: a structured answer of a language model. The provider, the validation of the
-- schema and its dump are arguments; a text is its code points, a cost in its smallest unit.
pub mod Repair
pub mod Voting
use fragchain_core.Prelude.{
  ℕ, zero, suc, Bool, true, false, not, ◌&&◌, ◌||◌, Option, none, some, List, [], ◌∷◌, ◌++◌, ◌+◌,
  ◌*◌, ◌-◌, ltb, leb, ◌==◌, codes, strip, same_codes, reverse, length, select, if◌then◌else◌,
}
use fragchain_core.Routing.{is_prefix}
use fragchain_core.Chunking.{drop}

abbrev pub Text : Type 0
Text = List ℕ

-- What a call of the provider does: a response with its text and cost, a timeout, or an exception.
pub data Reply : Type 0 where
  response : Text → Option ℕ → Reply
  timeout : Reply
  failure : Reply

-- `_response_cost`
abbrev pub response_cost : Option ℕ → ℕ
response_cost none = 0
response_cost (some cost) = cost

pub record StructuredResult (A : Type 0) : Type 0 where
  pub value : A
  pub votes : ℕ
  pub of_votes : ℕ
  pub samples : List A
  pub attempts : ℕ
  pub cost_usd : ℕ

-- A result, `StructuredOutputError` after a number of attempts, the `ValueError` of the arguments,
-- an exception that escapes, or no fuel.
pub data Outcome (A : Type 0) : Type 0 where
  done : StructuredResult A → Outcome A
  structured_output_error : ℕ → Outcome A
  value_error : Outcome A
  raised : Outcome A
  no_fuel : Outcome A

-- What follows the first line feed, or the text if there is none.
abbrev pub after_newline : Text → Option Text
after_newline [] = none
after_newline (c ∷ t) = let rest = after_newline t in if c == 10 then some t else rest

abbrev pub fence : Text
fence = codes "```"

-- t[:-3] if t.endswith("```")
abbrev pub without_fence : Text → Text
without_fence t = if is_prefix fence (reverse t) then reverse (drop 3 (reverse t)) else t

abbrev pub or_text : Option Text → Text → Text
or_text none t = t
or_text (some rest) t = rest

unfoldable pub strip_fences : Text → Text
unfolding strip
strip_fences text =
    let t = strip text in
    strip (if is_prefix fence t then without_fence (or_text (after_newline t) t) else t)

module _ {A : Type 0} (validate : Text → Option A) where
  abbrev pub single : A → ℕ → ℕ → Outcome A
  single value attempts cost = done record {
    value = value;
    votes = 1;
    of_votes = 1;
    samples = value ∷ [];
    attempts = attempts;
    cost_usd = cost;
  }

  -- The loop of `_single_with_repair`: the answer to each attempt, which may depend on the prompt, the
  -- counters of failed validations, timeouts and attempts, and the cost.
  unfoldable pub repair_loop : (ℕ → Reply) → ℕ → ℕ → ℕ → ℕ → ℕ → Outcome A
  unfolding strip_fences
  repair_loop complete max_repair zero validations timeouts cost = no_fuel
  repair_loop complete max_repair (suc fuel) validations timeouts cost =
      let attempt = validations + timeouts + 1 in
      let on_timeout = repair_loop complete max_repair fuel validations (timeouts + 1) cost in
      let on_invalid = λ (paid : ℕ).
        repair_loop complete max_repair fuel (validations + 1) timeouts (cost + paid) in
      if not (leb validations max_repair) || leb (max_repair + 1) timeouts
      then structured_output_error (validations + timeouts)
      else elim (complete attempt) [
        | failure ↦ raised
        | timeout ↦ on_timeout
        | response text paid ↦ elim (validate (strip_fences text)) [
          | some value ↦ single value attempt (cost + response_cost paid)
          | none ↦ on_invalid (response_cost paid)
        ]
      ]

  unfoldable pub single_with_repair : (ℕ → Reply) → ℕ → Outcome A
  unfolding repair_loop
  single_with_repair complete max_repair =
      repair_loop complete max_repair (2 * max_repair + 3) 0 0 0

  -- The samples that are valid, in order.
  unfoldable pub parsed_samples : List Reply → List A
  unfolding strip_fences
  parsed_samples [] = []
  parsed_samples (response text paid ∷ replies) =
      let rest = parsed_samples replies in
      elim (validate (strip_fences text)) [ none ↦ rest | some value ↦ value ∷ rest ]
  parsed_samples (_ ∷ replies) = parsed_samples replies

  unfoldable pub cost_of : List Reply → ℕ
  cost_of [] = 0
  cost_of (response text paid ∷ replies) = response_cost paid + cost_of replies
  cost_of (_ ∷ replies) = cost_of replies

  module _ (dump : A → Text) where
    -- How often the counter counts a value.
    unfoldable pub votes_for : A → List A → ℕ
    votes_for v samples = length (select (λ s. same_codes (dump s) (dump v)) samples)

    -- `most_common(1)`: of the values that are counted most, the first.
    unfoldable pub most_common : List A → A → List A → A
    unfolding votes_for
    most_common samples best [] = best
    most_common samples best (s ∷ rest) =
        most_common samples (if ltb (votes_for best samples) (votes_for s samples) then s else best)
          rest

    unfoldable pub consensus : ℕ → ℕ → List A → Outcome A
    unfolding most_common
    consensus n_samples cost [] = structured_output_error n_samples
    consensus n_samples cost (s ∷ rest) =
        let samples = s ∷ rest in
        let top = most_common samples s rest in
        elim (validate (dump top)) [
          | none ↦ raised
          | some value ↦ done record {
            value = value;
            votes = votes_for top samples;
            of_votes = n_samples;
            samples = samples;
            attempts = n_samples;
            cost_usd = cost;
          }
        ]

    -- `_voted`, from what the calls gave
    unfoldable pub voted : List Reply → Outcome A
    unfolding parsed_samples cost_of consensus
    voted replies = consensus (length replies) (cost_of replies) (parsed_samples replies)

    -- The answers to the calls of a vote.
    abbrev pub answers_to : (ℕ → Reply) → ℕ → List Reply
    answers_to complete zero = []
    answers_to complete (suc n) = answers_to complete n ++ (complete (suc n) ∷ [])

    unfoldable pub structured_complete : (ℕ → Reply) → ℕ → ℕ → Outcome A
    unfolding single_with_repair voted
    structured_complete complete n_samples max_repair =
        if n_samples == 0
        then value_error
        else if n_samples == 1
        then single_with_repair complete max_repair
        else voted (answers_to complete n_samples)
