-- ===== src/Examples/Prompts.antt =====
-- prompts/ and llm/structured.py: two lists of techniques, a template that is created and activated, a
-- provider that answers badly at first, and a vote.
use fragchain_core.Prelude.{
  ℕ, String, true, Option, none, some, List, [], ◌∷◌, ◌≤◌, ◌==◌, length, if◌then◌else◌, ◌≡◌, refl,
  arith, codes,
}
use fragchain_core.Counting.{count}
use fragchain_core.PromptEval.{lcs_len}
use fragchain_core.PromptEval.Lcs.{Subsequence, lcs_len-longest}
use fragchain_core.Prompts.{
  has_id, Key, Store, most_specific, get_active, NewVersion, create_version,
}
use fragchain_core.Prompts.Invariant.{IsSound, is_active_key}
use fragchain_core.Prompts.Laws.{
  reads, creates, Reach, here, active_row, Reach-one_active, Reach-get_active,
}
use fragchain_core.Structured.{
  Text, Reply, response, timeout, StructuredResult, done, single_with_repair, parsed_samples, voted,
}
use fragchain_core.Structured.Repair.{IsWithin, single_with_repair-IsWithin}
use fragchain_core.Structured.Voting.{IsTop, voted-IsTop}

abbrev truth : List String
truth = "T1190" ∷ "T1059" ∷ "T1068" ∷ []

abbrev predicted : List String
predicted = "T1059" ∷ "T1190" ∷ "T1068" ∷ []

lcs_len_2 : lcs_len truth predicted ≡ 2
unfolding lcs_len
lcs_len_2 = refl

lcs_len-longest_example :
    ((c : List String)
      → Subsequence c truth
      → Subsequence c predicted
      → length c ≤ lcs_len truth predicted)
    × ((c : List String) × Subsequence c truth
        × Subsequence c predicted
        × (length c ≡ lcs_len truth predicted))
lcs_len-longest_example = lcs_len-longest truth predicted

abbrev empty_store : Store
empty_store = record { rows = []; cache = none }

empty_store-IsSound : IsSound empty_store
empty_store-IsSound = record {
  unique = λ id. omega arith;
  one_active = λ k. omega arith;
  coherent = λ c h. cc;
}

abbrev triage : NewVersion
triage = record {
  name = "triage";
  task_type = "detectability";
  target_model = "*";
  target_provider = "*";
  system_prompt = "You classify.";
  user_template = "{cve}";
  notes = none;
}

abbrev created : Store
created = (create_version 1 triage true empty_store).0

abbrev read_once : Store
read_once = (get_active created "detectability" "m" "p").0

fresh_2 : count (has_id 2) read_once.rows ≡ 0
unfolding get_active create_version
fresh_2 = refl

abbrev created_again : Store
created_again = (create_version 2 triage true read_once).0

created_again-Reach : Reach empty_store created_again
created_again-Reach =
    Reach.next
      (Reach.next (Reach.next here (creates empty_store 1 triage true refl))
        (reads created "detectability" "m" "p"))
      (creates read_once 2 triage true fresh_2)

abbrev triage_key : Key
triage_key = record { task_type = "detectability"; target_model = "*"; target_provider = "*" }

two_rows :
    (length created_again.rows ≡ 2) × (count (is_active_key triage_key) created_again.rows ≡ 1)
unfolding get_active create_version
two_rows = (refl, refl)

Reach-one_active_example : count (is_active_key triage_key) created_again.rows ≤ 1
Reach-one_active_example = Reach-one_active empty_store-IsSound created_again-Reach triage_key

Reach-get_active_example :
    (get_active created_again "detectability" "m" "p").1
    ≡ most_specific (active_row created_again.rows) "detectability" "m" "p"
Reach-get_active_example =
    Reach-get_active empty_store-IsSound created_again-Reach "detectability" "m" "p"

-- A value is the number of its one character.
abbrev read : Text → Option ℕ
read (n ∷ []) = some n
read _ = none

abbrev dump : ℕ → Text
dump n = n ∷ []

-- A timeout, a text that is not valid, then one in a fence.
abbrev answers : ℕ → Reply
answers n =
    if n == 1
    then timeout
    else if n == 2
    then response (codes "no") none
    else response (codes "```json\n7\n```") (some 4)

third_answer :
    single_with_repair read answers 2
    ≡ done record {
      value = 55;
      votes = 1;
      of_votes = 1;
      samples = 55 ∷ [];
      attempts = 3;
      cost_usd = 4;
    }
unfolding single_with_repair
third_answer = refl

single_with_repair-IsWithin_example : IsWithin read answers 2 (single_with_repair read answers 2)
single_with_repair-IsWithin_example = single_with_repair-IsWithin read answers 2

abbrev ballots : List Reply
ballots =
    response (codes "5") (some 1)
    ∷ response (codes " 7 ") (some 1)
    ∷ timeout
    ∷ response (codes "7") none
    ∷ []

abbrev seven : StructuredResult ℕ
seven = record {
  value = 55;
  votes = 2;
  of_votes = 4;
  samples = 53 ∷ 55 ∷ 55 ∷ [];
  attempts = 4;
  cost_usd = 2;
}

seven_wins : voted read dump ballots ≡ done seven
unfolding voted
seven_wins = refl

voted-IsTop_example : IsTop read dump (parsed_samples read ballots) seven
voted-IsTop_example = voted-IsTop read dump (λ n. refl) ballots seven seven_wins
