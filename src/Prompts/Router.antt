-- ===== src/Prompts/Router.antt =====
-- prompts/ab.py: the tests between two variants of a prompt. A share is in hundredths, a roll in
-- units of 1/10,000,000, and the hash that makes it is an argument.
use fragchain_core.Prelude.{
  ℕ, String, Bool, true, false, not, ◌&&◌, ◌||◌, Option, none, some, List, [], ◌∷◌, ◌++◌, ◌*◌, map,
  ltb, leb, ◌==◌, str_eq, if◌then◌else◌, ◌>>=◌,
}
use fragchain_core.Counting.{first}
use fragchain_core.Prompts.{PromptTemplate, Store, get, get_active}

-- A row of `prompt_ab_tests`.
pub record PromptAbTest : Type 0 where
  pub id : ℕ
  pub task_type : String
  pub variant_a_template_id : ℕ
  pub variant_b_template_id : ℕ
  pub traffic_split : ℕ
  pub status : String
  pub winner : Option String
  pub started_at : ℕ
  pub concluded_at : Option ℕ

pub record AbSelection : Type 0 where
  pub template : PromptTemplate
  pub variant : Option String
  pub ab_test_id : Option ℕ

abbrev pub is_active_test : String → PromptAbTest → Bool
is_active_test task t = str_eq t.task_type task && str_eq t.status "active"

abbrev pub newer : PromptAbTest → Option PromptAbTest → PromptAbTest
newer t none = t
newer t (some u) = if ltb t.started_at u.started_at then u else t

-- `_active_test_for`: the test that started last.
unfoldable pub active_test_for : String → List PromptAbTest → Option PromptAbTest
active_test_for task [] = none
active_test_for task (t ∷ tests) =
    let rest = active_test_for task tests in
    if is_active_test task t then some (newer t rest) else rest

-- roll < split
unfoldable pub picks_a : ℕ → PromptAbTest → Bool
picks_a roll t = ltb roll (t.traffic_split * 100000)

abbrev pub label_of : Bool → String
label_of true = "A"
label_of false = "B"

-- `_pick_variant`, with the roll of the key and the test
unfoldable pub pick_variant :
    ℕ → List PromptTemplate → PromptAbTest → Option PromptTemplate × String
unfolding picks_a get
pick_variant roll rows t =
    let a = picks_a roll t in
    (get (if a then t.variant_a_template_id else t.variant_b_template_id) rows, label_of a)

abbrev pub fallback_of : Store × Option PromptTemplate → Store × Option AbSelection
fallback_of (s, none) = (s, none)
fallback_of (s, some view) = (s, some record { template = view; variant = none; ab_test_id = none })

-- What an active test routes to, if its variant exists.
unfoldable pub routed :
    (ℕ → ℕ) → List PromptTemplate → List PromptAbTest → String → Option AbSelection
unfolding active_test_for pick_variant
routed roll_of rows tests task = active_test_for task tests >>= λ t.
    let picked = pick_variant (roll_of t.id) rows t in
    picked.0 >>= λ row.
    some record { template = row; variant = some picked.1; ab_test_id = some t.id }

-- `roll_of` is the roll of the routing key with the id of a test.
unfoldable pub select_variant :
    (ℕ → ℕ)
    → Store
    → List PromptAbTest
    → String
    → String
    → String
    → Bool
    → Store × Option AbSelection
unfolding routed get_active
select_variant roll_of s tests task model provider use_ab =
    elim (if use_ab then routed roll_of s.rows tests task else none) [
      | some selection ↦ (s, some selection)
      | none ↦ fallback_of (get_active s task model provider)
    ]

-- `create_test`, with the id and the time; `none` is its `ValueError`. The split is in hundredths.
unfoldable pub create_test :
    ℕ
    → ℕ
    → List PromptTemplate
    → String
    → ℕ
    → ℕ
    → ℕ
    → List PromptAbTest
    → Option (List PromptAbTest)
unfolding get
create_test id now rows task a_id b_id split tests =
    if not (leb split 100)
    then none
    else get a_id rows >>= λ a. get b_id rows >>= λ b.
        if not (str_eq a.task_type task) || not (str_eq b.task_type task)
        then none
        else some (
            tests
            ++ record {
              id = id;
              task_type = task;
              variant_a_template_id = a_id;
              variant_b_template_id = b_id;
              traffic_split = split;
              status = "active";
              winner = none;
              started_at = now;
              concluded_at = none;
            }
              ∷ [])

abbrev pub is_winner : Option String → Bool
is_winner none = true
is_winner (some winner) = str_eq winner "A" || str_eq winner "B"

unfoldable pub conclude : ℕ → ℕ → Option String → List PromptAbTest → Option (List PromptAbTest)
unfolding first
conclude now id winner tests = first (λ (t : PromptAbTest). t.id == id) tests >>= λ test.
    if not (is_winner winner)
    then none
    else some (
        map
          (λ (t : PromptAbTest).
            if t.id == id
            then record t { status = "concluded"; winner = winner; concluded_at = some now }
            else t)
          tests)
