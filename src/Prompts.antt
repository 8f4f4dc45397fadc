-- ===== src/Prompts.antt =====
-- prompts/store.py: the versions of a prompt template, and the process's cache of the active ones.
-- One process writes: other processes, whose caches are stale until they reload, are left out.
pub mod Router
pub mod Invariant
pub mod Laws
use fragchain_core.Prelude.{
  ℕ, String, Bool, true, false, not, ◌&&◌, Option, none, some, is_some, List, [], ◌∷◌, ◌++◌, ◌+◌,
  max, map, select, ◌==◌, str_eq, if◌then◌else◌,
}
use fragchain_core.Counting.{first}

-- A row of `prompt_templates`; `PromptTemplateView` mirrors it.
pub record PromptTemplate : Type 0 where
  pub id : ℕ
  pub name : String
  pub task_type : String
  pub target_model : String
  pub target_provider : String
  pub version : ℕ
  pub system_prompt : String
  pub user_template : String
  pub is_active : Bool
  pub notes : Option String

-- The key of `_by_key`.
pub record Key : Type 0 where
  pub task_type : String
  pub target_model : String
  pub target_provider : String

abbrev pub key_of : PromptTemplate → Key
key_of r = record {
  task_type = r.task_type;
  target_model = r.target_model;
  target_provider = r.target_provider;
}

unfoldable pub same_key : Key → Key → Bool
same_key k l =
    str_eq k.task_type l.task_type
    && str_eq k.target_model l.target_model
    && str_eq k.target_provider l.target_provider

-- The rows, and the snapshot that the cache was filled from, if it is loaded.
pub record Store : Type 0 where
  pub rows : List PromptTemplate
  pub cache : Option (List PromptTemplate)

-- `_ActiveCache.get` after `fill`: a later row of a key replaces an earlier one.
unfoldable pub cached : List PromptTemplate → Key → Option PromptTemplate
unfolding same_key
cached [] k = none
cached (r ∷ rows) k =
    let rest = cached rows k in
    if is_some rest then rest else if r.is_active && same_key (key_of r) k then some r else none

abbrev pub wildcard : String
wildcard = "*"

abbrev pub or_else : Option PromptTemplate → Option PromptTemplate → Option PromptTemplate
or_else none other = other
or_else (some r) other = some r

-- The first hit of the four keys.
unfoldable pub most_specific :
    (Key → Option PromptTemplate) → String → String → String → Option PromptTemplate
most_specific get task model provider =
    let at =
      λ (m p : String). get record { task_type = task; target_model = m; target_provider = p } in
    or_else (at model provider)
      (or_else (at model wildcard) (or_else (at wildcard provider) (at wildcard wildcard)))

-- `_reload_cache`, if the cache is not loaded
unfoldable pub loaded : Store → List PromptTemplate
loaded s = elim s.cache [
  | none ↦ select (λ (r : PromptTemplate). r.is_active) s.rows
  | some snapshot ↦ snapshot
]

unfoldable pub get_active : Store → String → String → String → Store × Option PromptTemplate
unfolding loaded most_specific cached
get_active s task model provider =
    (record s { cache = some (loaded s) }, most_specific (cached (loaded s)) task model provider)

abbrev pub has_id : ℕ → PromptTemplate → Bool
has_id id r = r.id == id

unfoldable pub get : ℕ → List PromptTemplate → Option PromptTemplate
unfolding first
get id rows = first (has_id id) rows

-- `_activate`: the rows of the key are deactivated, and the row is activated.
unfoldable pub activate_row : PromptTemplate → PromptTemplate → PromptTemplate
unfolding same_key
activate_row row r =
    if r.id == row.id
    then record r { is_active = true }
    else if same_key (key_of r) (key_of row) && r.is_active
    then record r { is_active = false }
    else r

unfoldable pub activate_rows : PromptTemplate → List PromptTemplate → List PromptTemplate
unfolding activate_row
activate_rows row rows = map (activate_row row) rows

-- `activate`; `none` is `PromptNotFoundError`.
unfoldable pub activate : ℕ → Store → Option Store
unfolding get activate_rows
activate id s = elim (get id s.rows) [
  | none ↦ none
  | some row ↦ some record { rows = activate_rows row s.rows; cache = none }
]

-- The rows that share their versions.
abbrev pub same_series : String → String → String → PromptTemplate → Bool
same_series name model provider r =
    str_eq r.name name && str_eq r.target_model model && str_eq r.target_provider provider

unfoldable pub max_existing : String → String → String → List PromptTemplate → ℕ
max_existing name model provider [] = 0
max_existing name model provider (r ∷ rows) =
    let rest = max_existing name model provider rows in
    if same_series name model provider r then max r.version rest else rest

-- What `create_version` is given, less the id and the flag.
pub record NewVersion : Type 0 where
  pub name : String
  pub task_type : String
  pub target_model : String
  pub target_provider : String
  pub system_prompt : String
  pub user_template : String
  pub notes : Option String

unfoldable pub new_version : ℕ → NewVersion → List PromptTemplate → PromptTemplate
unfolding max_existing
new_version id v rows = record {
  id = id;
  name = v.name;
  task_type = v.task_type;
  target_model = v.target_model;
  target_provider = v.target_provider;
  version = max_existing v.name v.target_model v.target_provider rows + 1;
  system_prompt = v.system_prompt;
  user_template = v.user_template;
  is_active = false;
  notes = v.notes;
}

-- `create_version`, with the id of the new row
unfoldable pub create_version : ℕ → NewVersion → Bool → Store → Store × PromptTemplate
unfolding new_version activate_rows
create_version id v activated s =
    let row = new_version id v s.rows in
    let rows = s.rows ++ (row ∷ []) in
    (
      record { rows = if activated then activate_rows row rows else rows; cache = none },
      record row { is_active = activated },
    )

abbrev pub given_or : Option String → String → String
given_or none default = default
given_or (some text) default = text

-- `patch_as_new_version`
unfoldable pub patch_as_new_version :
    ℕ
    → ℕ
    → Option String
    → Option String
    → Option String
    → Bool
    → Store
    → Option (Store × PromptTemplate)
unfolding get create_version
patch_as_new_version id template_id system_prompt user_template notes activated s =
    elim (get template_id s.rows) [
      | none ↦ none
      | some source ↦ some (
          create_version id
            record {
              name = source.name;
              task_type = source.task_type;
              target_model = source.target_model;
              target_provider = source.target_provider;
              system_prompt = given_or system_prompt source.system_prompt;
              user_template = given_or user_template source.user_template;
              notes = elim notes [ none ↦ source.notes | some text ↦ some text ];
            }
            activated s)
    ]
