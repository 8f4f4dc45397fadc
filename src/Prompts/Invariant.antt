-- ===== src/Prompts/Invariant.antt =====
-- The invariant of the prompt templates, and that every operation keeps it.
use fragchain_core.Prelude.{
  ℕ, String, Bool, true, false, not, ◌&&◌, ◌||◌, Option, none, some, List, [], ◌∷◌, ◌++◌, ◌≤◌, all,
  select, ◌==◌, eq_iff, ◌≡◌, refl, sym, ap, ◌∙◌, subst, arith, same_some, ==_iff, Bool-cases,
  Option-cases, inl, inr,
}
use fragchain_core.Counting.{
  count, count-append, count-map, count-map-le, first, all-first, first-append, first-some,
}
use fragchain_core.Prompts.{
  PromptTemplate, Key, key_of, same_key, Store, loaded, get_active, has_id, get, activate_row,
  activate_rows, activate, NewVersion, new_version, create_version, patch_as_new_version,
}

abbrev pub is_active_key : Key → PromptTemplate → Bool
is_active_key k r = r.is_active && same_key (key_of r) k

-- Ids are unique, a key has at most one active row, and a loaded cache has the active rows.
pub record IsSound (s : Store) : Type 0 where
  pub unique : (id : ℕ) → count (has_id id) s.rows ≤ 1
  pub one_active : (k : Key) → count (is_active_key k) s.rows ≤ 1
  pub coherent :
      (c : List PromptTemplate)
      → s.cache ≡ some c
      → c ≡ select (λ (r : PromptTemplate). r.is_active) s.rows

same_key_refl : (k : Key) → same_key k k ≡ true
unfolding same_key
same_key_refl k = ground (
  arith,
  eq_iff k.task_type k.task_type,
  eq_iff k.target_model k.target_model,
  eq_iff k.target_provider k.target_provider,
)

same_key-eq : (k l : Key) → same_key k l ≡ true → k ≡ l
unfolding same_key
same_key-eq k l h = ground (
  arith,
  eq_iff k.task_type l.task_type,
  eq_iff k.target_model l.target_model,
  eq_iff k.target_provider l.target_provider,
)

-- Two keys that a third is the same as are the same.
same_key-join : (a b k : Key) → same_key a k ≡ true → same_key b k ≡ true → same_key a b ≡ true
same_key-join a b k h i =
    subst (λ l. same_key a l ≡ true) (same_key-eq a k h ∙ sym (same_key-eq b k i)) (same_key_refl a)

same_key-fork : (a b k : Key) → same_key a b ≡ true → same_key a k ≡ true → same_key b k ≡ true
same_key-fork a b k h i = subst (λ l. same_key l k ≡ true) (same_key-eq a b h) i

-- A row with the id has the key of the row that is activated.
abbrev agrees : PromptTemplate → PromptTemplate → Bool
agrees row r = not (has_id row.id r) || same_key (key_of r) (key_of row)

module _ (row : PromptTemplate) (k : Key) where
  activate_row-of_key :
      same_key (key_of row) k ≡ true
      → (r : PromptTemplate) → agrees row r ≡ true
      → is_active_key k (activate_row row r) ≡ true
      → has_id row.id r ≡ true
  unfolding activate_row
  activate_row-of_key same r a h = ground (arith, same_key-join (key_of r) (key_of row) k)

  activate_row-of_other :
      same_key (key_of row) k ≡ false
      → (r : PromptTemplate) → agrees row r ≡ true
      → is_active_key k (activate_row row r) ≡ true
      → is_active_key k r ≡ true
  unfolding activate_row
  activate_row-of_other other r a h = ground (arith, same_key-fork (key_of r) (key_of row) k)

activate_rows-one_active :
    (row : PromptTemplate) (rows : List PromptTemplate)
    → all (agrees row) rows ≡ true
    → count (has_id row.id) rows ≤ 1
    → (k : Key) → count (is_active_key k) rows ≤ 1
    → count (is_active_key k) (activate_rows row rows) ≤ 1
unfolding activate_rows
activate_rows-one_active row rows a u k h = elim (Bool-cases (same_key (key_of row) k)) [
  | inl same ↦ omega (
    arith,
    count-map-le (agrees row) (is_active_key k) (has_id row.id) (activate_row row)
        (activate_row-of_key row k same) rows a,
    u,
  )
  | inr other ↦ omega (
    arith,
    count-map-le (agrees row) (is_active_key k) (is_active_key k) (activate_row row)
        (activate_row-of_other row k other) rows a,
    h,
  )
]

has_id-activate_row :
    (row : PromptTemplate) (i : ℕ) (r : PromptTemplate) → has_id i (activate_row row r) ≡ has_id i r
unfolding activate_row
has_id-activate_row row i r = ground arith

activate_rows_unique :
    (row : PromptTemplate) (rows : List PromptTemplate) (i : ℕ)
    → count (has_id i) (activate_rows row rows) ≡ count (has_id i) rows
unfolding activate_rows
activate_rows_unique row rows i =
    count-map (has_id i) (activate_row row) (has_id-activate_row row i) rows

-- From rows that are sound, the activation of one of them gives sound rows.
activated-IsSound :
    (row : PromptTemplate) (rows : List PromptTemplate)
    → ((id : ℕ) → count (has_id id) rows ≤ 1)
    → ((k : Key) → count (is_active_key k) rows ≤ 1)
    → get row.id rows ≡ some row
    → IsSound record { rows = activate_rows row rows; cache = none }
unfolding get
activated-IsSound row rows u o h =
    let a =
      all-first (has_id row.id) (λ r. same_key (key_of r) (key_of row)) rows row (u row.id) h
        (same_key_refl (key_of row)) in
    record {
      unique = λ id. omega (arith, activate_rows_unique row rows id, u id);
      one_active = λ k. activate_rows-one_active row rows a (u row.id) k (o k);
      coherent = λ c h. cc;
    }

pub activate-IsSound : {s t : Store} (id : ℕ) → IsSound s → activate id s ≡ some t → IsSound t
unfolding activate get
activate-IsSound {s} {t} id v h = elim (Option-cases (first (has_id id) s.rows)) [
  | inl missing ↦ let e = rw (missing, activate, get) at h in cc
  | inr (row, found) ↦
      let e = same_some (rw (found, activate, get) at h) in
      let same = (==_iff row.id id).0 (first-some (has_id id) s.rows row found) in
      subst IsSound e (
        activated-IsSound row s.rows v.unique v.one_active
          (subst (λ i. first (has_id i) s.rows ≡ some row) (sym same) found))
]

module _ (id : ℕ) (v : NewVersion) (rows : List PromptTemplate) where
  extended : List PromptTemplate
  extended = rows ++ (new_version id v rows ∷ [])

  module _ (unique : (i : ℕ) → count (has_id i) rows ≤ 1) (fresh : count (has_id id) rows ≡ 0) where
    extended_unique : (i : ℕ) → count (has_id i) extended ≤ 1
    unfolding extended new_version
    extended_unique i = elim (Bool-cases (id == i)) [
      | inl same ↦ ground (
        arith,
        count-append (has_id i) rows (new_version id v rows ∷ []),
        subst (λ j. count (has_id j) rows ≡ 0) ((==_iff id i).0 same) fresh,
      )
      | inr other ↦
          ground (arith, count-append (has_id i) rows (new_version id v rows ∷ []), unique i)
    ]

  extended-one_active :
      ((k : Key) → count (is_active_key k) rows ≤ 1)
      → (k : Key) → count (is_active_key k) extended ≤ 1
  unfolding extended new_version
  extended-one_active one k =
      omega (arith, count-append (is_active_key k) rows (new_version id v rows ∷ []), one k)

pub create_version-IsSound :
    {s : Store} (id : ℕ) (v : NewVersion) (activated : Bool)
    → IsSound s
    → count (has_id id) s.rows ≡ 0
    → IsSound (create_version id v activated s).0
unfolding create_version extended get new_version
create_version-IsSound {s} id v false i fresh = record {
  unique = extended_unique id v s.rows i.unique fresh;
  one_active = extended-one_active id v s.rows i.one_active;
  coherent = λ c h. cc;
}
create_version-IsSound {s} id v true i fresh =
    activated-IsSound (new_version id v s.rows) (extended id v s.rows)
      (extended_unique id v s.rows i.unique fresh) (extended-one_active id v s.rows i.one_active)
      (first-append (has_id id) s.rows (new_version id v s.rows) fresh ((==_iff id id).1 refl))

pub patch-IsSound :
    {s : Store} (id template_id : ℕ) (system_prompt user_template notes : Option String)
    (activated : Bool) {t : Store} {row : PromptTemplate}
    → IsSound s
    → count (has_id id) s.rows ≡ 0
    → patch_as_new_version id template_id system_prompt user_template notes activated s
      ≡ some (t, row)
    → IsSound t
unfolding patch_as_new_version get
patch-IsSound {s} id template_id system_prompt user_template notes activated i fresh h =
    elim (Option-cases (first (has_id template_id) s.rows)) [
      | inl missing ↦ let e = rw (missing, patch_as_new_version, get) at h in cc
      | inr (source, found) ↦
          let e = same_some (rw (found, patch_as_new_version, get) at h) in
          subst IsSound (ap (λ (p : Store × PromptTemplate). p.0) e)
            (create_version-IsSound id _ activated i fresh)
    ]

-- What the cache answers from is the active rows, loaded or not.
pub loaded-active :
    {s : Store} → IsSound s → loaded s ≡ select (λ (r : PromptTemplate). r.is_active) s.rows
unfolding loaded
loaded-active {s} i = elim (Option-cases s.cache) [
  | inl missing ↦ rw (missing, loaded)
  | inr (c, found) ↦ rw (found, loaded) (i.coherent c found)
]

pub get_active-IsSound :
    {s : Store} (task model provider : String)
    → IsSound s
    → IsSound (get_active s task model provider).0
unfolding get_active
get_active-IsSound {s} task model provider i = record {
  unique = i.unique;
  one_active = i.one_active;
  coherent = λ c h. sym (same_some h) ∙ loaded-active i;
}
